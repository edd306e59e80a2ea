-- ===== src/Cache/Backend/Lifetimes.antt =====
-- runtime_cache/fake.py: what PTTL says of the time for which a key is there.
use policyengine_api.Base.{
  ℕ, ◌+◌, ◌*◌, ◌-◌, ◌≤◌, ◌≡◌, String, none, some, Bool, true, false, ltb, arith, eq_refl,
  Bool-cases, Option-cases, inl, inr,
}
use policyengine_api.Base.Int.{ℤ, pos, negsuc}
use policyengine_api.Cache.Backend.Commands.{
  Backend, advance, purge, pttl, exists, milliseconds_up, pttl_missing_key, pttl_no_expiry,
}

-- the key is there, as a value or as a sorted set
unfoldable pub is_present : String → Backend → Bool
unfolding purge
is_present key b = exists key (purge key b)

-- the key is there after a time
abbrev pub present_after : ℕ → String → Backend → Bool
present_after elapsed key b = is_present key (advance elapsed b).1

-- What the reply of PTTL tells of any later moment.
abbrev pub Foretells : ℤ → String → Backend → Type 0
Foretells (pos ms) key b =
    (elapsed : ℕ)
    → (ms * 1000 ≤ elapsed → present_after elapsed key b ≡ false)
      × (elapsed + 1000 ≤ ms * 1000 → present_after elapsed key b ≡ true)
Foretells (negsuc ℕ.zero) key b = (elapsed : ℕ) → present_after elapsed key b ≡ true
Foretells (negsuc n) key b = (elapsed : ℕ) → present_after elapsed key b ≡ false

module _ (key : String) (b : Backend) (internal : b.external_now ≡ none) where
  present_after-missing :
      (elapsed : ℕ) → is_present key b ≡ false → present_after elapsed key b ≡ false
  unfolding is_present advance
  present_after-missing elapsed missing = ground (arith, eq_refl key)

  present_after-kept :
      (elapsed : ℕ)
      → is_present key b ≡ true
      → b.expires key ≡ none
      → present_after elapsed key b ≡ true
  unfolding is_present advance
  present_after-kept elapsed present kept = ground (arith, eq_refl key)

  present_after-lapsing :
      (elapsed expires_at : ℕ)
      → is_present key b ≡ true
      → b.expires key ≡ some expires_at
      → present_after elapsed key b ≡ ltb (b.time + elapsed) expires_at
  unfolding is_present advance
  present_after-lapsing elapsed expires_at present lapsing = ground (arith, eq_refl key)

  pttl-missing : is_present key b ≡ false → (pttl key b).0 ≡ pttl_missing_key
  unfolding is_present pttl
  pttl-missing missing = ground arith

  pttl-kept : is_present key b ≡ true → b.expires key ≡ none → (pttl key b).0 ≡ pttl_no_expiry
  unfolding is_present pttl
  pttl-kept present kept = ground arith

  pttl-lapsing :
      (expires_at : ℕ)
      → is_present key b ≡ true
      → b.expires key ≡ some expires_at
      → (pttl key b).0 ≡ pos (milliseconds_up (expires_at - b.time))
  unfolding is_present pttl
  pttl-lapsing expires_at present lapsing = ground (arith, eq_refl key)

  -- Within a millisecond, the key is there until the time that PTTL gives has passed, and then not.
  pub pttl-Foretells : Foretells (pttl key b).0 key b
  pttl-Foretells = elim (Bool-cases (is_present key b)) [
    | inr missing ↦ rw (pttl-missing missing) (λ elapsed. present_after-missing elapsed missing)
    | inl present ↦ elim (Option-cases (b.expires key)) [
      | inl kept ↦ rw (pttl-kept present kept) (λ elapsed. present_after-kept elapsed present kept)
      | inr (expires_at, lapsing) ↦ rw (pttl-lapsing expires_at present lapsing) (λ elapsed.
          rw (present_after-lapsing elapsed expires_at present lapsing)
            (ground arith, ground arith))
    ]
  ]
