-- ===== src/ReformImpacts/Like/Exact.antt =====
-- runtime_cache/reform_impacts.py: what a LIKE pattern means.
use policyengine_api.Base.{
  ℕ, [], ◌∷◌, true, false, ◌≡◌, ◌≢◌, refl, ◌↔◌, inl, inr, arith, ℕ_discrete, Bool-cases,
}
use policyengine_api.ReformImpacts.Like.{
  Codes, newline, backslash, star, any, literal, Expression, expression, at_end, accepted,
  like_matches,
}

-- A LIKE pattern and the texts that it describes. The text may end with one newline more.
pub data Describes : Codes → Codes → Type 0 where
  done : {s : Codes} → at_end s ≡ true → Describes [] s
  last_escape : {s : Codes} → at_end s ≡ true → Describes (backslash ∷ []) (backslash ∷ s)
  escape : {c : ℕ} {p s : Codes} → Describes p s → Describes (backslash ∷ c ∷ p) (c ∷ s)
  skip : {p s : Codes} → Describes p s → Describes (b'%' ∷ p) s
  more : {d : ℕ} {p s : Codes} → d ≢ newline → Describes (b'%' ∷ p) s → Describes (b'%' ∷ p) (d ∷ s)
  single : {d : ℕ} {p s : Codes} → d ≢ newline → Describes p s → Describes (b'_' ∷ p) (d ∷ s)
  plain :
      {c : ℕ} {p s : Codes}
      → c ≢ backslash
      → c ≢ b'%'
      → c ≢ b'_'
      → Describes p s
      → Describes (c ∷ p) (c ∷ s)

module _ (c : ℕ) (p : Codes) (not_escape : c ≢ backslash) (not_percent : c ≢ b'%')
    (not_underscore : c ≢ b'_') where
  expression-plain : expression false (c ∷ p) ≡ literal c ∷ expression false p
  unfolding expression
  expression-plain = ground arith

accepted-skip : (p : Expression) (s : Codes) → accepted p s ≡ true → accepted (star ∷ p) s ≡ true
unfolding accepted
accepted-skip p [] h = h
accepted-skip p (d ∷ s) h = rw h refl

accepted-more :
    (p : Expression) (d : ℕ) (s : Codes)
    → d ≢ newline
    → accepted (star ∷ p) s ≡ true
    → accepted (star ∷ p) (d ∷ s) ≡ true
unfolding accepted
accepted-more p d s differs h = ground arith

Describes→accepted : {p s : Codes} → Describes p s → accepted (expression false p) s ≡ true
unfolding expression accepted
Describes→accepted (done h) = h
Describes→accepted (last_escape h) = h
Describes→accepted (escape {c} {p} {s} d) = ground (arith, Describes→accepted d)
Describes→accepted (skip {p} {s} d) = accepted-skip (expression false p) s (Describes→accepted d)
Describes→accepted (more {d} {p} {s} n m) =
    accepted-more (expression false p) d s n (Describes→accepted m)
Describes→accepted (single n d) = rw (Describes→accepted d) (ground arith)
Describes→accepted (plain {c} {p} {s} a b e d) =
    rw (expression-plain c p a b e) (ground (arith, Describes→accepted d))

-- The readings of a pattern's first character.
data Head (c : ℕ) : Type 0 where
  is_escape : c ≡ backslash → Head c
  is_percent : c ≡ b'%' → Head c
  is_underscore : c ≡ b'_' → Head c
  is_plain : c ≢ backslash → c ≢ b'%' → c ≢ b'_' → Head c

Head-of : (c : ℕ) → Head c
Head-of c = elim (ℕ_discrete c backslash) [
  | yes e ↦ is_escape e
  | no a ↦ elim (ℕ_discrete c b'%') [
    | yes e ↦ is_percent e
    | no b ↦ elim (ℕ_discrete c b'_') [ yes e ↦ is_underscore e | no d ↦ is_plain a b d ]
  ]
]

module _ (p : Codes)
    (tail : (s : Codes) → accepted (expression false p) s ≡ true → Describes p s) where
  Describes-percent :
      (s : Codes) → accepted (star ∷ expression false p) s ≡ true → Describes (b'%' ∷ p) s
  unfolding accepted
  Describes-percent [] h = skip (tail [] h)
  Describes-percent (d ∷ s) h = elim (Bool-cases (accepted (expression false p) (d ∷ s))) [
    | inl now ↦ skip (tail (d ∷ s) now)
    | inr later ↦ more (ground arith) (Describes-percent s (ground arith))
  ]

  Describes-underscore :
      (s : Codes) → accepted (any ∷ expression false p) s ≡ true → Describes (b'_' ∷ p) s
  unfolding accepted
  Describes-underscore [] h = cc
  Describes-underscore (d ∷ s) h = single (ground arith) (tail s (ground arith))

  module _ (c : ℕ) where
    Describes-escape :
        (s : Codes)
        → accepted (literal c ∷ expression false p) s ≡ true
        → Describes (backslash ∷ c ∷ p) s
    unfolding accepted
    Describes-escape [] h = cc
    Describes-escape (d ∷ s) h =
        let same : c ≡ d = ground arith in rw (← same) (escape (tail s (ground arith)))

    Describes-plain :
        (s : Codes)
        → c ≢ backslash
        → c ≢ b'%'
        → c ≢ b'_'
        → accepted (literal c ∷ expression false p) s ≡ true
        → Describes (c ∷ p) s
    unfolding accepted
    Describes-plain [] a b e h = cc
    Describes-plain (d ∷ s) a b e h =
        let same : c ≡ d = ground arith in rw (← same) (plain a b e (tail s (ground arith)))

Describes-last_escape :
    (s : Codes) → accepted (literal backslash ∷ []) s ≡ true → Describes (backslash ∷ []) s
unfolding accepted
Describes-last_escape [] h = cc
Describes-last_escape (d ∷ s) h =
    let same : backslash ≡ d = ground arith in rw (← same) (last_escape (ground arith))

-- a pattern whose first character does not escape the next one
Describes-unescaped :
    (c : ℕ) (p s : Codes)
    → ((t : Codes) → accepted (expression false p) t ≡ true → Describes p t)
    → c ≢ backslash
    → accepted (expression false (c ∷ p)) s ≡ true
    → Describes (c ∷ p) s
unfolding expression
Describes-unescaped c p s tail a h = elim (Head-of c) [
  | is_escape e ↦ absurd (a e)
  | is_percent e ↦ rw e (Describes-percent p tail s (rw e at h))
  | is_underscore e ↦ rw e (Describes-underscore p tail s (rw e at h))
  | is_plain _ b d ↦ Describes-plain p tail c s a b d (rw (expression-plain c p a b d) at h)
]

accepted→Describes : (p s : Codes) → accepted (expression false p) s ≡ true → Describes p s
unfolding expression accepted
accepted→Describes [] s h = done h
accepted→Describes (c ∷ []) s h = elim (ℕ_discrete c backslash) [
  | yes e ↦ rw e (Describes-last_escape s (rw e at h))
  | no a ↦ Describes-unescaped c [] s (accepted→Describes []) a h
]
accepted→Describes (c ∷ d ∷ p) s h = elim (ℕ_discrete c backslash) [
  | yes e ↦ rw e (Describes-escape p (accepted→Describes p) d s (rw e at h))
  | no a ↦ Describes-unescaped c (d ∷ p) s (accepted→Describes (d ∷ p)) a h
]

-- The search for the regular expression succeeds exactly on the texts that the LIKE pattern
-- describes: `%` stands for any characters but newlines, `_` for one, a backslash takes the next
-- character as it is, and one newline more may end the text.
pub like_matches_iff :
    (value pattern : Codes) → (like_matches value pattern ≡ true) ↔ Describes pattern value
unfolding like_matches
like_matches_iff value pattern = (accepted→Describes pattern value, Describes→accepted)
