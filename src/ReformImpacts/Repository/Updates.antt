-- ===== src/ReformImpacts/Repository/Updates.antt =====
-- runtime_cache/reform_impacts.py: `get_by_execution_id` after `set` and `update`.
use mathlib.Core.Option
use policyengine_api.Base.{
  ℕ, String, Option, none, some, Bool, true, false, ◌≡◌, refl, ◌∙◌, ap, ◌&&◌, str_eq, is_some,
  if◌then◌else◌, arith, eq_refl,
}
use policyengine_api.Json.{CacheText, obj}
use policyengine_api.Effect.{ok, pure, >>=-ok}
use policyengine_api.Cache.Backend.Commands
use policyengine_api.Cache.Backend.Expiry.{view, view-get}
use policyengine_api.Cache.Client.{World, IsCalm, client_get-IsCalm, get-IsCalm}
use policyengine_api.Cache.Client.Calm.{after}
use policyengine_api.Cache.Core.{completed_result_ttl, decode-encode_envelope}
use policyengine_api.ReformImpacts.StartClaims.{family, schema_version}
use policyengine_api.ReformImpacts.Records.{CachedReformImpact, aware, impact_to_wire}
use policyengine_api.ReformImpacts.Records.RoundTrip.{stored_form, impact_from_wire-impact_to_wire}
use policyengine_api.ReformImpacts.Repository.{
  Setting, ttl_seconds, record_key, encoded_impact, set_impact, nonempty, or_else, decode_impact,
  get_by_execution_id, then_rewrite, rewrite, update, store,
}
use policyengine_api.ReformImpacts.Repository.Stored.{store_lem}

-- `dataclasses.replace` with the changes of an update
abbrev pub changed :
    Bool → (CachedReformImpact → CachedReformImpact) → CachedReformImpact → CachedReformImpact
changed clear changes impact =
    if clear then record (changes impact) { execution_id = none } else changes impact

module _ (set : Setting) where
  -- the world after a read
  abbrev read_world : String → World → World
  read_world key w = after (Commands.get key w.backend).1 w

  module _ (id : String) (w : World) (calm : IsCalm w) where
    get_by_execution_id-IsCalm : get_by_execution_id set id w ≡ (
      ok (decode_impact set (view w.backend (record_key set (some id)))),
      read_world (record_key set (some id)) w,
    )
    unfolding get_by_execution_id
    get_by_execution_id-IsCalm = rw (client_get-IsCalm w calm (record_key set (some id))) refl

  set_impact-store :
      (impact : CachedReformImpact) (other : Option String) (record_ttl : Option ℕ) (xx : Bool)
      (id : String)
      → nonempty (or_else other impact.execution_id) ≡ some id
      → set_impact set impact other record_ttl xx
        ≡ store set (record_key set (some id)) impact record_ttl xx
  unfolding set_impact
  set_impact-store impact other record_ttl xx id named = rw named refl

  nonempty-given :
      (id : String) (other : Option String)
      → str_eq id "" ≡ false
      → nonempty (or_else (some id) other) ≡ some id
  nonempty-given id other filled = ground arith

  module _ (ttl : ℕ) (chosen : completed_result_ttl ttl_seconds set.choose_reduction ≡ ok ttl)
      (id : String) (filled : str_eq id "" ≡ false) (clear : Bool) (record_ttl : Option ℕ)
      (changes : CachedReformImpact → CachedReformImpact) (impact : CachedReformImpact) (w : World)
      (calm : IsCalm w) where
    -- the second half of an update: its answer, what every reader sees after it
    rewrite_lem :
        let key = record_key set (some id) in
        let updated = changed clear changes impact in
        let present = is_some (view w.backend key) in
        let done = rewrite set id clear record_ttl changes impact w in
        (done.0 ≡ ok (if present then some updated else none))
        × ((j : String)
            → view done.1.backend j ≡ (
                if present && str_eq key j
                then some (encoded_impact set updated)
                else view w.backend j))
        × IsCalm done.1
    unfolding rewrite
    rewrite_lem =
        let key = record_key set (some id) in
        let updated = changed clear changes impact in
        let s = store_lem set ttl chosen key updated record_ttl true w calm in
        let named = nonempty-given id updated.execution_id filled in
        rw (set_impact-store updated (some id) record_ttl true id named) (
          rw
            (>>=-ok (store set key updated record_ttl true)
              (λ stored. pure (if stored then some updated else none)) w _ s.0)
            (refl, s.1, s.2))

  -- An update of a record that is gone when the update comes to write, whatever it read before,
  -- answers None and puts nothing back: every reader sees what was seen before, where no command
  -- fails and the identifier is not empty.
  pub rewrite-gone :
      (ttl : ℕ) (id : String) (clear : Bool) (record_ttl : Option ℕ)
      (changes : CachedReformImpact → CachedReformImpact) (impact : CachedReformImpact) (w : World)
      → completed_result_ttl ttl_seconds set.choose_reduction ≡ ok ttl
      → IsCalm w
      → str_eq id "" ≡ false
      → view w.backend (record_key set (some id)) ≡ none
      → let done = rewrite set id clear record_ttl changes impact w in
        (done.0 ≡ ok none) × ((j : String) → view done.1.backend j ≡ view w.backend j)
  rewrite-gone ttl id clear record_ttl changes impact w chosen calm filled gone =
      let r = rewrite_lem ttl chosen id filled clear record_ttl changes impact w calm in
      (r.0 ∙ rw gone refl, λ j. r.1 j ∙ rw gone refl)

  is_some-decoded :
      (o : Option CacheText) (impact : CachedReformImpact)
      → decode_impact set o ≡ some impact
      → is_some o ≡ true
  unfolding decode_impact
  is_some-decoded none impact e = cc e
  is_some-decoded (some text) impact e = refl

  module _ (parsed : (t : ℕ) → set.py.fromisoformat (set.py.isoformat t) ≡ some (aware t)) where
    decode-encoded_impact :
        (impact : CachedReformImpact)
        → decode_impact set (some (encoded_impact set impact)) ≡ some (stored_form impact)
    unfolding decode_impact encoded_impact
    decode-encoded_impact impact =
        rw
          (decode-encode_envelope family family schema_version schema_version
            (obj (impact_to_wire set.py impact)))
          (impact_from_wire-impact_to_wire set.py parsed impact)

    -- what a reader finds under a record's key
    found :
        (id : String) (impact : CachedReformImpact) (w : World)
        → IsCalm w
        → view w.backend (record_key set (some id)) ≡ some (encoded_impact set impact)
        → (get_by_execution_id set id w).0 ≡ ok (some (stored_form impact))
    found id impact w calm held =
        rw (get_by_execution_id-IsCalm id w calm) (rw held (ap ok (decode-encoded_impact impact)))

    -- An impact that is stored is found by its identifier as it was stored, its dicts with their keys
    -- in order and its times in UTC without a zone. No command fails, and an identifier is given
    -- or the impact has one.
    pub get-set_impact :
        (ttl : ℕ) (impact : CachedReformImpact) (other : Option String) (record_ttl : Option ℕ)
        (id : String) (w : World)
        → completed_result_ttl ttl_seconds set.choose_reduction ≡ ok ttl
        → IsCalm w
        → nonempty (or_else other impact.execution_id) ≡ some id
        → let done = set_impact set impact other record_ttl false w in
          (done.0 ≡ ok true)
          × ((get_by_execution_id set id done.1).0 ≡ ok (some (stored_form impact)))
    get-set_impact ttl impact other record_ttl id w chosen calm named =
        let key = record_key set (some id) in
        let s = store_lem set ttl chosen key impact record_ttl false w calm in
        rw (set_impact-store impact other record_ttl false id named) (
          s.0,
          found id impact (store set key impact record_ttl false w).1 s.2
              (s.1 key ∙ rw (eq_refl key) refl),
        )

    module _ (ttl : ℕ) (chosen : completed_result_ttl ttl_seconds set.choose_reduction ≡ ok ttl)
        (id : String) (filled : str_eq id "" ≡ false) (clear : Bool) (record_ttl : Option ℕ)
        (changes : CachedReformImpact → CachedReformImpact) (w : World) (calm : IsCalm w) where
      -- the rest of an update, after its read
      update_found :
          (before : Option CachedReformImpact)
          → decode_impact set (view w.backend (record_key set (some id))) ≡ before
          → let read = read_world (record_key set (some id)) w in
            let done = then_rewrite set id clear record_ttl changes before read in
            (done.0 ≡ ok (Option.map (changed clear changes) before))
            × ((get_by_execution_id set id done.1).0
                ≡ ok (Option.map (λ impact. stored_form (changed clear changes impact)) before))
      update_found none e =
          let key = record_key set (some id) in
          let read = read_world key w in
          (
            refl,
            rw (get_by_execution_id-IsCalm id read (get-IsCalm key calm))
                (ap ok (ap (decode_impact set) (view-get w.backend key key) ∙ e)),
          )
      update_found (some impact) e =
          let key = record_key set (some id) in
          let read = read_world key w in
          let updated = changed clear changes impact in
          let present : is_some (view read.backend key) ≡ true =
            rw (view-get w.backend key key) (is_some-decoded (view w.backend key) impact e) in
          let r =
            rewrite_lem ttl chosen id filled clear record_ttl changes impact read
              (get-IsCalm key calm) in
          (
            r.0 ∙ rw present refl,
            found id updated (rewrite set id clear record_ttl changes impact read).1 r.2
                (r.1 key ∙ rw present (rw (eq_refl key) refl)),
          )

    -- An update answers with the changed impact if the record is there and readable, and with None if
    -- not; the next reader finds the changed impact, or what was there before. No command fails, and
    -- the identifier is not empty.
    pub get-update :
        (ttl : ℕ) (id : String) (clear : Bool) (record_ttl : Option ℕ)
        (changes : CachedReformImpact → CachedReformImpact) (w : World)
        → completed_result_ttl ttl_seconds set.choose_reduction ≡ ok ttl
        → IsCalm w
        → str_eq id "" ≡ false
        → let before = decode_impact set (view w.backend (record_key set (some id))) in
          let done = update set id clear record_ttl changes w in
          (done.0 ≡ ok (Option.map (changed clear changes) before))
          × ((get_by_execution_id set id done.1).0
              ≡ ok (Option.map (λ impact. stored_form (changed clear changes impact)) before))
    unfolding update
    get-update ttl id clear record_ttl changes w chosen calm filled =
        let read = get_by_execution_id-IsCalm id w calm in
        rw read (update_found ttl chosen id filled clear record_ttl changes w calm _ refl)
