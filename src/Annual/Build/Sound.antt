-- ===== src/Annual/Build/Sound.antt =====
-- services/economy_service.py: the checks of a request before the worker is asked.
use mathlib.Core.Bool.{false≢true}
use policyengine_api.Base.{
  String, Option, ◌≡◌, ◌≢◌, refl, ◌∙◌, sym, ◌↔◌, inl, inr, str_eq, eq_iff, arith, Bool-cases,
}
use policyengine_api.Json.{Json, get}
use policyengine_api.Effect.{Result, ok, raised, Exec, lift, ◌>>=◌}
use policyengine_api.Annual.Spm.{normalize_spm_selection}
use policyengine_api.Annual.Request.{Environment, Session}
use policyengine_api.Annual.Tables.{EconomicImpactRequest, Tables}
use policyengine_api.Annual.Build.{normalize_us_region, with_normalized_region, check_dataset}
use policyengine_api.Annual.Build.Regions.{IsBreakdown, IsPlace}

abbrev pub Succeeds : {A : Type 0} → Result A → Type 0
Succeeds {A} r = (a : A) × (r ≡ ok a)

-- the checks one after the other
abbrev pub then_check : {A : Type 0} → Result (Unit {0}) → Result A → Result A
then_check (ok u) rest = rest
then_check (raised e) rest = raised e

pub then_check-Succeeds :
    {A : Type 0} (r : Result (Unit {0})) (rest : Result A)
    → Succeeds (then_check r rest) ↔ ((r ≡ ok tt) × Succeeds rest)
then_check-Succeeds (ok u) rest = (λ h. (refl, h), λ h. h.1)
then_check-Succeeds (raised e) rest = (λ h. absurd (cc h.1), λ h. absurd (cc h.0))

pub then_check-rest :
    {A : Type 0} (r : Result (Unit {0})) (rest : Result A) (a : A)
    → then_check r rest ≡ ok a
    → rest ≡ ok a
then_check-rest (ok u) rest a passed = passed
then_check-rest (raised e) rest a passed = absurd (cc passed)

pub lift-then_check :
    {A B : Type 0} (r : Result (Unit {0})) (rest : Result A) (m : Exec Session B)
    (f : A → Exec Session B) (s : Session)
    → m s ≡ (lift rest >>= f) s
    → ◌>>=◌ (lift r) (λ _. m) s ≡ (lift (then_check r rest) >>= f) s
lift-then_check (ok u) rest m f s same = same
lift-then_check (raised e) rest m f s same = refl

us≢uk : ◌≢◌ {A = String} "us" "uk"
us≢uk e = absurd (false≢true ((eq_iff "us" "uk").1 e))

module _ (tables : Tables) (env : Environment) (time_period : String) where
  -- the SPM options of a request, before the worker is asked
  abbrev pub spm_of : EconomicImpactRequest → Result (Option Json)
  spm_of request =
      normalize_spm_selection tables (tables.lower request.country_id) (get "spm" request.options)

  pub check_dataset_iff :
      (request : EconomicImpactRequest)
      → (check_dataset tables request ≡ ok tt) ↔ (request.dataset ≡ "default")
  check_dataset_iff request =
      let named = eq_iff request.dataset "default" in
      (λ h. named.0 (ground arith), λ e. rw (named.1 e) refl)

  -- what a request is checked for apart from its year
  abbrev pub IsSound : EconomicImpactRequest → Type 0
  IsSound request =
      (request.dataset ≡ "default")
      × IsBreakdown tables request (get "breakdown" request.options)
      × IsPlace tables request
      × Succeeds (spm_of request)

  -- A US request's region has no part in the checks.
  moved-IsSound :
      (request : EconomicImpactRequest) (region : String)
      → request.country_id ≡ "us"
      → IsSound (record request { region = region }) ↔ IsSound request
  moved-IsSound request region us =
      let abroad = λ (uk : request.country_id ≡ "uk"). us≢uk (sym us ∙ uk) in
      (
        λ (d, b, p, c). (
          d,
          elim b [ inl e ↦ inl e | inr k ↦ absurd (abroad k.1) ],
          λ uk. absurd (abroad uk),
          c,
        ),
        λ (d, b, p, c). (
          d,
          elim b [ inl e ↦ inl e | inr k ↦ absurd (abroad k.1) ],
          λ uk. absurd (abroad uk),
          c,
        ),
      )

  pub with_normalized_region-IsSound :
      (request : EconomicImpactRequest)
      → IsSound (with_normalized_region tables request) ↔ IsSound request
  unfolding with_normalized_region
  with_normalized_region-IsSound request = elim (Bool-cases (str_eq request.country_id "us")) [
    | inl us ↦ rw us (
        moved-IsSound request (normalize_us_region tables request.region)
          ((eq_iff request.country_id "us").0 us))
    | inr other ↦ rw other (λ h. h, λ h. h)
  ]
