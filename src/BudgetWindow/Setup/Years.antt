-- ===== src/BudgetWindow/Setup/Years.antt =====
-- utils/budget_window.py: the requests that are accepted, and their years.
use Prim.Native.String.{◌++◌}
use policyengine_api.Base.Decimal.{decimal}
use policyengine_api.Base.{
  str_eq, eq_iff, leb, Bool-cases, inl, inr, ℕ, zero, suc, ◌+◌, ◌-◌, ◌≤◌, ◌<◌, ◌≡◌, refl, sym, ap,
  ◌∙◌, String, map, Option, some, true, false, length, get_elem?, arith,
}
use policyengine_api.Base.Int.{ℤ, pos, negsuc}
use policyengine_api.Effect.{Error, Result, ok, raised}
use policyengine_api.Base.{◌⊎◌}
use policyengine_api.BudgetWindow.Setup.{
  max_years, max_end_year, BudgetWindowRequestSetup, str_of, plus, exceeds, counting,
  build_budget_window_years, build_budget_window_time_period, build_budget_window_request_setup,
  parsed,
}

length-counting : (f : ℕ → String) (first n : ℕ) → length (map f (counting first n)) ≡ n
length-counting f first zero = refl
length-counting f first (suc n) = omega (arith, length-counting f (suc first) n)

get_elem?-counting :
    (f : ℕ → String) (first n i : ℕ)
    → i < n
    → get_elem? (map f (counting first n)) i ≡ some (f (first + i))
get_elem?-counting f first (suc n) zero h = ground arith
get_elem?-counting f first (suc n) (suc i) h =
    rw (get_elem?-counting f (suc first) n i (omega arith)) (ground arith)
get_elem?-counting f first zero i h = absurd (omega arith)

-- what a request that is accepted looks like
pub record IsWindow (start : ℤ) (size : ℤ) (r : BudgetWindowRequestSetup) : Type 0 where
  pub given : size ≡ pos r.window_size
  pub nonempty : 1 ≤ r.window_size
  pub bounded : r.window_size ≤ max_years
  pub ends : exceeds (plus start (r.window_size - 1)) max_end_year ≡ false
  pub named : r.start_year ≡ str_of start
  pub counted : length r.years ≡ r.window_size
  pub consecutive : (i : ℕ) → i < r.window_size → get_elem? r.years i ≡ some (str_of (plus start i))

-- the period that names a start year and a size
abbrev pub period_of : ℤ → ℕ → String
period_of start size = "budget_window:" ++ (str_of start ++ (":" ++ decimal size))

-- the requests that may be made: the general target, 1 to 75 years, the last of them 2099 or earlier
abbrev pub IsAllowed : ℤ → ℤ → String → Type 0
IsAllowed start size target =
    (target ≡ "general")
    × ((n : ℕ) × (size ≡ pos n) × (1 ≤ n) × (n ≤ 75) × (exceeds (plus start (n - 1)) 2_099 ≡ false))

module _ (int_of : String → Option ℤ) where
  -- the only way to be accepted
  accepted-ok :
      (start_year target : String) (start size : ℤ) (r : BudgetWindowRequestSetup)
      → int_of start_year ≡ some start
      → int_of (str_of start) ≡ some start
      → build_budget_window_request_setup int_of start_year size target ≡ ok r
      → (n : ℕ) × ((size ≡ pos (suc n))
          × (suc n ≤ max_years)
          × (exceeds (plus start n) max_end_year ≡ false)
          × (r.window_size ≡ suc n)
          × (r.start_year ≡ str_of start)
          × (r.years ≡ map (λ index. str_of (plus start index)) (counting 0 (suc n))))
  unfolding build_budget_window_request_setup build_budget_window_years
  accepted-ok start_year target start (pos zero) r read written accepted = ground (arith, read)
  accepted-ok start_year target start (negsuc n) r read written accepted = ground (arith, read)
  accepted-ok start_year target start (pos (suc n)) r read written accepted =
      (n, ground (arith, read, written))

  -- A request that is accepted has between 1 and 75 years, as many as asked for, which count up from
  -- the start year without a gap and end in 2099 or earlier. `int` reads back what `str` wrote of an
  -- integer.
  pub setup-IsWindow :
      (start_year target : String) (start size : ℤ) (r : BudgetWindowRequestSetup)
      → int_of start_year ≡ some start
      → int_of (str_of start) ≡ some start
      → build_budget_window_request_setup int_of start_year size target ≡ ok r
      → IsWindow start size r
  setup-IsWindow start_year target start size r read written accepted =
      let (n, shape) = accepted-ok start_year target start size r read written accepted in
      record {
        given = shape.0 ∙ sym (ap pos shape.3);
        nonempty = omega (arith, shape);
        bounded = omega (arith, shape);
        ends = (let back : r.window_size - 1 ≡ n = omega (arith, shape) in rw back shape.2);
        named = shape.4;
        counted = rw (shape.5, shape.3) (length-counting _ 0 (suc n));
        consecutive = λ i h.
            ap (λ years. get_elem? years i) shape.5
            ∙ get_elem?-counting (λ index. str_of (plus start index)) 0 (suc n) i
                (omega (arith, h, shape))
            ∙ (let zeroed : 0 + i ≡ i = omega arith in rw zeroed refl);
      }

  module _ (start_year : String) (start : ℤ) (read : int_of start_year ≡ some start)
      (written : int_of (str_of start) ≡ some start) where
    accepted-IsAllowed :
        (target : String) (size : ℤ) (r : BudgetWindowRequestSetup)
        → build_budget_window_request_setup int_of start_year size target ≡ ok r
        → IsAllowed start size target × (r.time_period ≡ period_of start r.window_size)
    unfolding build_budget_window_request_setup build_budget_window_years
        build_budget_window_time_period
    accepted-IsAllowed target (pos zero) r accepted = ground (arith, read)
    accepted-IsAllowed target (negsuc n) r accepted = ground (arith, read)
    accepted-IsAllowed target (pos (suc n)) r accepted =
        elim (Bool-cases (str_eq target "general")) [
          | inl named ↦
              let general = (eq_iff target "general").0 named in
              let (m, shape) =
                accepted-ok start_year target start (pos (suc n)) r read written accepted in
              let period : r.time_period ≡ period_of start (suc n) =
                (ground (arith, read, written, named)) in
              let shown : r.window_size ≡ suc n = ground (arith, shape) in
              (
                (general, (suc n, refl, omega arith, ground (arith, shape), ground (arith, shape))),
                rw shown period,
              )
          | inr other ↦ absurd (ground (arith, other))
        ]

    allowed :
        (n : ℕ)
        → 1 ≤ n
        → n ≤ 75
        → exceeds (plus start (n - 1)) 2_099 ≡ false
        → (r : BudgetWindowRequestSetup) × (build_budget_window_request_setup int_of start_year
              (pos n)
              "general"
            ≡ ok r)
          × (r.time_period ≡ period_of start r.window_size)
    unfolding build_budget_window_request_setup build_budget_window_years
        build_budget_window_time_period
    allowed zero positive small early = absurd (omega arith)
    allowed (suc n) positive small early =
        let fits : leb (suc n) max_years ≡ true = ground (arith, small) in
        let before : suc n - 1 ≡ n = omega arith in
        let last : exceeds (plus start n) max_end_year ≡ false = rw before at early in
        (
          record {
            start_year = str_of start;
            window_size = suc n;
            years = map (λ index. str_of (plus start index)) (counting 0 (suc n));
            time_period = period_of start (suc n);
          },
          rw (parsed, read, fits, last, written) refl,
          refl,
        )

    decided :
        (target : String) (size : ℤ) (r : Result BudgetWindowRequestSetup)
        → build_budget_window_request_setup int_of start_year size target ≡ r
        → (IsAllowed start size target
            × (s : BudgetWindowRequestSetup) × (build_budget_window_request_setup int_of start_year
                  size target
                ≡ ok s)
            × (s.time_period
                ≡ "budget_window:" ++ (str_of start ++ (":" ++ decimal s.window_size))))
          ⊎ (¬ IsAllowed start size target
              × (e : Error) × (build_budget_window_request_setup int_of start_year size target
                  ≡ raised e))
    decided target size (ok s) accepted =
        let (may, named) = accepted-IsAllowed target size s accepted in
        inl (may, s, accepted, named)
    decided target size (raised e) refused = inr (
      λ (general, (n, given, positive, small, early)).
          (let (s, accepted, named) = allowed n positive small early in
            absurd (cc (general, given, accepted, refused))),
      e,
      refused,
    )

    -- Whatever the target and the size, a request for the general target, and 1 to 75 years the
    -- last of which is 2099 or earlier, is accepted, under the period
    -- "budget_window:<start year>:<size>", and every other request raises. The start year is read as
    -- an integer, and `int` reads back what `str` wrote of it.
    pub build_budget_window_request_setup_lem :
        (target : String) (size : ℤ)
        → (IsAllowed start size target
            × (s : BudgetWindowRequestSetup) × (build_budget_window_request_setup int_of start_year
                  size target
                ≡ ok s)
            × (s.time_period
                ≡ "budget_window:" ++ (str_of start ++ (":" ++ decimal s.window_size))))
          ⊎ (¬ IsAllowed start size target
              × (e : Error) × (build_budget_window_request_setup int_of start_year size target
                  ≡ raised e))
    build_budget_window_request_setup_lem target size =
        decided target size (build_budget_window_request_setup int_of start_year size target) refl
