-- ===== src/Effect/Keeps.antt =====
-- Invariants of methods, one rule for each way to build a method.
use policyengine_api.Base.{◌≡◌, refl, Bool, true, false, if◌then◌else◌}
use policyengine_api.Effect.{
  Error, Result, ok, raised, Exec, pure, raise, gets, lift, try_except, attempt, ◌>>=◌,
}

-- `m` keeps `P`, whether it returns or raises.
pub record Keeps {S A : Type 0} (P : S → Type 0) (m : Exec S A) : Type 0 where
  pub at : (s : S) → P s → P (m s).1

module _ {S A : Type 0} {P : S → Type 0} where
  pub Keeps-pure : (a : A) → Keeps P (pure a)
  Keeps-pure a = record { at = λ s h. h }

  pub Keeps-raise : (e : Error) → Keeps P (raise {A = A} e)
  Keeps-raise e = record { at = λ s h. h }

  pub Keeps-lift : (r : Result A) → Keeps P (lift r)
  Keeps-lift r = record { at = λ s h. h }

  pub Keeps-gets : (f : S → A) → Keeps P (gets f)
  Keeps-gets f = record { at = λ s h. h }

  pub Keeps-if : (b : Bool) {m n : Exec S A} → Keeps P m → Keeps P n → Keeps P (if b then m else n)
  Keeps-if true km kn = km
  Keeps-if false km kn = kn

  -- a branch whose test is known
  pub Keeps-if_then :
      (b : Bool) {m n : Exec S A}
      → (b ≡ true → Keeps P m)
      → (b ≡ false → Keeps P n)
      → Keeps P (if b then m else n)
  Keeps-if_then true km kn = km refl
  Keeps-if_then false km kn = kn refl

  Keeps-caught :
      (r : Result A) (h : Error → Exec S A)
      → ((e : Error) → Keeps P (h e))
      → Keeps P (try_except (lift r) h)
  Keeps-caught (ok a) h kh = Keeps-pure a
  Keeps-caught (raised e) h kh = kh e

  pub Keeps-try_except :
      (m : Exec S A) (h : Error → Exec S A)
      → Keeps P m
      → ((e : Error) → Keeps P (h e))
      → Keeps P (try_except m h)
  Keeps-try_except m h km kh = record {
    at = λ s p. let (r, s') = m s in (Keeps-caught r h kh).at s' (km.at s p);
  }

module _ {S A B : Type 0} {P : S → Type 0} where
  Keeps-continue :
      (r : Result A) (f : A → Exec S B) → ((a : A) → Keeps P (f a)) → Keeps P (lift r >>= f)
  Keeps-continue (ok a) f kf = kf a
  Keeps-continue (raised e) f kf = Keeps-raise e

  pub Keeps-bind :
      (m : Exec S A) (f : A → Exec S B) → Keeps P m → ((a : A) → Keeps P (f a)) → Keeps P (m >>= f)
  Keeps-bind m f km kf = record {
    at = λ s p. let (r, s') = m s in (Keeps-continue r f kf).at s' (km.at s p);
  }

  Keeps-attempted :
      (r : Result A) (h : Error → Exec S B) (k : A → Exec S B)
      → ((e : Error) → Keeps P (h e))
      → ((a : A) → Keeps P (k a))
      → Keeps P (attempt (lift r) h k)
  Keeps-attempted (ok a) h k kh kk = kk a
  Keeps-attempted (raised e) h k kh kk = kh e

  pub Keeps-attempt :
      (m : Exec S A) (h : Error → Exec S B) (k : A → Exec S B)
      → Keeps P m
      → ((e : Error) → Keeps P (h e))
      → ((a : A) → Keeps P (k a))
      → Keeps P (attempt m h k)
  Keeps-attempt m h k km kh kk = record {
    at = λ s p. let (r, s') = m s in (Keeps-attempted r h k kh kk).at s' (km.at s p);
  }

pub ruleset keeps_rules = (
  Keeps-pure, Keeps-raise, Keeps-lift, Keeps-gets, Keeps-if, Keeps-bind, Keeps-attempt,
  Keeps-try_except,
)
