-- ===== src/Effect.antt =====
-- Methods that change a state and may raise. What was written before a raise stays written, so the
-- state comes back beside the exception too.
pub mod Keeps
use policyengine_api.Base.{ℕ, String, ◌≡◌, ap}

-- The exceptions that the modelled code raises or lets through.
pub data Error : Type 0 where
  value_error : String → Error
  runtime_error : String → Error
  validation_error : String → Error  -- pydantic.ValidationError, a ValueError
  coordination_error : String → Error  -- CacheCoordinationError
  handoff_error : String → Error  -- ReformImpactHandoffError, a CacheCoordinationError
  client_error : Error  -- what a cache client raises when a command fails
  spm_error : String → String → Error  -- SPMValidationError(code, message)
  http_status_error : ℕ → Error  -- httpx.HTTPStatusError with this status code
  policy_not_found : Error  -- PolicyNotFoundError
  other_error : String → Error  -- any other exception

pub data Result {ℓ} (A : Type ℓ) : Type ℓ where
  ok : A → Result A
  raised : Error → Result A

abbrev pub Exec {ℓ} : Type ℓ → Type ℓ → Type ℓ
Exec S A = S → Result A × S

module _ {ℓ} {S A : Type ℓ} where
  abbrev pub pure : A → Exec S A
  pure a s = (ok a, s)

  abbrev pub raise : Error → Exec S A
  raise e s = (raised e, s)

  abbrev pub gets : (S → A) → Exec S A
  gets f s = (ok (f s), s)

  -- a value computed without effect, which may be an exception
  abbrev pub lift : Result A → Exec S A
  lift r s = (r, s)

  -- try: m / except Exception as error: handler(error)
  abbrev caught : Result A → (Error → Exec S A) → Exec S A
  caught (ok a) h s = (ok a, s)
  caught (raised e) h s = h e s

  abbrev pub try_except : Exec S A → (Error → Exec S A) → Exec S A
  try_except m h s = let (r, s') = m s in caught r h s'

abbrev pub modify {ℓ} : {S : Type ℓ} → (S → S) → Exec S (Unit {ℓ})
modify f s = (ok tt, f s)

module _ {ℓ} {S A B : Type ℓ} where
  abbrev continue : Result A → (A → Exec S B) → Exec S B
  continue (ok a) f s = f a s
  continue (raised e) f s = (raised e, s)

  infixl 10 ◌>>=◌ ◌>>◌
  abbrev pub ◌>>=◌ : Exec S A → (A → Exec S B) → Exec S B
  ◌>>=◌ m f s = let (r, s') = m s in continue r f s'

  abbrev pub ◌>>◌ : Exec S A → Exec S B → Exec S B
  m >> n = m >>= λ _. n

-- A method of an object that a larger state holds.
abbrev pub within {ℓ} : {S T A : Type ℓ} → (T → S) → (S → T → T) → Exec S A → Exec T A
within view update m t = let (r, s) = m (view t) in (r, update s t)

module _ {ℓ} {S A B : Type ℓ} where
  abbrev attempted : Result A → (Error → Exec S B) → (A → Exec S B) → Exec S B
  attempted (ok a) h k s = k a s
  attempted (raised e) h k s = h e s

  -- try: a = m / except Exception as error: return handler(error) / and on with the method
  abbrev pub attempt : Exec S A → (Error → Exec S B) → (A → Exec S B) → Exec S B
  attempt m h k s = let (r, s') = m s in attempted r h k s'

-- The method raises nothing.
abbrev pub Returns {ℓ} : {S A : Type ℓ} → Exec S A → Type ℓ
Returns {S} {A} m = (s : S) → (a : A) × ((m s).0 ≡ ok a)

module _ {ℓ} {S A B : Type ℓ} (h : Error → Exec S B) (k : A → Exec S B) where
  attempted-Returns :
      (r : Result A)
      → ((e : Error) → Returns (h e))
      → ((a : A) → Returns (k a))
      → Returns (attempted r h k)
  attempted-Returns (ok a) onh onk = onk a
  attempted-Returns (raised e) onh onk = onh e

  pub attempt-Returns :
      (m : Exec S A)
      → ((e : Error) → Returns (h e))
      → ((a : A) → Returns (k a))
      → Returns (attempt m h k)
  attempt-Returns m onh onk s = attempted-Returns (m s).0 onh onk (m s).1

module _ {ℓ} {S A B : Type ℓ} (reply : Result A → Result B) where
  attempted-reply :
      (h : Error → Exec S B) (k : A → Exec S B)
      → ((e : Error) (s : S) → (h e s).0 ≡ reply (raised e))
      → ((a : A) (s : S) → (k a s).0 ≡ reply (ok a))
      → (r : Result A) (s : S) → (attempted r h k s).0 ≡ reply r
  attempted-reply h k onh onk (ok a) s = onk a s
  attempted-reply h k onh onk (raised e) s = onh e s

  -- What a method returns, from what its guarded command returns.
  pub attempt-reply :
      (m : Exec S A) (h : Error → Exec S B) (k : A → Exec S B)
      → ((e : Error) (s : S) → (h e s).0 ≡ reply (raised e))
      → ((a : A) (s : S) → (k a s).0 ≡ reply (ok a))
      → (s : S) → (attempt m h k s).0 ≡ reply (m s).0
  attempt-reply m h k onh onk s = attempted-reply h k onh onk (m s).0 (m s).1

module _ {ℓ} {S A B : Type ℓ} (m : Exec S A) (f : A → Exec S B) (s : S) where
  -- the rest of a method after a part that returns, and after one that raises
  pub >>=-ok : (a : A) → (m s).0 ≡ ok a → (m >>= f) s ≡ f a (m s).1
  >>=-ok a h = ap (λ r. continue r f (m s).1) h

  pub >>=-raised : (e : Error) → (m s).0 ≡ raised e → (m >>= f) s ≡ (raised e, (m s).1)
  >>=-raised e h = ap (λ r. continue r f (m s).1) h
