-- ===== src/Base/Maybe.antt =====
-- `do` blocks over values that may be missing.
use policyengine_api.Base.{Option, none, some}

infixl 10 ◌>>=◌
abbrev pub ◌>>=◌ {ℓ κ} : {A : Type ℓ} {B : Type κ} → Option A → (A → Option B) → Option B
none >>= f = none
some a >>= f = f a
