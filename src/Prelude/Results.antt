-- ===== src/Prelude/Results.antt =====
-- `Result<T, ContractError>`: the variants of packages/lib/src/common/model/error/contract_error.rs
-- that the modelled code raises, without their messages, and `panicked` for a Rust panic, which
-- aborts the transaction like an error. `?` is the bind of a `do` block.
use mathlib.Core.Path.{◌≡◌, refl, ap, subst}
use mathlib.Core.Logic.{◌⊎◌, inl, inr}
use mathlib.Core.Bool.{Bool, true, false}
use mathlib.Core.Option.{Option, none, some}
use democratized_prime_smart.Prelude.Tests.{if◌then◌else◌}

pub data Error : Type 0 where
  std ownership overflow amount_not_representable overflow_error checked_from_ratio : Error
  divide_by_zero not_authorized invalid_funds not_found illegal_argument illegal_state : Error
  pool_not_configured stale_price_data panicked : Error

pub data Result {ℓ} (A : Type ℓ) : Type ℓ where
  ok : A → Result A
  err : Error → Result A

-- `ensure!`
abbrev pub ensure : (holds : Bool) (cause : Error) → Result (Unit {0})
ensure holds cause = if holds then ok tt else err cause

-- `ok_or_else`, and `?` on an error that is converted
abbrev pub or_err {ℓ} : {A : Type ℓ} → Option A → Error → Result A
or_err (some a) e = ok a
or_err none e = err e

infixl 5 ◌>>=◌ ◌>>◌
-- `?`: the rest of the function runs on the value, or the error is its result
abbrev pub ◌>>=◌ {ℓ ι} : {X : Type ℓ} {Y : Type ι} → Result X → (X → Result Y) → Result Y
ok x >>= next = next x
err cause >>= next = err cause

-- the same after a check
abbrev pub ◌>>◌ {ι} : {Y : Type ι} → Result (Unit {0}) → Result Y → Result Y
check >> rest = check >>= λ _. rest

-- What every successful result satisfies.
pub record Ensures {ℓ κ} {A : Type ℓ} (P : A → Type κ) (m : Result A) : Type (ℓ ⊔ κ) where
  pub at : (a : A) → m ≡ ok a → P a

unwrap_or {ℓ} : {A : Type ℓ} → A → Result A → A
unwrap_or d (ok a) = a
unwrap_or d (err _) = d

module _ {ℓ κ} {A : Type ℓ} {P : A → Type κ} where
  pub Ensures-ok : (a : A) → P a → Ensures P (ok a)
  unfolding unwrap_or
  Ensures-ok a p = record { at = λ b h. subst P (ap (unwrap_or a) h) p }

  pub Ensures-err : (e : Error) → Ensures P (err e)
  Ensures-err e = record { at = λ b h. cc }

  -- The branch taken is known in its proof.
  pub Ensures-if :
      (b : Bool) (m n : Result A)
      → (b ≡ true → Ensures P m)
      → (b ≡ false → Ensures P n)
      → Ensures P (if b then m else n)
  Ensures-if true m n km kn = km refl
  Ensures-if false m n km kn = kn refl

module _ {ℓ κ} {B : Type ℓ} {P : B → Type κ} where
  -- What comes after a step that succeeded may use its result.
  pub Ensures->>= {ι} :
      {A : Type ι} (m : Result A) (f : A → Result B)
      → ((a : A) → m ≡ ok a → Ensures P (f a))
      → Ensures P (m >>= f)
  Ensures->>= (ok a) f k = k a refl
  Ensures->>= (err e) f k = Ensures-err e

  -- What comes after a check may use that it holds.
  pub Ensures-ensure :
      (b : Bool) (e : Error) (m : Result B) → (b ≡ true → Ensures P m) → Ensures P (ensure b e >> m)
  Ensures-ensure true e m k = k refl
  Ensures-ensure false e m k = Ensures-err e

  pub Ensures-or_err {ι} :
      {A : Type ι} (o : Option A) (e : Error) (f : A → Result B)
      → ((a : A) → o ≡ some a → Ensures P (f a))
      → Ensures P (or_err o e >>= f)
  Ensures-or_err (some a) e f k = k a refl
  Ensures-or_err none e f k = Ensures-err e

-- A step that succeeded, and the rest of the block from its result.
pub >>=-eq-ok {ℓ ι} :
    {X : Type ℓ} {Y : Type ι} (m : Result X) (next : X → Result Y) {y : Y}
    → (m >>= next) ≡ ok y
    → (x : X) × (m ≡ ok x) × (next x ≡ ok y)
>>=-eq-ok (ok x) next h = (x, refl, h)
>>=-eq-ok (err cause) next h = cc

pub or_err-eq-ok {ℓ} :
    {A : Type ℓ} (o : Option A) (e : Error) {a : A} → or_err o e ≡ ok a → o ≡ some a
or_err-eq-ok (some b) e h = cc
or_err-eq-ok none e h = cc

pub Result-cases {ℓ} :
    {A : Type ℓ} (m : Result A) → ((a : A) × (m ≡ ok a)) ⊎ ((e : Error) × (m ≡ err e))
Result-cases (ok a) = inl (a, refl)
Result-cases (err e) = inr (e, refl)
