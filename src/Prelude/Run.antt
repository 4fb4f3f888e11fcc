-- ===== src/Prelude/Run.antt =====
-- The result of code that may abort: a failed `log_assert` (core/Log.h), an access outside an
-- array, a loop that does not end within its fuel and a system call that blocks for good are faults.
use rdm.Prelude.{
  ℕ, zero, suc, ◌<◌, ◌≡◌, refl, ◌⊎◌, inl, inr, Bool, true, false, List, [], ◌∷◌, arith, length,
  get_or, get_elem?, Option, none, some,
}

pub data Fault : Type 0 where
  assertion out_of_range out_of_fuel blocked : Fault

pub data Run {ℓ} (A : Type ℓ) : Type ℓ where
  ok : A → Run A
  fault : Fault → Run A

infixl 5 ◌>>=◌ ◌>>◌
abbrev pub ◌>>=◌ {ℓ κ} : {A : Type ℓ} {B : Type κ} → Run A → (A → Run B) → Run B
ok a >>= f = f a
fault e >>= f = fault e

abbrev pub ◌>>◌ {ℓ} : {B : Type ℓ} → Run (Unit {0}) → Run B → Run B
m >> k = m >>= λ _. k

-- `log_assert(expr)`
abbrev pub log_assert : Bool → Run (Unit {0})
log_assert true = ok tt
log_assert false = fault assertion

-- `array[i]`
abbrev pub present {ℓ} : {A : Type ℓ} → Option A → Run A
present none = fault out_of_range
present (some found) = ok found

abbrev pub at {ℓ} : {A : Type ℓ} → List A → ℕ → Run A
at array index = present (get_elem? array index)

pub at-get_or {ℓ} :
    {A : Type ℓ} (array : List A) (index : ℕ) (default : A)
    → index < length array
    → at array index ≡ ok (get_or array index default)
at-get_or [] index default inside = absurd (omega arith)
at-get_or (first ∷ others) zero default inside = refl
at-get_or (first ∷ others) (suc index) default inside = at-get_or others index default (omega arith)

-- To split on a run and keep the equation.
pub Run-cases {ℓ} :
    {A : Type ℓ} (r : Run A) → ((a : A) × (r ≡ ok a)) ⊎ ((e : Fault) × (r ≡ fault e))
Run-cases (ok a) = inl (a, refl)
Run-cases (fault e) = inr (e, refl)

-- The code returns.
abbrev pub returns {ℓ} : {A : Type ℓ} → Run A → Bool
returns (ok a) = true
returns (fault e) = false
