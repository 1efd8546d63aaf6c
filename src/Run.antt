-- ===== src/Run.antt =====
-- What a call comes to, and the status codes of src/sv_include/sieve2_error.h.
use libsieve.Prelude.{Bool, true, false, ℕ, ◌≡◌, refl}

-- What C leaves undefined and the model reports: a read or write outside an array, a read through
-- a null pointer or through memory that was freed, a read of a variable that was not set, a call of
-- a comparator on a pattern that is not of its kind, and a product that no `int` holds. `out_of_fuel`
-- belongs to the model only.
pub data Fault : Type 0 where
  out_of_bounds null_pointer use_after_free uninitialized wrong_pattern int_overflow out_of_fuel :
      Fault

pub data Run {ℓ} (A : Type ℓ) : Type ℓ where
  ok : A → Run A
  fault : Fault → Run A

infixl 5 ◌>>=◌
abbrev pub ◌>>=◌ {ℓ κ} : {A : Type ℓ} {B : Type κ} → Run A → (A → Run B) → Run B
ok a >>= f = f a
fault e >>= f = fault e

pub bind_assoc {ℓ κ μ} :
    {A : Type ℓ} {B : Type κ} {C : Type μ} (m : Run A) (f : A → Run B) (g : B → Run C)
    → (m >>= λ a. f a >>= g) ≡ m >>= f >>= g
bind_assoc (ok a) f g = refl
bind_assoc (fault e) f g = refl

-- The run ends without a fault, in a value that satisfies `P`.
abbrev pub Returns {ℓ} : {A : Type ℓ} → (A → Type 0) → Run A → Type 0
Returns P (ok a) = P a
Returns P (fault e) = ⊥

-- A run that returns goes on with a value that satisfies `P`.
pub Returns-bind {ℓ κ} :
    {A : Type ℓ} {B : Type κ} (P : A → Type 0) (Q : B → Type 0) (m : Run A) (f : A → Run B)
    → Returns P m
    → ((a : A) → P a → Returns Q (f a))
    → Returns Q (m >>= f)
Returns-bind P Q (ok a) f h k = k a h
Returns-bind P Q (fault e) f h k = absurd h

-- The value that a run ends in.
pub value_of_Returns {ℓ} :
    {A : Type ℓ} (P : A → Type 0) (m : Run A) → Returns P m → (a : A) × (m ≡ ok a) × P a
value_of_Returns P (ok a) h = (a, refl, h)
value_of_Returns P (fault e) h = absurd h

pub Returns-mono {ℓ} :
    {A : Type ℓ} (P Q : A → Type 0) (m : Run A) → ((a : A) → P a → Q a) → Returns P m → Returns Q m
Returns-mono P Q (ok a) h p = h a p
Returns-mono P Q (fault e) h p = p

-- Each value that the run can end in satisfies `P`; a fault is not excluded.
abbrev pub Ensures {ℓ} : {A : Type ℓ} → (A → Type 0) → Run A → Type 0
Ensures P (ok a) = P a
Ensures P (fault e) = Unit

pub Ensures-any {ℓ} : {A : Type ℓ} (m : Run A) → Ensures (λ _. Unit) m
Ensures-any (ok a) = tt
Ensures-any (fault e) = tt

pub Ensures-mono {ℓ} :
    {A : Type ℓ} (P Q : A → Type 0) (m : Run A) → ((a : A) → P a → Q a) → Ensures P m → Ensures Q m
Ensures-mono P Q (ok a) h p = h a p
Ensures-mono P Q (fault e) h p = tt

pub Ensures-bind {ℓ κ} :
    {A : Type ℓ} {B : Type κ} (P : A → Type 0) (Q : B → Type 0) (m : Run A) (f : A → Run B)
    → Ensures P m
    → ((a : A) → P a → Ensures Q (f a))
    → Ensures Q (m >>= f)
Ensures-bind P Q (ok a) f h k = k a h
Ensures-bind P Q (fault e) f h k = tt

-- Both branches of a test.
pub Ensures-branch {ℓ} :
    {A : Type ℓ} (P : A → Type 0) (b : Bool) (m n : Run A)
    → Ensures P m
    → Ensures P n
    → Ensures P (elim b [ true ↦ m | false ↦ n ])
Ensures-branch P true m n h k = h
Ensures-branch P false m n h k = k

-- The run ends without a fault.
abbrev pub Succeeds {ℓ} : {A : Type ℓ} → Run A → Type 0
Succeeds (ok a) = Unit
Succeeds (fault e) = ⊥

pub Succeeds-bind {ℓ κ} :
    {A : Type ℓ} {B : Type κ} (m : Run A) (f : A → Run B)
    → Succeeds m
    → ((a : A) → m ≡ ok a → Succeeds (f a))
    → Succeeds (m >>= f)
Succeeds-bind (ok a) f h k = k a refl
Succeeds-bind (fault e) f h k = h

pub Succeeds-of_Returns {ℓ κ} :
    {A : Type ℓ} {B : Type κ} (P : A → Type 0) (m : Run A) (f : A → Run B)
    → Returns P m
    → ((a : A) → P a → Succeeds (f a))
    → Succeeds (m >>= f)
Succeeds-of_Returns P (ok a) f h k = k a h
Succeeds-of_Returns P (fault e) f h k = h

pub Returns-of_parts {ℓ} :
    {A : Type ℓ} (P : A → Type 0) (m : Run A) → Succeeds m → Ensures P m → Returns P m
Returns-of_parts P (ok a) s e = e
Returns-of_parts P (fault e) s p = s

-- `SIEVE2_OK` and the others.
abbrev pub sieve2_ok : ℕ
sieve2_ok = 0

abbrev pub sieve2_done : ℕ
sieve2_done = 1

abbrev pub error_fail : ℕ
error_fail = 2

abbrev pub error_not_finalized : ℕ
error_not_finalized = 3

abbrev pub error_parse : ℕ
error_parse = 4

abbrev pub error_exec : ℕ
error_exec = 5

abbrev pub error_internal : ℕ
error_internal = 6

abbrev pub error_unsupported : ℕ
error_unsupported = 8

abbrev pub error_badargs : ℕ
error_badargs = 9

abbrev pub error_header : ℕ
error_header = 11

abbrev pub error_getscript : ℕ
error_getscript = 12
