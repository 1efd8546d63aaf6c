-- ===== src/Grammar/Checked.antt =====
-- src/sv_parser/sieve.y: what an action of the grammar comes to. It builds a value, or gives up by
-- `YYERROR`, with the message if it calls `libsieve_sieveerror` before.
use libsieve.Prelude.{Bool, true, false, Option, none, some, Text, ◌≡◌, refl}
use libsieve.Run.{Run, Fault, ok, fault, null_pointer}

pub data Checked {ℓ} (A : Type ℓ) : Type ℓ where
  built : A → Checked A
  refused : Option Text → Checked A
  faulted : Fault → Checked A

infixl 5 ◌>>=◌ ◌>>◌
abbrev pub ◌>>=◌ {ℓ κ} : {A : Type ℓ} {B : Type κ} → Checked A → (A → Checked B) → Checked B
built a >>= f = f a
refused msg >>= f = refused msg
faulted e >>= f = faulted e

abbrev pub ◌>>◌ {ℓ} : {B : Type ℓ} → Checked (Unit {0}) → Checked B → Checked B
m >> k = m >>= λ _. k

-- The report of a message, and the error.
abbrev pub sieveerror {ℓ} : {A : Type ℓ} → Text → Checked A
sieveerror msg = refused (some msg)

-- An error where a condition fails.
abbrev pub unless : Bool → Text → Checked (Unit {0})
unless true msg = built tt
unless false msg = sieveerror msg

-- A string that `libsieve_strconcat` joins is reported.
abbrev pub report_joined : Run (Option Text) → Checked (Unit {0})
report_joined (ok (some err)) = sieveerror err
report_joined (ok none) = faulted null_pointer
report_joined (fault e) = faulted e

-- What is built satisfies `P`; an error and a fault are not excluded.
abbrev pub Builds {ℓ} : {A : Type ℓ} → (A → Type 0) → Checked A → Type 0
Builds P (built a) = P a
Builds P (refused msg) = Unit
Builds P (faulted e) = Unit

pub Builds-bind {ℓ κ} :
    {A : Type ℓ} {B : Type κ} (P : A → Type 0) (Q : B → Type 0) (m : Checked A) (f : A → Checked B)
    → Builds P m
    → ((a : A) → P a → Builds Q (f a))
    → Builds Q (m >>= f)
Builds-bind P Q (built a) f h k = k a h
Builds-bind P Q (refused msg) f h k = tt
Builds-bind P Q (faulted e) f h k = tt

pub Builds-mono {ℓ} :
    {A : Type ℓ} (P Q : A → Type 0) (m : Checked A)
    → ((a : A) → P a → Q a)
    → Builds P m
    → Builds Q m
Builds-mono P Q (built a) h p = h a p
Builds-mono P Q (refused msg) h p = tt
Builds-mono P Q (faulted e) h p = tt

pub Builds-any {ℓ} : {A : Type ℓ} (m : Checked A) → Builds (λ _. Unit) m
Builds-any (built a) = tt
Builds-any (refused msg) = tt
Builds-any (faulted e) = tt

-- Behind a check that builds nothing of use.
pub Builds-after {ℓ κ} :
    {A : Type ℓ} {B : Type κ} (Q : B → Type 0) (m : Checked A) (k : Checked B)
    → Builds Q k
    → Builds Q (m >>= λ _. k)
Builds-after Q (built a) k h = h
Builds-after Q (refused msg) k h = tt
Builds-after Q (faulted e) k h = tt

-- Behind a condition that holds.
pub Builds-unless {ℓ} :
    {A : Type ℓ} (Q : A → Type 0) (b : Bool) (msg : Text) (k : Checked A)
    → (b ≡ true → Builds Q k)
    → Builds Q (unless b msg >>= λ _. k)
Builds-unless Q true msg k h = h refl
Builds-unless Q false msg k h = tt
