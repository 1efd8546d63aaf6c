-- ===== src/Interface/Statuses.antt =====
-- src/sv_interface/script2.c: the errors that validation and execution report.
use libsieve.Prelude.{ℕ, ◌≡◌, ◌⊎◌, arith}
use libsieve.Run.{sieve2_ok, error_not_finalized, error_header, error_getscript}
use libsieve.Context.State.{Callbacks, Context}
use libsieve.Outside.{Outside}
use libsieve.Interface.Parsers.{Parsers}
use libsieve.Interface.Execute.{Session, eval_status}

-- No status of an evaluation is negative.
pub eval_status-ok : (res : ℕ) → eval_status res ≡ sieve2_ok
unfolding eval_status
eval_status-ok res = ground arith

module _ {R W : Type 0} (o : Outside R W) (p : Parsers R) where
  -- No error of the script has been counted.
  abbrev Uncounted : Session W → Type 0
  Uncounted s = s.error_count ≡ 0

  -- What preparing the headers can come to.
  abbrev Prepared : ℕ → Type 0
  Prepared status = (status ≡ sieve2_ok) ⊎ (status ≡ error_not_finalized) ⊎ (status ≡ error_header)

  abbrev Executed : ℕ × Session W → Type 0
  Executed (status, s) = Prepared status ⊎ (status ≡ error_getscript)

  abbrev Validated : ℕ × Session W → Type 0
  Validated (status, s) = (status ≡ sieve2_ok) ⊎ (status ≡ error_getscript)
