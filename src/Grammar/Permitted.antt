-- ===== src/Grammar/Permitted.antt =====
-- src/sv_parser/sieve.y and src/sv_interface/script.c: what a script that the grammar builds asks for
-- is of the extensions that it requires.
use libsieve.Prelude.{Bool, true, false, List, Text, ◌≡◌, Bool-cases, inl, inr}
use libsieve.Callbacks.Compatible.{Action}
use libsieve.Outside.{Outside}
use libsieve.Script.Syntax.{
  Test, Command, if_test, reject, fileinto, redirect, keep, stop, discard, notify, Commandlist,
  no_commands, commands,
}
use libsieve.Script.Meaning.{Mail, holds}
use libsieve.Script.Plan.{after, plan, plan_command}
use libsieve.Interface.Register.{Support}
use libsieve.Grammar.Trees.{All, All-append, InCommand, InCommands}
use libsieve.Grammar.Allowed.{Allowed}

-- An action of no extension, or of one that is required.
abbrev pub IsPermitted : Support → Action → Type 0
IsPermitted r (Action.reject s) = r.reject ≡ true
IsPermitted r (Action.fileinto s sl) = r.fileinto ≡ true
IsPermitted r (Action.notify id method options priority message) = r.notify ≡ true
IsPermitted r (Action.vacation hash address subject message name days mime) = r.vacation ≡ true
IsPermitted r _ = Unit

after-All :
    (P : Action → Type 0) (first later : List Action × Bool)
    → All P first.0
    → All P later.0
    → All P (after first later).0
after-All P (actions, true) later h k = h
after-All P (actions, false) (more, stops) h k = All-append P actions more h k

module _ {R W : Type 0} (o : Outside R W) (mail : Mail) (flags : List Text) (T : Test R → Type 0)
    (r : Support) where
  mutual
    unfolding plan

    plan_command-IsPermitted :
        (command : Command R)
        → InCommand T (Allowed r) command
        → All (IsPermitted r) (plan_command o mail flags command).0
    plan_command-IsPermitted (if_test test y n) (u, uy, un) =
        elim (Bool-cases (holds o mail flags test)) [
          | inl e ↦ rw e (plan-IsPermitted y uy)
          | inr e ↦ rw e (plan-IsPermitted n un)
        ]
    plan_command-IsPermitted (reject s) u = (u, tt)
    plan_command-IsPermitted (fileinto s sl) (u, _) = (u, tt)
    plan_command-IsPermitted (redirect s) u = (tt, tt)
    plan_command-IsPermitted (keep sl) u = (tt, tt)
    plan_command-IsPermitted stop u = tt
    plan_command-IsPermitted discard u = (tt, tt)
    plan_command-IsPermitted (notify id method options priority message) u = (u, tt)
    plan_command-IsPermitted _ u = tt

    pub plan-IsPermitted :
        (cmds : Commandlist R)
        → InCommands T (Allowed r) cmds
        → All (IsPermitted r) (plan o mail flags cmds).0
    plan-IsPermitted no_commands u = tt
    plan-IsPermitted (commands command cl) (u, us) =
        after-All (IsPermitted r) (plan_command o mail flags command) (plan o mail flags cl)
          (plan_command-IsPermitted command u) (plan-IsPermitted cl us)
