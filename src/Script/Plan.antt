-- ===== src/Script/Plan.antt =====
-- What a script means for a message: the actions that it asks for, in order. Of
-- src/sv_interface/script.c, less the commands for flags and vacations.
use libsieve.Prelude.{
  ℕ, Bool, true, false, List, [], ◌∷◌, ◌++◌, Text, ◌≡◌, refl, sym, Bool-cases, inl, inr,
  if◌then◌else◌,
}
use libsieve.Run.{sieve2_ok, sieve2_done, error_exec}
use libsieve.Tree.Stringlist.{of_list}
use libsieve.Context.State.{Actions}
use libsieve.Callbacks.Compatible.{Action, conflicts, taken}
use libsieve.Callbacks.Compatible
use libsieve.Outside.{Outside}
use libsieve.Script.Syntax.{
  Command, if_test, reject, fileinto, redirect, keep, stop, discard, vacation, setflag, addflag,
  removeflag, notify, Commandlist, no_commands, commands,
}
use libsieve.Script.Meaning.{Mail, holds, IsPlain}

-- The actions, and whether the script is told to stop behind them.
abbrev pub after : List Action × Bool → List Action × Bool → List Action × Bool
after (actions, true) later = (actions, true)
after (actions, false) (more, stops) = (actions ++ more, stops)

abbrev pub only : Action → List Action × Bool
only action = (action ∷ [], false)

module _ {R W : Type 0} (o : Outside R W) (mail : Mail) (flags : List Text) where
  unfoldable mutual
    pub plan : Commandlist R → List Action × Bool
    plan no_commands = ([], false)
    plan (commands cmd next) = after (plan_command cmd) (plan next)

    pub plan_command : Command R → List Action × Bool
    plan_command (if_test t do_then do_else) =
        if holds o mail flags t then plan do_then else plan do_else
    plan_command (reject str) = only (Compatible.reject str)
    plan_command (fileinto mailbox slflags) = only (Compatible.fileinto mailbox (of_list slflags))
    plan_command (redirect str) = only (Compatible.redirect str)
    plan_command (keep slflags) = only (Compatible.keep (of_list slflags))
    plan_command stop = ([], true)
    plan_command discard = only Compatible.discard
    plan_command (notify id method options priority message) =
        only (Compatible.notify id method (of_list options) priority message)
    plan_command _ = ([], false)

-- The actions are taken until one is in conflict with an earlier one: whether that happens, and the
-- record of those taken.
unfoldable pub perform : List Action → Actions → Bool × Actions
perform [] a = (false, a)
perform (action ∷ actions) a =
    if conflicts action a then (true, a) else perform actions (taken action a)

-- The status at the end.
abbrev pub ending : Bool → Bool → ℕ
ending true stops = error_exec
ending false true = sieve2_done
ending false false = sieve2_ok

module _ {R W : Type 0} (o : Outside R W) where
  -- Of a script without commands for flags and vacations, with tests that have a meaning.
  abbrev mutual
    pub IsSimple : Commandlist R → Type 0
    IsSimple no_commands = Unit
    IsSimple (commands cmd next) = IsSimpleCommand cmd × IsSimple next

    pub IsSimpleCommand : Command R → Type 0
    IsSimpleCommand (if_test t do_then do_else) = IsPlain o t × IsSimple do_then × IsSimple do_else
    IsSimpleCommand (vacation v) = ⊥
    IsSimpleCommand (setflag sl) = ⊥
    IsSimpleCommand (addflag sl) = ⊥
    IsSimpleCommand (removeflag sl) = ⊥
    IsSimpleCommand _ = Unit

true_ne_false : ¬ (true ≡ false)
true_ne_false e = cc

pub perform-refused :
    (actions more : List Action) (a : Actions)
    → (perform actions a).0 ≡ true
    → perform (actions ++ more) a ≡ perform actions a
unfolding perform
perform-refused [] more a h = absurd (true_ne_false (sym h))
perform-refused (action ∷ actions) more a h = elim (Bool-cases (conflicts action a)) [
  | inl hit ↦ rw hit refl
  | inr miss ↦ rw miss (perform-refused actions more (taken action a) (rw miss at h))
]

pub perform-done :
    (actions more : List Action) (a : Actions)
    → (perform actions a).0 ≡ false
    → perform (actions ++ more) a ≡ perform more (perform actions a).1
unfolding perform
perform-done [] more a h = refl
perform-done (action ∷ actions) more a h = elim (Bool-cases (conflicts action a)) [
  | inl hit ↦ absurd (true_ne_false (rw hit at h))
  | inr miss ↦ rw miss (perform-done actions more (taken action a) (rw miss at h))
]
