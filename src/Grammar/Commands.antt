-- ===== src/Grammar/Commands.antt =====
-- src/sv_parser/sieve.y: the commands that the grammar builds, and the whole script. Only the check
-- of an address makes use of the context.
use libsieve.Prelude.{ℤ, List, [], ◌∷◌, none, some, Text, codes, if◌then◌else◌}
use libsieve.Run.{Run, ok, fault}
use libsieve.Context.State.{Context}
use libsieve.Outside.{Outside}
use libsieve.Script.Syntax.{Command, Commandlist, no_commands, commands, if_test}
use libsieve.Interface.Register.{Support}
use libsieve.Grammar.Checked.{Checked, built, refused, faulted, sieveerror, unless, ◌>>◌}
use libsieve.Grammar.Tags.{Ntags, new_ntags, ntags, canon_ntags}
use libsieve.Grammar.Verify.{Regcomp, verify_flags, verify_mailbox}
use libsieve.Grammar.Vtags.{Vtag, Tagged, tagged, new_vtags, vtags, verify_address, vacation_of}
use libsieve.Grammar.Require.{Required, passed, require}
use libsieve.Grammar.Tests.{test_of}
use libsieve.Grammar.Forms.{
  ActionForm, reject, redirect, fileinto, fileinto_flags, keep_flags, setflag, addflag, removeflag,
  valid_notif, keep, stop, discard, vacation, notify, CommandForm, action, if_form, failed,
  CommandForms, no_forms, forms, ElseForm, no_else, elsif, else_block,
}

-- A parse on a context.
abbrev pub Parse : Type 0 → Type 0 → Type 0
Parse W A = Context W → Run (Checked A × Context W)

-- The result of a step goes on to the next, with the context that it leaves.
abbrev pub bind_checked :
    {W A B : Type 0} → (A → Parse W B) → Checked A × Context W → Run (Checked B × Context W)
bind_checked f (built a, c) = f a c
bind_checked f (refused msg, c) = ok (refused msg, c)
bind_checked f (faulted e, c) = fault e

infixl 5 ◌>>=◌
abbrev pub ◌>>=◌ : {W A B : Type 0} → Parse W A → (A → Parse W B) → Parse W B
(m >>= f) c = elim (m c) [ ok x ↦ bind_checked f x | fault e ↦ fault e ]

-- A step that has no use for the context.
abbrev pub lift : {W A : Type 0} → Checked A → Parse W A
lift m c = ok (m, c)

-- What is built from an answer that comes with a context.
abbrev pub from_answer :
    {W A B : Type 0} → (A → Checked B) → Run (A × Context W) → Run (Checked B × Context W)
from_answer f (ok (a, c)) = ok (f a, c)
from_answer f (fault e) = fault e

unfoldable pub build_notify : {R : Type 0} → Ntags → Command R
build_notify n = Command.notify n.id n.method n.options n.priority n.message

module _ {R W : Type 0} (o : Outside R W) (mime_token : ℤ) (regcomp : Regcomp R) where
  module _ (required : Support) where
    -- The address of a redirect, of which a wrong one is an error with no message.
    unfoldable pub build_redirect : Text → Parse W (Command R)
    unfolding verify_address
    build_redirect s c =
        from_answer (λ valid. if valid then built (Command.redirect (some s)) else refused none)
          (verify_address o mime_token s c)

    -- The tags are read before it is known whether vacations are required.
    unfoldable pub after_vtags : Text → Tagged → Checked (Command R)
    after_vtags reason (tagged v) =
        unless required.vacation (codes "vacation not required")
        >> built (Command.vacation (vacation_of v reason))
    after_vtags reason (Tagged.refused msg) = refused msg

    unfoldable pub build_vacation_command : List Vtag → Text → Parse W (Command R)
    unfolding vtags after_vtags
    build_vacation_command tags reason c =
        from_answer (after_vtags reason) (vtags o mime_token tags new_vtags c)

    unfoldable pub flags_command : Command R → List Text → Checked (Command R)
    unfolding verify_flags
    flags_command command sl =
        unless required.imap4flags (codes "imap4flags not required")
        >> (verify_flags sl >> built command)

    unfoldable pub action_of : ActionForm → Parse W (Command R)
    unfolding build_redirect build_vacation_command flags_command verify_flags verify_mailbox ntags
        canon_ntags build_notify
    action_of (reject s) =
        lift
          (unless required.reject (codes "reject not required") >> built (Command.reject (some s)))
    action_of (keep_flags sl) =
        lift
          (unless required.imap4flags (codes "imap4flags not required") >> built (Command.keep sl))
    action_of keep = lift (built (Command.keep []))
    action_of (fileinto_flags sl s) = lift (
        unless required.fileinto (codes "fileinto not required")
        >> (unless required.imap4flags (codes "imap4flags not required")
            >> (verify_flags sl >> (verify_mailbox s >> built (Command.fileinto (some s) sl)))))
    action_of (fileinto s) = lift (
        unless required.fileinto (codes "fileinto not required")
        >> (verify_mailbox s >> built (Command.fileinto (some s) [])))
    action_of (redirect s) = build_redirect s
    action_of stop = lift (built Command.stop)
    action_of discard = lift (built Command.discard)
    action_of (vacation tags reason) = build_vacation_command tags reason
    action_of (setflag sl) = lift (flags_command (Command.setflag sl) sl)
    action_of (addflag sl) = lift (flags_command (Command.addflag sl) sl)
    action_of (removeflag sl) = lift (flags_command (Command.removeflag sl) sl)
    action_of (notify tags) = lift (ntags tags new_ntags) >>= λ n. lift (
        unless required.notify (codes "notify not required")
        >> built (build_notify (canon_ntags n)))
    action_of (valid_notif sl) =
        lift (unless required.notify (codes "notify not required") >> built Command.other)

    unfoldable mutual
      unfolding action_of test_of

      pub command_of : CommandForm → Parse W (Command R)
      command_of (action form) = action_of form
      command_of (if_form form then_ else_) =
          lift (test_of o.tokens regcomp required form) >>= λ test.
          commands_of then_ >>= λ y. else_of else_ >>= λ n. lift (built (if_test test y n))
      command_of failed = lift (built Command.stop)

      pub commands_of : CommandForms → Parse W (Commandlist R)
      commands_of no_forms = lift (built no_commands)
      commands_of (forms form more) = command_of form >>= λ command.
          commands_of more >>= λ cl. lift (built (commands command cl))

      pub else_of : ElseForm → Parse W (Commandlist R)
      else_of no_else = lift (built no_commands)
      else_of (elsif form then_ else_) = lift (test_of o.tokens regcomp required form) >>= λ test.
          commands_of then_ >>= λ y.
          else_of else_ >>= λ n. lift (built (commands (if_test test y n) no_commands))
      else_of (else_block block) = commands_of block

-- What follows a `require` that passes.
abbrev pub if_passed : {A : Type 0} → Run (Required × Support) → (Support → Checked A) → Checked A
if_passed (ok (passed, r)) f = f r
if_passed (ok (Required.refused msg, r)) f = sieveerror msg
if_passed (fault e) f = faulted e

-- `reqs`, from what is required so far.
unfoldable pub reqs : Support → List (List Text) → Support → Checked Support
unfolding require
reqs support [] r = built r
reqs support (sl ∷ more) r = if_passed (require support sl r) (reqs support more)

-- `start`: the script, with what it requires.
unfoldable pub start :
    {R W : Type 0}
    → Outside R W
    → ℤ
    → Regcomp R
    → Support
    → List (List Text)
    → CommandForms
    → Support
    → Parse W (Commandlist R × Support)
unfolding reqs commands_of
start o mime_token regcomp support requires cl r = lift (reqs support requires r) >>= λ required.
    commands_of o mime_token regcomp required cl >>= λ script. lift (built (script, required))
