-- ===== src/Grammar/Allowed.antt =====
-- src/sv_parser/sieve.y: an action is built only where its extension is required.
use libsieve.Prelude.{ℤ, Bool, true, false, List, [], ◌∷◌, none, some, Text, ◌≡◌, if◌then◌else◌}
use libsieve.Context.State.{Context}
use libsieve.Outside.{Outside}
use libsieve.Script.Syntax.{
  Test, Command, if_test, reject, fileinto, redirect, keep, stop, discard, vacation, setflag,
  addflag, removeflag, notify, other,
}
use libsieve.Interface.Register.{Support}
use libsieve.Grammar.Checked.{built, refused, Builds, Builds-any, Builds-after, Builds-unless}
use libsieve.Grammar.Tags.{new_ntags, ntags}
use libsieve.Grammar.Verify.{Regcomp, verify_flags, verify_mailbox}
use libsieve.Grammar.Vtags.{Tagged, tagged, new_vtags, vtags, verify_address}
use libsieve.Grammar.Commands.{
  lift, build_redirect, after_vtags, build_vacation_command, flags_command, action_of,
}
use libsieve.Grammar.Forms.{ActionForm}
use libsieve.Grammar.Trees.{InCommand}
use libsieve.Grammar.Induction.{Gives, Gives-bind, Gives-answer}

abbrev pub FlagsAllowed : Support → List Text → Type 0
FlagsAllowed r [] = Unit
FlagsAllowed r (s ∷ sl) = r.imap4flags ≡ true

-- An action whose extension is required, or that needs none.
abbrev pub Allowed : {R : Type 0} → Support → Command R → Type 0
Allowed r (if_test test y n) = ⊥
Allowed r (reject s) = r.reject ≡ true
Allowed r (fileinto s sl) = (r.fileinto ≡ true) × FlagsAllowed r sl
Allowed r (redirect s) = Unit
Allowed r (keep sl) = FlagsAllowed r sl
Allowed r stop = Unit
Allowed r discard = Unit
Allowed r (vacation v) = r.vacation ≡ true
Allowed r (setflag sl) = r.imap4flags ≡ true
Allowed r (addflag sl) = r.imap4flags ≡ true
Allowed r (removeflag sl) = r.imap4flags ≡ true
Allowed r (notify id method options priority message) = r.notify ≡ true
Allowed r other = r.notify ≡ true

flags-FlagsAllowed : (r : Support) (sl : List Text) → r.imap4flags ≡ true → FlagsAllowed r sl
flags-FlagsAllowed r [] e = tt
flags-FlagsAllowed r (s ∷ sl) e = e

-- An action is no `if`.
pub action-InCommand :
    {R : Type 0} (T : Test R → Type 0) (C : Command R → Type 0) (r : Support) (command : Command R)
    → Allowed r command
    → C command
    → InCommand T C command
action-InCommand T C r (if_test test y n) a h = absurd a
action-InCommand T C r _ a h = h

module _ {R W : Type 0} (o : Outside R W) (mime_token : ℤ) (regcomp : Regcomp R)
    (required : Support) where
  build_redirect-Allowed :
      (s : Text) (c : Context W)
      → Gives (Allowed required) (build_redirect o mime_token regcomp required s c)
  unfolding build_redirect
  build_redirect-Allowed s c =
      Gives-answer (Allowed required) _ (verify_address o mime_token s c) valid_or_not
    where
      valid_or_not :
          (valid : Bool)
          → Builds
              (Allowed {R = R} required)
              (if valid then built (redirect (some s)) else refused none)
      valid_or_not true = tt
      valid_or_not false = tt

  after_vtags-Allowed :
      (reason : Text) (result : Tagged)
      → Builds (Allowed required) (after_vtags o mime_token regcomp required reason result)
  unfolding after_vtags
  after_vtags-Allowed reason (tagged v) =
      Builds-unless (Allowed required) required.vacation _ _ (λ e. e)
  after_vtags-Allowed reason (Tagged.refused msg) = tt

  flags_command-Allowed :
      (command : Command R) (sl : List Text)
      → (required.imap4flags ≡ true → Allowed required command)
      → Builds (Allowed required) (flags_command o mime_token regcomp required command sl)
  unfolding flags_command
  flags_command-Allowed command sl h =
      Builds-unless (Allowed required) required.imap4flags _ _
        (λ e. Builds-after (Allowed required) (verify_flags sl) (built command) (h e))

  pub action_of-Allowed :
      (form : ActionForm) (c : Context W)
      → Gives (Allowed required) (action_of o mime_token regcomp required form c)
  unfolding action_of build_vacation_command verify_mailbox
  action_of-Allowed (ActionForm.reject s) c =
      Builds-unless (Allowed required) required.reject _ _ (λ e. e)
  action_of-Allowed (ActionForm.keep_flags sl) c =
      Builds-unless (Allowed required) required.imap4flags _ _ (flags-FlagsAllowed required sl)
  action_of-Allowed ActionForm.keep c = tt
  action_of-Allowed (ActionForm.fileinto_flags sl s) c =
      Builds-unless (Allowed required) required.fileinto _ _ (λ e.
        Builds-unless (Allowed required) required.imap4flags _ _ (λ e'.
          Builds-after (Allowed required) (verify_flags sl) _
            (e, flags-FlagsAllowed required sl e')))
  action_of-Allowed (ActionForm.fileinto s) c =
      Builds-unless (Allowed required) required.fileinto _ _ (λ e. (e, tt))
  action_of-Allowed (ActionForm.redirect s) c = build_redirect-Allowed s c
  action_of-Allowed ActionForm.stop c = tt
  action_of-Allowed ActionForm.discard c = tt
  action_of-Allowed (ActionForm.vacation tags reason) c =
      Gives-answer (Allowed required) (after_vtags o mime_token regcomp required reason)
        (vtags o mime_token tags new_vtags c) (after_vtags-Allowed reason)
  action_of-Allowed (ActionForm.setflag sl) c = flags_command-Allowed (setflag sl) sl (λ e. e)
  action_of-Allowed (ActionForm.addflag sl) c = flags_command-Allowed (addflag sl) sl (λ e. e)
  action_of-Allowed (ActionForm.removeflag sl) c = flags_command-Allowed (removeflag sl) sl (λ e. e)
  action_of-Allowed (ActionForm.notify tags) c =
      Gives-bind (λ _. Unit) (Allowed required) (lift (ntags tags new_ntags)) _ c (Builds-any _)
        (λ n _ c'. Builds-unless (Allowed required) required.notify _ _ (λ e. e))
  action_of-Allowed (ActionForm.valid_notif sl) c =
      Builds-unless (Allowed required) required.notify _ _ (λ e. e)
