-- ===== src/Grammar/Missing.antt =====
-- src/sv_parser/sieve.y: an action without tags is built exactly where the extensions that it needs are
-- required, and the first one that is not is reported by its name.
use libsieve.Prelude.{
  ℤ, List, [], ◌∷◌, ◌++◌, Option, none, some, Text, codes, ◌≡◌, refl, ap, Bool-cases, inl, inr,
  if◌then◌else◌,
}
use libsieve.Libc.{same_text}
use libsieve.Run.{ok}
use libsieve.Context.State.{Context}
use libsieve.Outside.{Outside}
use libsieve.Script.Syntax.{Command}
use libsieve.Interface.Register.{Support}
use libsieve.Grammar.Checked.{Checked, built, sieveerror}
use libsieve.Grammar.Verify.{Regcomp, verify_flags, verify_mailbox}
use libsieve.Grammar.Require.{
  Feature, fileinto, reject, envelope, vacation, notify, subaddress, imap4flags, regex, relational,
  feature, named,
}
use libsieve.Grammar.Required.{requires}
use libsieve.Grammar.Commands.{flags_command, action_of}
use libsieve.Grammar.Forms.{ActionForm}

-- The extensions in the order of their checks; those of a command with tags are not told here.
abbrev pub needs : ActionForm → Option (List Feature)
needs (ActionForm.reject s) = some (reject ∷ [])
needs (ActionForm.fileinto s) = some (fileinto ∷ [])
needs (ActionForm.fileinto_flags sl s) = some (fileinto ∷ imap4flags ∷ [])
needs (ActionForm.keep_flags sl) = some (imap4flags ∷ [])
needs (ActionForm.setflag sl) = some (imap4flags ∷ [])
needs (ActionForm.addflag sl) = some (imap4flags ∷ [])
needs (ActionForm.removeflag sl) = some (imap4flags ∷ [])
needs (ActionForm.valid_notif sl) = some (notify ∷ [])
needs ActionForm.keep = some []
needs ActionForm.stop = some []
needs ActionForm.discard = some []
needs (ActionForm.redirect s) = none
needs (ActionForm.vacation tags reason) = none
needs (ActionForm.notify tags) = none

-- The command that a form of these stands for.
abbrev pub meant : {R : Type 0} → ActionForm → Command R
meant (ActionForm.reject s) = Command.reject (some s)
meant (ActionForm.fileinto s) = Command.fileinto (some s) []
meant (ActionForm.fileinto_flags sl s) = Command.fileinto (some s) sl
meant (ActionForm.keep_flags sl) = Command.keep sl
meant (ActionForm.setflag sl) = Command.setflag sl
meant (ActionForm.addflag sl) = Command.addflag sl
meant (ActionForm.removeflag sl) = Command.removeflag sl
meant ActionForm.keep = Command.keep []
meant ActionForm.stop = Command.stop
meant ActionForm.discard = Command.discard
meant _ = Command.other

abbrev pub missing : Support → List Feature → Option Feature
missing r [] = none
missing r (f ∷ fs) = if requires r f then missing r fs else some f

-- The names of extensions in scripts.
abbrev pub name_of : Feature → Text
name_of fileinto = codes "fileinto"
name_of reject = codes "reject"
name_of envelope = codes "envelope"
name_of vacation = codes "vacation"
name_of notify = codes "notify"
name_of subaddress = codes "subaddress"
name_of imap4flags = codes "imap4flags"
name_of regex = codes "regex"
name_of relational = codes "relational"

abbrev pub outcome : {R : Type 0} → Option Feature → Command R → Checked (Command R)
outcome none command = built command
outcome (some f) command = sieveerror (name_of f ++ codes " not required")

all_flags : (sl : List Text) → verify_flags sl ≡ built tt
unfolding verify_flags
all_flags [] = refl
all_flags (s ∷ sl) = all_flags sl

-- `require` knows each extension by that name.
pub named-name_of : (f : Feature) → named (name_of f) ≡ feature f
unfolding named same_text
named-name_of fileinto = refl
named-name_of _ = refl

module _ {R W : Type 0} (o : Outside R W) (mime_token : ℤ) (regcomp : Regcomp R) (r : Support) where
  flags_command-outcome :
      (command : Command R) (sl : List Text)
      → flags_command o mime_token regcomp r command sl
        ≡ outcome (missing r (imap4flags ∷ [])) command
  unfolding flags_command
  flags_command-outcome command sl = elim (Bool-cases r.imap4flags) [
    | inl e ↦ rw (e, all_flags sl) refl
    | inr e ↦ rw e refl
  ]

  abbrev Told : Option (List Feature) → ActionForm → Context W → Type 0
  Told none form c = Unit
  Told (some fs) form c =
      action_of o mime_token regcomp r form c ≡ ok (outcome (missing r fs) (meant form), c)

  told : (form : ActionForm) (c : Context W) → Told (needs form) form c
  unfolding action_of verify_mailbox
  told (ActionForm.reject s) c = elim (Bool-cases r.reject) [
    | inl e ↦ rw e refl
    | inr e ↦ rw e refl
  ]
  told (ActionForm.fileinto s) c = elim (Bool-cases r.fileinto) [
    | inl e ↦ rw e refl
    | inr e ↦ rw e refl
  ]
  told (ActionForm.fileinto_flags sl s) c = elim (Bool-cases r.fileinto) [
    | inl e ↦ elim (Bool-cases r.imap4flags) [
      | inl e' ↦ rw (e, e', all_flags sl) refl
      | inr e' ↦ rw (e, e') refl
    ]
    | inr e ↦ rw e refl
  ]
  told (ActionForm.keep_flags sl) c = elim (Bool-cases r.imap4flags) [
    | inl e ↦ rw e refl
    | inr e ↦ rw e refl
  ]
  told (ActionForm.setflag sl) c =
      ap (λ m. ok (m, c)) (flags_command-outcome (Command.setflag sl) sl)
  told (ActionForm.addflag sl) c =
      ap (λ m. ok (m, c)) (flags_command-outcome (Command.addflag sl) sl)
  told (ActionForm.removeflag sl) c =
      ap (λ m. ok (m, c)) (flags_command-outcome (Command.removeflag sl) sl)
  told (ActionForm.valid_notif sl) c = elim (Bool-cases r.notify) [
    | inl e ↦ rw e refl
    | inr e ↦ rw e refl
  ]
  told ActionForm.keep c = refl
  told ActionForm.stop c = refl
  told ActionForm.discard c = refl
  told (ActionForm.redirect s) c = tt
  told (ActionForm.vacation tags reason) c = tt
  told (ActionForm.notify tags) c = tt

  -- An action without tags or an address is built exactly where all the extensions that it needs are
  -- required. Where one is not, the first of those is reported by the name that `require` knows it by.
  -- The context stays as it is.
  pub action_of-outcome :
      (form : ActionForm) (fs : List Feature) (c : Context W)
      → needs form ≡ some fs
      → (action_of o mime_token regcomp r form c ≡ ok (outcome (missing r fs) (meant form), c))
        × ((f : Feature) → named (name_of f) ≡ feature f)
  action_of-outcome form fs c e = (rw e at (told form c), named-name_of)
