-- ===== src/Grammar/Induction.antt =====
-- src/sv_parser/sieve.y: what holds of the parts that the builders make holds of the whole tree.
use libsieve.Prelude.{ℤ, true, List, Text, ◌≡◌}
use libsieve.Run.{Run, ok, fault}
use libsieve.Comparator.Lookup.{Tokens}
use libsieve.Address.Parts.{AddressPart}
use libsieve.Context.State.{Context}
use libsieve.Outside.{Outside}
use libsieve.Script.Syntax.{
  Match, Test, anyof, allof, not_test, no_tests, tests, Command, if_test, Commandlist, no_commands,
  commands,
}
use libsieve.Interface.Register.{Support}
use libsieve.Grammar.Checked.{
  Checked, built, refused, faulted, Builds, Builds-bind, Builds-mono, Builds-any, Builds-after,
  Builds-unless,
}
use libsieve.Grammar.Tags.{
  Tag, Aetag, Htags, new_htags, new_aetags, htags, hftags, aetags, canon_addrtag,
}
use libsieve.Grammar.Verify.{Regcomp, verify_flags}
use libsieve.Grammar.Tests.{
  match_of, lookup_flag_comparator, build_hasflag, build_header, build_address, test_of, tests_of,
}
use libsieve.Grammar.Commands.{
  Parse, bind_checked, from_answer, lift, ◌>>=◌, action_of, command_of, commands_of, else_of,
}
use libsieve.Grammar.Forms.{
  Addrorenv, address, envelope, TestForm, anyof, allof, exists, sfalse, strue, failed, hasflag,
  header, addrorenv, not_test, size, TestForms, last_test, next_test, ActionForm, CommandForm,
  action, if_form, CommandForms, no_forms, forms, ElseForm, no_else, elsif, else_block,
}
use libsieve.Grammar.Trees.{InTest, InTests, InCommand, InCommands}

-- What a parse builds satisfies `P`.
abbrev pub Gives : {W A : Type 0} → (A → Type 0) → Run (Checked A × Context W) → Type 0
Gives P (ok (m, c)) = Builds P m
Gives P (fault e) = Unit

pub Gives-bind :
    {W A B : Type 0} (P : A → Type 0) (Q : B → Type 0) (m : Parse W A) (f : A → Parse W B)
    (c : Context W)
    → Gives P (m c)
    → ((a : A) → P a → (c' : Context W) → Gives Q (f a c'))
    → Gives Q ((m >>= f) c)
Gives-bind P Q m f c h k = bound P Q f (m c) h k
  where
    bound :
        {W A B : Type 0} (P : A → Type 0) (Q : B → Type 0) (f : A → Parse W B)
        (r : Run (Checked A × Context W))
        → Gives P r
        → ((a : A) → P a → (c' : Context W) → Gives Q (f a c'))
        → Gives Q (elim r [ ok x ↦ bind_checked f x | fault e ↦ fault e ])
    bound P Q f (ok (built a, c)) h k = k a h c
    bound P Q f (ok (refused msg, c)) h k = tt
    bound P Q f (ok (faulted e, c)) h k = tt
    bound P Q f (fault e) h k = tt

pub Gives-mono :
    {W A : Type 0} (P Q : A → Type 0) (r : Run (Checked A × Context W))
    → ((a : A) → P a → Q a)
    → Gives P r
    → Gives Q r
Gives-mono P Q (ok (m, c)) h p = Builds-mono P Q m h p
Gives-mono P Q (fault e) h p = tt

pub Gives-any : {W A : Type 0} (r : Run (Checked A × Context W)) → Gives (λ _. Unit) r
Gives-any (ok (m, c)) = Builds-any m
Gives-any (fault e) = tt

pub Gives-and :
    {W A : Type 0} (P Q : A → Type 0) (r : Run (Checked A × Context W))
    → Gives P r
    → Gives Q r
    → Gives (λ a. P a × Q a) r
Gives-and P Q (ok (built a, c)) h k = (h, k)
Gives-and P Q (ok (refused msg, c)) h k = tt
Gives-and P Q (ok (faulted e, c)) h k = tt
Gives-and P Q (fault e) h k = tt

pub Gives-answer :
    {W A B : Type 0} (P : B → Type 0) (f : A → Checked B) (r : Run (A × Context W))
    → ((a : A) → Builds P (f a))
    → Gives P (from_answer f r)
Gives-answer P f (ok (a, c)) h = h a
Gives-answer P f (fault e) h = tt

module _ {R : Type 0} (t : Tokens) (regcomp : Regcomp R) (require : Support) (H : Htags → Type 0)
    (M : Match R → Type 0) (A : AddressPart → Type 0) (F : Type 0)
    (of_htags : (tags : List Tag) → Builds H (htags t require tags new_htags))
    (of_aetags : (tags : List Aetag)
      → Builds (λ ae. A (canon_addrtag ae.addrtag) × H ae.tags) (aetags t require tags new_aetags))
    (of_match : (h : Htags) (sl pl : List Text)
      → H h
      → Builds M (match_of t regcomp require h sl pl))
    (of_flags : require.imap4flags ≡ true → F) where
  build_header-InTest :
      (tags : List Tag) (sl pl : List Text)
      → Builds (InTest M A F) (build_header t regcomp require tags sl pl)
  unfolding build_header
  build_header-InTest tags sl pl =
      Builds-bind H (InTest M A F) (htags t require tags new_htags) _ (of_htags tags) (λ h i.
        Builds-bind M (InTest M A F) (match_of t regcomp require h sl pl)
          (λ m. built (Test.header m)) (of_match h sl pl i) (λ m j. j))

  addrorenv-InTest :
      (which : Addrorenv) (part : AddressPart) (m : Match R)
      → A part
      → M m
      → InTest M A F
          (elim which [ address ↦ Test.address part m | envelope ↦ Test.envelope part m ])
  addrorenv-InTest address part m a i = (a, i)
  addrorenv-InTest envelope part m a i = (a, i)

  build_address-InTest :
      (which : Addrorenv) (tags : List Aetag) (sl pl : List Text)
      → Builds (InTest M A F) (build_address t regcomp require which tags sl pl)
  unfolding build_address
  build_address-InTest which tags sl pl =
      Builds-bind (λ ae. A (canon_addrtag ae.addrtag) × H ae.tags) (InTest M A F)
        (aetags t require tags new_aetags) _ (of_aetags tags)
        (λ ae (a, i).
          Builds-bind M (InTest M A F) (match_of t regcomp require ae.tags sl pl) _
            (of_match ae.tags sl pl i)
            (λ m j. addrorenv-InTest which (canon_addrtag ae.addrtag) m a j))

  build_hasflag-InTest :
      (h : Htags) (sl : List Text) → Builds (InTest M A F) (build_hasflag t regcomp require h sl)
  unfolding build_hasflag
  build_hasflag-InTest h sl = Builds-unless (InTest M A F) require.imap4flags _ _ (λ e.
      Builds-after (InTest M A F) (verify_flags sl) _
        (Builds-after (InTest M A F) (lookup_flag_comparator t regcomp require h) _ (of_flags e)))

  mutual
    unfolding test_of

    pub test_of-InTest : (form : TestForm) → Builds (InTest M A F) (test_of t regcomp require form)
    test_of-InTest (anyof more) =
        Builds-bind (InTests M A F) (InTest M A F) (tests_of t regcomp require more)
          (λ tl. built (Test.anyof tl)) (tests_of-InTests more) (λ tl h. h)
    test_of-InTest (allof more) =
        Builds-bind (InTests M A F) (InTest M A F) (tests_of t regcomp require more)
          (λ tl. built (Test.allof tl)) (tests_of-InTests more) (λ tl h. h)
    test_of-InTest (exists sl) = tt
    test_of-InTest sfalse = tt
    test_of-InTest strue = tt
    test_of-InTest failed = tt
    test_of-InTest (hasflag tags sl) =
        Builds-bind (λ _. Unit) (InTest M A F) (hftags t require tags new_htags) _ (Builds-any _)
          (λ h _. build_hasflag-InTest h sl)
    test_of-InTest (header tags sl pl) = build_header-InTest tags sl pl
    test_of-InTest (addrorenv which tags sl pl) = build_address-InTest which tags sl pl
    test_of-InTest (not_test form) =
        Builds-bind (InTest M A F) (InTest M A F) (test_of t regcomp require form)
          (λ test. built (Test.not_test test)) (test_of-InTest form) (λ test h. h)
    test_of-InTest (size bound n) = tt

    pub tests_of-InTests :
        (more : TestForms) → Builds (InTests M A F) (tests_of t regcomp require more)
    tests_of-InTests (last_test form) =
        Builds-bind (InTest M A F) (InTests M A F) (test_of t regcomp require form)
          (λ test. built (tests test no_tests)) (test_of-InTest form) (λ test h. (h, tt))
    tests_of-InTests (next_test form more) =
        Builds-bind (InTest M A F) (InTests M A F) (test_of t regcomp require form) _
          (test_of-InTest form)
          (λ test h.
            Builds-bind (InTests M A F) (InTests M A F) (tests_of t regcomp require more)
              (λ tl. built (tests test tl)) (tests_of-InTests more) (λ tl h'. (h, h')))

module _ {R W : Type 0} (o : Outside R W) (mime_token : ℤ) (regcomp : Regcomp R)
    (required : Support) (T : Test R → Type 0) (C : Command R → Type 0)
    (of_test : (form : TestForm) → Builds T (test_of o.tokens regcomp required form))
    (of_action : (form : ActionForm) (c : Context W)
      → Gives (InCommand T C) (action_of o mime_token regcomp required form c))
    (of_error : C Command.stop) where
  -- A test and the commands under it.
  if_form-InCommand :
      (form : TestForm) (y n : Parse W (Commandlist R)) (c : Context W)
      → ((c' : Context W) → Gives (InCommands T C) (y c'))
      → ((c' : Context W) → Gives (InCommands T C) (n c'))
      → {B : Type 0} (Q : B → Type 0) (f : Command R → B)
      → ((command : Command R) → InCommand T C command → Q (f command))
      → Gives Q (
          (lift (test_of o.tokens regcomp required form) >>= λ test.
          y >>= λ yes_. n >>= λ no_. lift (built (f (if_test test yes_ no_))))
            c)
  if_form-InCommand form y n c hy hn Q f hf =
      Gives-bind T Q (lift (test_of o.tokens regcomp required form)) _ c (of_test form)
        (λ test h c'. Gives-bind (InCommands T C) Q y _ c' (hy c') (λ yes_ h' c''.
          Gives-bind (InCommands T C) Q n _ c'' (hn c'')
            (λ no_ h'' c'''. hf (if_test test yes_ no_) (h, h', h''))))

  mutual
    unfolding command_of

    pub command_of-InCommand :
        (form : CommandForm) (c : Context W)
        → Gives (InCommand T C) (command_of o mime_token regcomp required form c)
    command_of-InCommand (action form) c = of_action form c
    command_of-InCommand (if_form form then_ else_) c =
        if_form-InCommand form (commands_of o mime_token regcomp required then_)
          (else_of o mime_token regcomp required else_) c (commands_of-InCommands then_)
          (else_of-InCommands else_) (InCommand T C) (λ command. command) (λ command h. h)
    command_of-InCommand CommandForm.failed c = of_error

    pub commands_of-InCommands :
        (cl : CommandForms) (c : Context W)
        → Gives (InCommands T C) (commands_of o mime_token regcomp required cl c)
    commands_of-InCommands no_forms c = tt
    commands_of-InCommands (forms form more) c =
        Gives-bind (InCommand T C) (InCommands T C) (command_of o mime_token regcomp required form)
          _ c (command_of-InCommand form c)
          (λ command h c'.
            Gives-bind (InCommands T C) (InCommands T C)
              (commands_of o mime_token regcomp required more) _ c' (commands_of-InCommands more c')
              (λ cl h' c''. (h, h')))

    pub else_of-InCommands :
        (else_ : ElseForm) (c : Context W)
        → Gives (InCommands T C) (else_of o mime_token regcomp required else_ c)
    else_of-InCommands no_else c = tt
    else_of-InCommands (elsif form then_ else_) c =
        if_form-InCommand form (commands_of o mime_token regcomp required then_)
          (else_of o mime_token regcomp required else_) c (commands_of-InCommands then_)
          (else_of-InCommands else_) (InCommands T C) (λ command. commands command no_commands)
          (λ command h. (h, tt))
    else_of-InCommands (else_block block) c = commands_of-InCommands block c
