-- ===== src/Grammar/Matches.antt =====
-- src/sv_parser/sieve.y: what holds of each test that compares headers, addresses or the envelope, as
-- it is built, holds of each of them in the commands.
use libsieve.Prelude.{ℤ, List, Text}
use libsieve.Context.State.{Context}
use libsieve.Outside.{Outside}
use libsieve.Script.Syntax.{Match, Test, Commandlist}
use libsieve.Interface.Register.{Support}
use libsieve.Grammar.Checked.{Builds, Builds-mono, Builds-any}
use libsieve.Grammar.Tags.{Htags, new_aetags, aetags}
use libsieve.Grammar.Verify.{Regcomp}
use libsieve.Grammar.Tests.{match_of}
use libsieve.Grammar.Commands.{action_of, commands_of}
use libsieve.Grammar.Forms.{CommandForms}
use libsieve.Grammar.Trees.{InTest, InCommand, InCommands}
use libsieve.Grammar.Induction.{Gives, Gives-mono, test_of-InTest, commands_of-InCommands}
use libsieve.Grammar.Allowed.{Allowed, action-InCommand, action_of-Allowed}

-- Of each test that compares.
abbrev pub InMatches : {R : Type 0} → (Match R → Type 0) → Test R → Type 0
InMatches M test = InTest M (λ part. Unit) Unit test

abbrev pub AllMatches : {R : Type 0} → (Match R → Type 0) → Commandlist R → Type 0
AllMatches M cmds = InCommands (InMatches M) (λ command. Unit) cmds

pub commands_of-AllMatches :
    {R W : Type 0} (o : Outside R W) (mime_token : ℤ) (regcomp : Regcomp R) (required : Support)
    (M : Match R → Type 0)
    → ((h : Htags) (sl pl : List Text) → Builds M (match_of o.tokens regcomp required h sl pl))
    → (cl : CommandForms) (c : Context W)
    → Gives (AllMatches M) (commands_of o mime_token regcomp required cl c)
commands_of-AllMatches o mime_token regcomp required M of_match =
    commands_of-InCommands o mime_token regcomp required (InMatches M) (λ command. Unit)
      (test_of-InTest o.tokens regcomp required (λ h. Unit) M (λ part. Unit) Unit
        (λ tags. Builds-any _)
        (λ tags.
          Builds-mono (λ _. Unit) (λ ae. Unit × Unit) (aetags o.tokens required tags new_aetags)
            (λ ae _. (tt, tt)) (Builds-any _))
        (λ h sl pl _. of_match h sl pl) (λ _. tt))
      (λ form c.
        Gives-mono (Allowed required) (InCommand (InMatches M) (λ command. Unit))
          (action_of o mime_token regcomp required form c)
          (λ command a. action-InCommand (InMatches M) (λ command. Unit) required command a tt)
          (action_of-Allowed o mime_token regcomp required form c))
      tt
