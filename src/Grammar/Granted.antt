-- ===== src/Grammar/Granted.antt =====
-- src/sv_parser/sieve.y: a whole script uses no more than it requires, and requires no more than the
-- library supports.
use libsieve.Prelude.{ℤ, Bool, true, false, List, [], ◌∷◌, Text, ◌≡◌, sym, ◌∙◌, any, if◌then◌else◌}
use libsieve.Run.{Run, ok, fault, Returns}
use libsieve.Comparator.Tags.{AreNumbered}
use libsieve.Context.State.{Context}
use libsieve.Outside.{Outside}
use libsieve.Script.Syntax.{Commandlist}
use libsieve.Interface.Register.{Support}
use libsieve.Grammar.Checked.{Builds}
use libsieve.Grammar.Verify.{Regcomp}
use libsieve.Grammar.Require.{Feature, named, Required, passed, require}
use libsieve.Grammar.Required.{
  offers, requires, is_named, HaveRoom, Answers, Requires, require-Requires,
}
use libsieve.Grammar.Commands.{lift, if_passed, reqs, action_of, commands_of, start}
use libsieve.Grammar.Forms.{CommandForms}
use libsieve.Grammar.Trees.{All, InTest, InCommand, InCommands}
use libsieve.Grammar.Induction.{Gives, Gives-and, Gives-bind, Gives-mono, commands_of-InCommands}
use libsieve.Grammar.Asked.{Asked, reqs-Asked}
use libsieve.Grammar.Allowed.{Allowed, action-InCommand, action_of-Allowed}
use libsieve.Grammar.Features.{RegexAllowed, PartAllowed, test_of-allowed}

-- What is required is supported.
abbrev pub Grants : Support → Support → Type 0
Grants support r = (f : Feature) → requires r f ≡ true → offers support f ≡ true

-- A script that requires `r` at most.
abbrev pub Uses : {R W : Type 0} → Outside R W → Support → Commandlist R → Type 0
Uses o r script =
    InCommands (InTest (RegexAllowed o.tokens r) (PartAllowed r) (r.imap4flags ≡ true)) (Allowed r)
      script

granted :
    (b : Bool) (s before after : Bool)
    → after ≡ (if b then s else before)
    → (before ≡ true → s ≡ true)
    → after ≡ true
    → s ≡ true
granted true s before after e h k = sym e ∙ k
granted false s before after e h k = h (sym e ∙ k)

Requires-Grants :
    (support : Support) (sl : List Text) (r r' : Support)
    → Requires support sl r r'
    → Grants support r
    → Grants support r'
Requires-Grants support sl r r' q g f =
    granted (any (λ s. is_named f (named s)) sl) (offers support f) (requires r f) (requires r' f)
      (q f) (g f)

reqs-Grants :
    (support : Support) (requires_ : List (List Text)) (r : Support)
    → All HaveRoom requires_
    → Grants support r
    → Builds (Grants support) (reqs support requires_ r)
unfolding reqs
reqs-Grants support [] r rooms g = g
reqs-Grants support (sl ∷ more) r (room, rooms) g =
    goes_on (require support sl r) (require-Requires support sl r room)
      (λ r' g'. reqs-Grants support more r' rooms g')
  where
    goes_on :
        (result : Run (Required × Support))
        → Returns (λ (answer, r'). Answers support sl answer × Requires support sl r r') result
        → ((r' : Support) → Grants support r' → Builds (Grants support) (reqs support more r'))
        → Builds (Grants support) (if_passed result (reqs support more))
    goes_on (ok (passed, r')) (a, q) rest = rest r' (Requires-Grants support sl r r' q g)
    goes_on (ok (Required.refused msg, r')) h rest = tt
    goes_on (fault e) h rest = absurd h

module _ {R W : Type 0} (o : Outside R W) (n : AreNumbered o.tokens) (mime_token : ℤ)
    (regcomp : Regcomp R) where
  pub commands_of-Uses :
      (required : Support) (cl : CommandForms) (c : Context W)
      → Gives (Uses o required) (commands_of o mime_token regcomp required cl c)
  commands_of-Uses required cl c =
      let T =
        InTest (RegexAllowed o.tokens required) (PartAllowed required)
          (required.imap4flags ≡ true) in
      commands_of-InCommands o mime_token regcomp required T (Allowed required)
        (test_of-allowed o.tokens n regcomp required)
        (λ form c'.
          Gives-mono (Allowed required) (InCommand T (Allowed required))
            (action_of o mime_token regcomp required form c')
            (λ command a. action-InCommand T (Allowed required) required command a a)
            (action_of-Allowed o mime_token regcomp required form c'))
        tt cl c

  -- Where no name in a require command has 255 bytes, what is required before is supported, and the
  -- tokens have the numbers that the parser generator gives out, a script that the grammar builds has
  -- an action of an extension, or a list of flags, only if that extension is among those that are
  -- required behind its require commands; a test of flags, by regular expressions or of a part of a
  -- subaddress likewise. These extensions are all supported, and each of them is named by one of the
  -- require commands or was required in the context before the script.
  pub start-Uses :
      (support : Support) (requires_ : List (List Text)) (cl : CommandForms) (r : Support)
      (c : Context W)
      → All HaveRoom requires_
      → Grants support r
      → Gives
          (λ (script, required).
            Uses o required script × Grants support required × Asked r requires_ required)
          (start o mime_token regcomp support requires_ cl r c)
  unfolding start
  start-Uses support requires_ cl r c rooms g =
      let Q = λ (made : Commandlist R × Support).
        Uses o made.1 made.0 × Grants support made.1 × Asked r requires_ made.1 in
      let required_first = lift (reqs support requires_ r) in
      Gives-bind (λ required. Grants support required × Asked r requires_ required) Q required_first
        _ c
        (Gives-and (Grants support) (Asked r requires_) (required_first c)
          (reqs-Grants support requires_ r rooms g) (reqs-Asked support requires_ r rooms))
        (λ required (g', a) c'.
          Gives-bind (Uses o required) Q (commands_of o mime_token regcomp required cl) _ c'
            (commands_of-Uses required cl c') (λ script u c''. (u, g', a)))
