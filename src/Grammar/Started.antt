-- ===== src/Grammar/Started.antt =====
-- src/sv_parser/sieve.y, `start`: the commands behind those that require.
use libsieve.Prelude.{ℤ, List, Text}
use libsieve.Context.State.{Context}
use libsieve.Outside.{Outside}
use libsieve.Script.Syntax.{Commandlist}
use libsieve.Interface.Register.{Support}
use libsieve.Grammar.Checked.{Builds, Builds-any}
use libsieve.Grammar.Verify.{Regcomp}
use libsieve.Grammar.Commands.{lift, reqs, commands_of, start}
use libsieve.Grammar.Forms.{CommandForms}
use libsieve.Grammar.Induction.{Gives, Gives-any, Gives-bind}

-- What holds of the commands that are built under any requirements holds of those of the script.
pub start-Gives :
    {R W : Type 0} (o : Outside R W) (mime_token : ℤ) (regcomp : Regcomp R) (support : Support)
    (requires_ : List (List Text)) (cl : CommandForms) (r : Support) (c : Context W)
    (P : Support → Commandlist R → Type 0)
    → ((required : Support) (c' : Context W)
        → Gives (P required) (commands_of o mime_token regcomp required cl c'))
    → Gives
        (λ (cmds, required). P required cmds)
        (start o mime_token regcomp support requires_ cl r c)
unfolding start
start-Gives o mime_token regcomp support requires_ cl r c P h =
    let Q = λ (made : Commandlist _ × Support). P made.1 made.0 in
    Gives-bind (λ _. Unit) Q (lift (reqs support requires_ r)) _ c (Builds-any _)
      (λ required _ c'.
        Gives-bind (P required) Q (commands_of o mime_token regcomp required cl) _ c'
          (h required c') (λ cmds i c''. i))

-- What the require commands leave is what the script requires.
pub start-requires :
    {R W : Type 0} (o : Outside R W) (mime_token : ℤ) (regcomp : Regcomp R) (support : Support)
    (requires_ : List (List Text)) (cl : CommandForms) (r : Support) (c : Context W)
    (P : Support → Type 0)
    → Builds P (reqs support requires_ r)
    → Gives (λ (cmds, required). P required) (start o mime_token regcomp support requires_ cl r c)
unfolding start
start-requires o mime_token regcomp support requires_ cl r c P h =
    let Q = λ (made : Commandlist _ × Support). P made.1 in
    Gives-bind P Q (lift (reqs support requires_ r)) _ c h (λ required p c'.
      Gives-bind (λ _. Unit) Q (commands_of o mime_token regcomp required cl) _ c' (Gives-any _)
        (λ cmds _ c''. p))
