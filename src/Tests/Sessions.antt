-- ===== src/Tests/Sessions.antt =====
-- src/sv_interface/script2.c, validation and execution on small inputs.
use libsieve.Prelude.{
  ℕ, suc, pos, List, true, false, none, some, [], ◌∷◌, Text, codes, ◌≡◌, refl, arith,
}
use libsieve.Run.{fault, null_pointer, Returns}
use libsieve.Context.Values.{set_string}
use libsieve.Context.State.{client, Context, Client}
use libsieve.Outside.{Outside}
use libsieve.Interface.Parsers.{ScriptParse, Parsers, Report, of_script, of_address, script_errors}
use libsieve.Interface.Reported.{Delivered, script_errors-Delivered}
use libsieve.Interface.Register.{Support}
use libsieve.Interface.Execute.{Session, prepare_headers}
use libsieve.Interface.Headers.{prepare_headers-crashes}
use libsieve.Grammar.Require.{require}
use libsieve.Grammar.Required.{Answers, Requires, require-Requires}
use libsieve.Tests.Contexts.{callbacks, context}
use libsieve.Tests.Messages.{message}
use libsieve.Tests.Interfaces.{no_support}
use libsieve.Tests.Evaluator.{outside, asking, script}

-- An empty script is refused, and any other is the one of the evaluator's tests.
abbrev parse : Text → ScriptParse Unit
parse [] = record { cmds = script; require = no_support; reports = []; fails = true }
parse (c ∷ text) = record { cmds = script; require = no_support; reports = []; fails = false }

abbrev parsers : Parsers Unit
parsers = record {
  sieveparse = λ support require text. parse text;
  headerparse =
      λ text. record { entries = (codes "To", codes "tim") ∷ []; messages = []; fails = false };
}

abbrev session : Session ℕ
session = record {
  context = asking;
  support = no_support;
  require = no_support;
  parse_errors = 0;
  error_count = 0;
  script = none;
}

-- The client has the headers as one text.
abbrev giving : Client ℕ
giving call_address call user =
    (set_string (some (codes "allheaders")) (some (codes "To: tim")) ∷ [], suc user)

abbrev whole_headers : Context ℕ
whole_headers = record context {
  message = message;
  callbacks = record callbacks { getheader = none; getallheaders = some (client 7) };
}

abbrev with_giving : Outside Unit ℕ
with_giving = record outside { respond = giving }

-- A client that answers nothing.
abbrev without_answer : Outside Unit ℕ
without_answer = record outside { respond = λ call_address call user. ([], user) }

prepare_headers-crashes_example :
    prepare_headers without_answer parsers whole_headers.callbacks whole_headers
    ≡ fault null_pointer
prepare_headers-crashes_example =
    prepare_headers-crashes without_answer parsers 7 whole_headers refl refl refl refl

-- The client files messages.
abbrev support : Support
support = record no_support { fileinto = true }

abbrev needed : List Text
needed = codes "fileinto" ∷ codes "regex" ∷ codes "reject" ∷ []

require-Requires_example :
    Returns
      (λ (result, r'). Answers support needed result × Requires support needed no_support r')
      (require support needed no_support)
require-Requires_example =
    require-Requires support needed no_support (omega arith, (omega arith, (omega arith, tt)))

-- A client with functions for both kinds of errors.
abbrev listening : Context ℕ
listening = record asking {
  callbacks = record (asking.callbacks) {
    err_parse = some (client 8);
    err_address = some (client 9);
  };
}

abbrev reports : List Report
reports = of_script (pos 3) (codes "syntax error") ∷ of_address (codes "bad address") ∷ []

script_errors-Delivered_example :
    Returns
      (Delivered outside.respond 8 9 reports 1 listening)
      (script_errors outside.respond parsers reports 1 listening)
script_errors-Delivered_example =
    script_errors-Delivered outside.respond 8 9 parsers reports 1 listening refl refl refl
