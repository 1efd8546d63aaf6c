-- ===== src/Tests/Executions.antt =====
-- src/sv_interface/script2.c: an execution of a small script, from its productions to the actions.
use libsieve.Prelude.{ℕ, suc, pos, true, false, none, some, [], ◌∷◌, ◌++◌, Text, codes}
use libsieve.Context.Values.{set_string, set_int, set_stringlist, getvalue_string}
use libsieve.Context.State.{Client}
use libsieve.Outside.{Outside}
use libsieve.Interface.Parsers.{Parsers}
use libsieve.Interface.Execute.{Session}
use libsieve.Grammar.Asked.{Asked}
use libsieve.Tests.Evaluator.{bodies_of, asking}
use libsieve.Tests.Grammars.{numbered, filing, sales_tree}
use libsieve.Tests.Interfaces.{no_support}

abbrev sales_text : Text
sales_text =
    codes "require \"fileinto\"; if header :contains \"Subject\" \"sale\" "
    ++ codes "{ fileinto \"Shop\"; } else { keep; }"

-- The client tells that script.
abbrev selling : Client ℕ
selling call_address call user = (
  set_int (some (codes "size")) (pos 7)
      ∷ set_string (some (codes "script")) (some sales_text)
      ∷ set_stringlist (some (codes "body"))
          (some (bodies_of (getvalue_string (some (codes "header")) call)))
      ∷ [],
  suc user,
)

abbrev shop : Outside Unit ℕ
shop = record numbered { respond = selling }

abbrev shop_parsers : Parsers Unit
shop_parsers = record {
  sieveparse = λ support require text. record {
    cmds = sales_tree;
    require = filing;
    reports = [];
    fails = false;
  };
  headerparse = λ text. record { entries = []; messages = []; fails = true };
}

abbrev shop_session : Session ℕ
shop_session = record {
  context = asking;
  support = filing;
  require = no_support;
  parse_errors = 0;
  error_count = 0;
  script = none;
}
