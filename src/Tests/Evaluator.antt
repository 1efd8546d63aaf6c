-- ===== src/Tests/Evaluator.antt =====
-- src/sv_interface/script.c, the evaluator on a small script.
use libsieve.Prelude.{
  ℕ, suc, true, false, Option, none, some, [], ◌∷◌, List, Text, codes, pos, ◌≡◌, ◌⊎◌, refl, arith,
  if◌then◌else◌,
}
use libsieve.Libc.{same_name, strcasecmp}
use libsieve.Run.{ok, fault, out_of_bounds, Ensures}
use libsieve.Comparator.Octet.{octet_is}
use libsieve.Comparator.Lookup.{Tokens, relational_count, literal, is_octet, run_comparator}
use libsieve.Context.Values.{
  find_value, getvalue_string, set_string, set_stringlist, set_int, apply_calls, apply_call,
  setvalue_string, store, store_value,
}
use libsieve.Context.State.{client, Context, Client, handler_of}
use libsieve.Callbacks.Compatible.{IsCompatible, Follows}
use libsieve.Callbacks.Total.{HasClients}
use libsieve.Callbacks.Answers.{Answers}
use libsieve.Callbacks.Frame.{Leaves}
use libsieve.Outside.{Address, Outside}
use libsieve.Address.Parts.{all}
use libsieve.Script.Syntax.{
  Match, over, Test, allof, exists, header, address, hasflag, not_test, size, tests, no_tests,
  Vacation, if_test, fileinto, keep, stop, reject, vacation, Commandlist, commands, no_commands,
}
use libsieve.Script.Evaltest.{size_test, evaltest}
use libsieve.Script.Eval.{eval}
use libsieve.Script.Meaning.{Mail, holds, IsPlain}
use libsieve.Script.Steady.{Tells}
use libsieve.Script.Plan.{IsSimple}
use libsieve.Script.Planned.{Ready}
use libsieve.Script.Effects.{evaltest-Leaves}
use libsieve.Script.Compatible.{eval-Follows}
use libsieve.Script.Vacation.{handle_of}
use libsieve.Script.Handle.{IsDigit, colon_handle, handle_of-fits}
use libsieve.Grammar.Vtags.{Vtags, new_vtags, Vtag, days, mime, add_vtag, vtags, vacation_of}
use libsieve.Grammar.Handles.{HasMime, vacation_of-handle}
use libsieve.Tests.Contexts.{callbacks, context}

-- A message with a subject.
abbrev pub bodies_of : Option Text → List Text
bodies_of none = []
bodies_of (some name) = if same_name name (codes "subject") then codes "Hello" ∷ [] else []

-- The client tells the script, the size and the headers of the message.
abbrev pub telling : Client ℕ
telling call_address call user = (
  set_int (some (codes "size")) (pos 7)
      ∷ set_string (some (codes "script")) (some (codes "keep;"))
      ∷ set_stringlist (some (codes "body"))
          (some (bodies_of (getvalue_string (some (codes "header")) call)))
      ∷ [],
  suc user,
)

abbrev nobody : Address
nobody = record { name = none; route = none; domain = none; mailbox = none }

abbrev tokens : Tokens
tokens = record { is = 0; contains = 1; matches = 2; regex = 3; count = 4; value = 5 }

abbrev pub outside : Outside Unit ℕ
outside = record {
  respond = telling;
  tokens = tokens;
  regexec = λ r text. false;
  addrparse = λ text. record {
    top = nobody;
    others = record nobody { mailbox = some text } ∷ [];
    fails = false;
    messages = [];
  };
}

abbrev pub mail : Mail
mail = record { bodies = λ name. some (bodies_of (some name)); size = pos 7 }

pub telling-Tells : Tells telling 6 4 mail
unfolding getvalue_string find_value apply_calls apply_call setvalue_string store store_value
    same_name strcasecmp
telling-Tells = record { bodies = λ name c. refl; size = λ c. refl }

abbrev subject : Match Unit
subject = record {
  comptag = 0;
  comp = is_octet;
  sl = codes "Subject" ∷ [];
  pl = literal (codes "Hello") ∷ [];
}

abbrev test : Test Unit
test = allof (
    tests (header subject) (
      tests (not_test (exists (codes "X-Spam" ∷ [])))
        (tests (size over (pos 5)) (tests (hasflag (codes "seen" ∷ [])) no_tests))))

test-IsPlain : IsPlain outside test
unfolding run_comparator
test-IsPlain = (((λ v. (_, refl)), tt), (tt, (tt, (tt, tt))))

abbrev pub asking : Context ℕ
asking = record context {
  callbacks = record callbacks {
    getsize = some (client 4);
    getscript = some (client 5);
    getheader = some (client 6);
  };
}

asking-HasClients : HasClients asking.callbacks
unfolding handler_of
asking-HasClients code other = ground arith

pub asking-Ready : Ready 6 4 (codes "Seen" ∷ []) asking
asking-Ready = record {
  serves = record { closed = refl; getheader = refl; getsize = refl; slflags = refl };
  clients = asking-HasClients;
}

-- The test holds of the message.
holds-test : holds outside mail (codes "Seen" ∷ []) test ≡ true
unfolding holds same_name strcasecmp run_comparator relational_count octet_is size_test
holds-test = refl

abbrev pub script : Commandlist Unit
script =
    commands (if_test test (commands (fileinto (some (codes "in")) []) no_commands) no_commands)
      (commands (keep []) (commands stop (commands (reject (some (codes "no"))) no_commands)))

pub script-IsSimple : IsSimple outside script
script-IsSimple = ((test-IsPlain, (tt, tt), tt), (tt, (tt, (tt, tt))))

abbrev sender : Test Unit
sender = address all subject

evaltest-Leaves_example : Ensures (λ (b, d). Leaves asking d) (evaltest outside sender asking)
evaltest-Leaves_example = evaltest-Leaves outside sender asking refl

abbrev away : Vacation
away = record {
  subject = some (codes "away");
  days = pos 7;
  addresses = codes "me@here" ∷ [];
  message = codes "I am away";
  mime = pos 0;
  from = none;
  handle = none;
}

abbrev answering : Commandlist Unit
answering = commands (vacation away) (commands (reject (some (codes "no"))) no_commands)

asking-IsCompatible : IsCompatible asking.actions
asking-IsCompatible = ground arith

eval-Follows_example : Ensures (λ e. Follows asking e.context) (eval outside answering none asking)
eval-Follows_example = eval-Follows outside answering none asking refl asking-IsCompatible

handle_of-fits_example :
    (IsDigit away.mime × (handle_of away ≡ ok (colon_handle away)))
    ⊎ ((¬ IsDigit away.mime) × (handle_of away ≡ fault out_of_bounds))
handle_of-fits_example = handle_of-fits away refl

-- The tags `:days 3 :mime`, with a token number as the parser generator gives them.
abbrev tags : List Vtag
tags = days (pos 3) ∷ mime ∷ []

abbrev tagged_away : Vtags
tagged_away = record new_vtags { days = pos 3; mime = pos 300 }

vacation_of-handle_example :
    ((¬ HasMime tags)
      × (handle_of (vacation_of tagged_away (codes "away"))
          ≡ ok (colon_handle (vacation_of tagged_away (codes "away")))))
    ⊎ (HasMime tags × (handle_of (vacation_of tagged_away (codes "away")) ≡ fault out_of_bounds))
unfolding vtags add_vtag new_vtags
vacation_of-handle_example =
    vacation_of-handle outside 300 tags (codes "away") tagged_away asking asking (omega arith)
      (λ h. h) refl
