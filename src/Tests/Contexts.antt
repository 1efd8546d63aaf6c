-- ===== src/Tests/Contexts.antt =====
-- src/sv_interface/context2.c, callbacks2.c and tree.c on small inputs.
use libsieve.Prelude.{ℕ, suc, false, some, none, [], ◌∷◌, List, take, codes, pos, ◌≡◌, refl, arith}
use libsieve.Run.{ok, Returns}
use libsieve.Tree.Stringlist.{null, of_list, stringlist_to_chararray}
use libsieve.Tree.Chararray.{stringlist_to_chararray-of_list}
use libsieve.Message.Cache.{Message}
use libsieve.Context.Values.{
  value_first, action_keep, CurCall, no_values, max_values, as_string, as_stringlist, as_int,
  callback_begin, callback_end, getvalue_string, getvalue_stringlist, getvalue_int,
  int_or_minus_one, SetCall, set_string, set_int, apply_calls,
}
use libsieve.Context.Brackets.{Begins, Ends, callback_begin-callback_end}
use libsieve.Context.Exchange.{offered, first_fit, getvalue-apply_calls}
use libsieve.Context.State.{
  client, message2_getheader, Callbacks, Actions, Context, Client, handler_of,
}
use libsieve.Callbacks.Compatible.{fileinto, keep, reject, IsCompatible, do_actions, Follows}
use libsieve.Callbacks.Total.{HasClients, do_actions-Returns}

abbrev fresh : CurCall
fresh = record { begin = false; end = false; code = value_first; values = no_values }

abbrev calls : List SetCall
calls =
    set_string (some (codes "User")) (some (codes "tim"))
    ∷ set_string none (some (codes "lost"))
    ∷ set_int (some (codes "size")) (pos 3)
    ∷ []

abbrev no_message : Message
no_message = record { header = none; hashsize = 1; hashfull = false; hash = none ∷ [] }

-- The client keeps and files, and the library looks for headers.
abbrev pub callbacks : Callbacks
callbacks = record {
  redirect = none;
  reject = some (client 1);
  discard = none;
  fileinto = some (client 2);
  keep = some (client 3);
  notify = none;
  denotify = none;
  vacation = none;
  err_header = none;
  err_address = none;
  err_runtime = none;
  err_parse = none;
  trace = none;
  getscript = none;
  getheader = some message2_getheader;
  getallheaders = none;
  getenvelope = none;
  getsize = none;
  getbody = none;
  getsubaddress = none;
}

abbrev no_actions : Actions
no_actions = record {
  redirect = false;
  reject = false;
  discard = false;
  fileinto = false;
  keep = false;
  notify = false;
  denotify = false;
  vacation = false;
  setflag = false;
  addflag = false;
  removeflag = false;
}

-- A client that counts its calls.
abbrev count_calls : Client ℕ
count_calls address call user = ([], suc user)

abbrev pub context : Context ℕ
context = record {
  message = no_message;
  slflags = of_list (codes "Seen" ∷ []);
  cur_call = fresh;
  callbacks = callbacks;
  actions = no_actions;
  user_data = 0;
}

callbacks-HasClients : HasClients callbacks
unfolding handler_of
callbacks-HasClients code other = ground arith

no_actions-IsCompatible : IsCompatible no_actions
no_actions-IsCompatible = ground arith

callback_begin-callback_end_example :
    Begins action_keep fresh (callback_begin action_keep fresh)
    × Ends action_keep fresh (callback_end action_keep fresh)
callback_begin-callback_end_example = callback_begin-callback_end action_keep fresh

getvalue-apply_calls_example :
    let pairs = take max_values (offered calls) in
    let c = apply_calls calls fresh in
    (getvalue_string (some (codes "user")) c ≡ first_fit as_string (codes "user") pairs)
    × (getvalue_stringlist (some (codes "user")) c ≡ first_fit as_stringlist (codes "user") pairs)
    × (getvalue_int (some (codes "user")) c
        ≡ int_or_minus_one (first_fit as_int (codes "user") pairs))
getvalue-apply_calls_example = getvalue-apply_calls (codes "user") calls fresh refl

stringlist_to_chararray-of_list_example :
    (stringlist_to_chararray null ≡ ok none)
    × (stringlist_to_chararray (of_list (codes "a" ∷ codes "b" ∷ []))
        ≡ ok (some (codes "a" ∷ codes "b" ∷ [])))
stringlist_to_chararray-of_list_example =
    stringlist_to_chararray-of_list (codes "a") (codes "b" ∷ [])

do_actions-Returns_example : Returns (Follows context) (
    do_actions count_calls
      (reject (some (codes "no")) ∷ keep null ∷ fileinto (some (codes "in")) null ∷ [])
      context)
do_actions-Returns_example =
    do_actions-Returns count_calls
      (reject (some (codes "no")) ∷ keep null ∷ fileinto (some (codes "in")) null ∷ []) context refl
      no_actions-IsCompatible (tt, (tt, (tt, tt))) tt callbacks-HasClients
