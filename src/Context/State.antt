-- ===== src/Context/State.antt =====
-- src/sv_interface/context2.h and script2.c: the context, its callbacks and what they imply, and
-- the call of a callback.
use libsieve.Prelude.{ℕ, Bool, List, Option, none, some, Text, codes}
use libsieve.Run.{Run, ok, fault, null_pointer, ◌>>=◌, sieve2_ok, error_unsupported}
use libsieve.Tree.Stringlist.{Stringlist}
use libsieve.Message.Cache.{Message, getheader}
use libsieve.Context.Values.{
  Code, action_redirect, action_reject, action_discard, action_fileinto, action_keep, action_notify,
  action_denotify, action_vacation, errcall_runtime, errcall_parse, debug_trace, script_getscript,
  message_getheader, message_getallheaders, message_getenvelope, message_getsize, message_getbody,
  message_getsubaddress, errcall_header, errcall_address, CurCall, getvalue_string,
  setvalue_stringlist, SetCall, apply_calls,
}

-- A function pointer: one of the client's functions, by its address, or the library's own
-- `libsieve_message2_getheader`.
pub data Handler : Type 0 where
  client : ℕ → Handler
  message2_getheader : Handler

-- `struct callbacks2`, less `setflag`, `addflag` and `removeflag`, which no code reads or sets.
pub record Callbacks : Type 0 where
  pub redirect : Option Handler
  pub reject : Option Handler
  pub discard : Option Handler
  pub fileinto : Option Handler
  pub keep : Option Handler
  pub notify : Option Handler
  pub denotify : Option Handler
  pub vacation : Option Handler
  pub err_header : Option Handler
  pub err_address : Option Handler
  pub err_runtime : Option Handler
  pub err_parse : Option Handler
  pub trace : Option Handler
  pub getscript : Option Handler
  pub getheader : Option Handler
  pub getallheaders : Option Handler
  pub getenvelope : Option Handler
  pub getsize : Option Handler
  pub getbody : Option Handler
  pub getsubaddress : Option Handler

-- `struct actions2`: the actions that were taken.
pub record Actions : Type 0 where
  pub redirect : Bool
  pub reject : Bool
  pub discard : Bool
  pub fileinto : Bool
  pub keep : Bool
  pub notify : Bool
  pub denotify : Bool
  pub vacation : Bool
  pub setflag : Bool
  pub addflag : Bool
  pub removeflag : Bool

-- `struct sieve2_context`, less the scanners, the parser's results and the buffer of strings.
-- `user_data` stands for all that the client's functions read and change.
pub record Context (W : Type 0) : Type 0 where
  pub message : Message
  pub slflags : Stringlist
  pub cur_call : CurCall
  pub callbacks : Callbacks
  pub actions : Actions
  pub user_data : W

-- The client's functions: from the address, the values of the call and the client's own state,
-- the calls of the setters that the function makes, in order, and the state it leaves.
abbrev pub Client : Type 0 → Type 0
Client W = ℕ → CurCall → W → List SetCall × W

-- The cases of `libsieve_callback_do`: the pointer that is called for a code.
unfoldable pub handler_of : Code → Callbacks → Option Handler
handler_of action_redirect cb = cb.redirect
handler_of action_reject cb = cb.reject
handler_of action_discard cb = cb.discard
handler_of action_fileinto cb = cb.fileinto
handler_of action_keep cb = cb.keep
handler_of action_notify cb = cb.notify
handler_of action_denotify cb = cb.denotify
handler_of action_vacation cb = cb.vacation
handler_of errcall_runtime cb = cb.err_runtime
handler_of errcall_parse cb = cb.err_parse
handler_of errcall_header cb = cb.err_header
handler_of errcall_address cb = cb.err_address
handler_of debug_trace cb = cb.trace
handler_of script_getscript cb = cb.getscript
handler_of message_getheader cb = cb.getheader
handler_of message_getallheaders cb = cb.getallheaders
handler_of message_getsubaddress cb = cb.getsubaddress
handler_of message_getenvelope cb = cb.getenvelope
handler_of message_getsize cb = cb.getsize
handler_of message_getbody cb = cb.getbody
handler_of _ cb = none

module _ {W : Type 0} where
  unfoldable pub answer_header : Option Text → Context W → Run (Context W)
  answer_header none c = fault null_pointer
  answer_header (some header) c = do
    (res, body) ← getheader c.message header
    ok (record c { cur_call = (setvalue_stringlist (some (codes "body")) body c.cur_call).1 })

  -- `libsieve_message2_getheader`; a null header name is copied from address 0.
  unfoldable pub internal_getheader : Context W → Run (Context W)
  unfolding answer_header
  internal_getheader c = answer_header (getvalue_string (some (codes "header")) c.cur_call) c

  -- The client's function sets its values one by one.
  unfoldable pub client_call : Client W → ℕ → Context W → Context W
  client_call respond address c =
      let (calls, user) = respond address c.cur_call c.user_data in
      record c { cur_call = apply_calls calls c.cur_call; user_data = user }

  unfoldable pub call_handler : Client W → Option Handler → Context W → Run (ℕ × Context W)
  unfolding internal_getheader client_call
  call_handler respond none c = ok (error_unsupported, c)
  call_handler respond (some (client address)) c = ok (sieve2_ok, client_call respond address c)
  call_handler respond (some message2_getheader) c = do
    called ← internal_getheader c
    ok (sieve2_ok, called)

  unfoldable pub callback_do : Client W → Code → Context W → Run (ℕ × Context W)
  unfolding handler_of call_handler
  callback_do respond callback c = call_handler respond (handler_of callback c.callbacks) c
