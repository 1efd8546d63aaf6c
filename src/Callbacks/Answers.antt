-- ===== src/Callbacks/Answers.antt =====
-- src/sv_interface/callbacks2.c: the answers that the questions to the client come to.
use libsieve.Prelude.{
  ℕ, true, false, Option, none, some, List, [], ◌∷◌, ◌++◌, Text, codes, take, ◌≡◌, refl, ap, arith,
}
use libsieve.Libc.{strcasecmp, same_name}
use libsieve.Run.{ok, Returns, Ensures, Ensures-bind, sieve2_ok}
use libsieve.Message.Cache.{getheader}
use libsieve.Context.Values.{
  Value, Code, script_getscript, message_getheader, message_getallheaders, message_getsize, CurCall,
  max_values, no_values, as_string, as_stringlist, as_int, int_or_minus_one, getvalue_string,
  getvalue_stringlist, getvalue_int, callback_begin, SetCall, set_string, setvalue_string,
  setvalue_stringlist, find_value, store, store_value, apply_call, apply_calls,
}
use libsieve.Context.Brackets.{IsClosed}
use libsieve.Context.Exchange.{offered, first_fit, getvalue-apply_calls}
use libsieve.Context.State.{
  client, message2_getheader, Context, Client, handler_of, answer_header, internal_getheader,
  client_call, call_handler, callback_do,
}
use libsieve.Callbacks.Brackets.{begin_call, end_call, set_text, open_call}
use libsieve.Callbacks.Frame.{
  Keeps, Keeps-refl, Keeps-trans, set_text-Keeps, Leaves, Opens, open_call-Opens, end_call-Leaves,
}
use libsieve.Callbacks.Queries.{
  script_answer, header_answer, ask, do_getscript, do_getheader, do_getallheaders, do_getsize,
}

-- The call as `callback_begin` leaves it.
abbrev pub opened : Code → CurCall
opened code = record { begin = true; end = false; code = code; values = no_values }

callback_begin-opened :
    (code : Code) (call : CurCall)
    → IsClosed call
    → callback_begin code call ≡ (sieve2_ok, opened code)
unfolding callback_begin
callback_begin-opened code call closed = ground arith

-- What a question comes to.
abbrev pub Answers : {A : Type 0} {W : Type 0} → Context W → A → A × Context W → Type 0
Answers c a (b, d) = (b ≡ a) × Leaves c d

module _ {W : Type 0} (respond : Client W) where
  -- The pairs that count in a call: the ten first of those that the library sets and those that
  -- the client's function adds.
  abbrev pub told : ℕ → Code → List SetCall → Context W → List (Text × Value)
  told address code pre c =
      take max_values
        (offered (pre ++ (respond address (apply_calls pre (opened code)) c.user_data).0))

  pub open_call-client :
      (code : Code) (fill : Context W → Context W) (address : ℕ) (pre : List SetCall)
      (c : Context W)
      → IsClosed c.cur_call
      → handler_of code c.callbacks ≡ some (client address)
      → ((b : Context W) → fill b ≡ record b { cur_call = apply_calls pre b.cur_call })
      → open_call respond code fill c
        ≡ ok (client_call respond address (record c { cur_call = apply_calls pre (opened code) }))
  unfolding open_call begin_call callback_do call_handler
  open_call-client code fill address pre c closed h fills =
      rw (callback_begin-opened code c.cur_call closed, fills, h) refl

  module _ {A : Type 0} (code : Code) (fill : Context W → Context W) (read : CurCall → A)
      (keeps : (b : Context W) → Keeps b (fill b)) where
    pub ask-Leaves :
        (c : Context W)
        → IsClosed c.cur_call
        → Ensures (λ r. Leaves c r.1) (ask respond code fill read c)
    unfolding ask
    ask-Leaves c closed =
        Ensures-bind (Opens code c) (λ r. Leaves c r.1) (open_call respond code fill c) _
          (open_call-Opens respond code fill keeps c closed) (λ d p. end_call-Leaves p)

    ask-run :
        (c d : Context W)
        → open_call respond code fill c ≡ ok d
        → ask respond code fill read c ≡ ok (read d.cur_call, end_call code d)
    unfolding ask
    ask-run c d run = rw run refl

    ask-Answers :
        (a : A) (c d : Context W)
        → IsClosed c.cur_call
        → open_call respond code fill c ≡ ok d
        → read d.cur_call ≡ a
        → Returns (Answers c a) (ask respond code fill read c)
    ask-Answers a c d closed run answer =
        let leaves = ask-Leaves c closed in
        rw (ask-run c d run) (answer, rw (ask-run c d run) at leaves)

apply_calls-append :
    (pre calls : List SetCall) (call : CurCall)
    → apply_calls calls (apply_calls pre call) ≡ apply_calls (pre ++ calls) call
unfolding apply_calls
apply_calls-append [] calls call = refl
apply_calls-append (one ∷ pre) calls call = apply_calls-append pre calls _

module _ {W : Type 0} (respond : Client W) where
  -- The answers of a getter after the client's function.
  client_call-told :
      (address : ℕ) (code : Code) (pre : List SetCall) (name : Text) (c : Context W)
      → let call =
          (client_call respond address
            (record c { cur_call = apply_calls pre (opened code) })).cur_call in
        let pairs = told respond address code pre c in
        (getvalue_string (some name) call ≡ first_fit as_string name pairs)
        × (getvalue_stringlist (some name) call ≡ first_fit as_stringlist name pairs)
        × (getvalue_int (some name) call ≡ int_or_minus_one (first_fit as_int name pairs))
  unfolding client_call
  client_call-told address code pre name c =
      let calls = (respond address (apply_calls pre (opened code)) c.user_data).0 in
      rw (apply_calls-append pre calls (opened code))
        (getvalue-apply_calls name (pre ++ calls) (opened code) refl)

  -- With no open call, a header asked of the client is answered by the first list of strings under
  -- `body` among the pairs that count. Where there is none, or an empty one, the answer is one
  -- empty body and the status for done. The call is over then.
  pub do_getheader-client :
      (address : ℕ) (header : Text) (c : Context W)
      → IsClosed c.cur_call
      → c.callbacks.getheader ≡ some (client address)
      → let pairs =
          told respond address message_getheader
            (set_string (some (codes "header")) (some header) ∷ [])
            c in
        Returns
          (Answers c (header_answer (first_fit as_stringlist (codes "body") pairs)))
          (do_getheader respond (some header) c)
  unfolding do_getheader handler_of set_text apply_calls apply_call
  do_getheader-client address header c closed h =
      let pre = set_string (some (codes "header")) (some header) ∷ [] in
      ask-Answers respond message_getheader (set_text "header" (some header)) _
        (set_text-Keeps "header" (some header)) _ c _ closed
        (open_call-client respond message_getheader (set_text "header" (some header)) address pre c
          closed h (λ b. refl))
        (ap header_answer (client_call-told address message_getheader pre (codes "body") c).1)

  -- With no open call, the size that the client gives for a message is its first number under
  -- `size`, among the pairs that count, or -1. The call is over then.
  pub do_getsize-client :
      (address : ℕ) (c : Context W)
      → IsClosed c.cur_call
      → c.callbacks.getsize ≡ some (client address)
      → let pairs = told respond address message_getsize [] c in
        Returns
          (Answers c (sieve2_ok, int_or_minus_one (first_fit as_int (codes "size") pairs)))
          (do_getsize respond c)
  unfolding do_getsize handler_of apply_calls
  do_getsize-client address c closed h =
      ask-Answers respond message_getsize (λ b. b) _ Keeps-refl _ c _ closed
        (open_call-client respond message_getsize (λ b. b) address [] c closed h (λ b. refl))
        (ap (λ n. (sieve2_ok, n)) (client_call-told address message_getsize [] (codes "size") c).2)

  -- The headers that the client gives for a message.
  pub do_getallheaders-client :
      (address : ℕ) (c : Context W)
      → IsClosed c.cur_call
      → c.callbacks.getallheaders ≡ some (client address)
      → let pairs = told respond address message_getallheaders [] c in
        Returns
          (Answers c (sieve2_ok, first_fit as_string (codes "allheaders") pairs))
          (do_getallheaders respond c)
  unfolding do_getallheaders handler_of apply_calls
  do_getallheaders-client address c closed h =
      ask-Answers respond message_getallheaders (λ b. b) _ Keeps-refl _ c _ closed
        (open_call-client respond message_getallheaders (λ b. b) address [] c closed h (λ b. refl))
        (ap (λ s. (sieve2_ok, s))
          (client_call-told address message_getallheaders [] (codes "allheaders") c).0)

  -- With no open call, the script that the client gives is its first string under `script`, among
  -- the pairs that count, with its length, or none and the status of an error. The call is over
  -- then.
  pub do_getscript-client :
      (address : ℕ) (path name : Text) (c : Context W)
      → IsClosed c.cur_call
      → c.callbacks.getscript ≡ some (client address)
      → let pairs =
          told respond address script_getscript
            (set_string (some (codes "path")) (some path)
              ∷ set_string (some (codes "name")) (some name)
              ∷ [])
            c in
        Returns
          (Answers c (script_answer (first_fit as_string (codes "script") pairs)))
          (do_getscript respond (some path) (some name) c)
  unfolding do_getscript handler_of set_text apply_calls apply_call
  do_getscript-client address path name c closed h =
      let pre =
        set_string (some (codes "path")) (some path)
        ∷ set_string (some (codes "name")) (some name)
        ∷ [] in
      let fill = λ (b : Context W). set_text "name" (some name) (set_text "path" (some path) b) in
      ask-Answers respond script_getscript fill _
        (λ b.
          Keeps-trans (set_text-Keeps "path" (some path) b) (set_text-Keeps "name" (some name) _))
        _ c _ closed
        (open_call-client respond script_getscript fill address pre c closed h (λ b. refl))
        (ap script_answer (client_call-told address script_getscript pre (codes "script") c).0)

  -- The context after the library's own answer.
  abbrev answered_by : Option (List Text) → Text → Context W → Context W
  answered_by bodies header c =
      let asked = set_string (some (codes "header")) (some header) ∷ [] in
      let call = apply_calls asked (opened message_getheader) in
      record c { cur_call = (setvalue_stringlist (some (codes "body")) bodies call).1 }

  answered_by-body :
      (bodies : Option (List Text)) (header : Text) (c : Context W)
      → getvalue_stringlist (some (codes "body")) (answered_by bodies header c).cur_call ≡ bodies
  unfolding getvalue_stringlist find_value apply_calls apply_call setvalue_string
      setvalue_stringlist store store_value strcasecmp same_name
  answered_by-body none header c = refl
  answered_by-body (some bodies) header c = refl

  open_call-cache :
      (header : Text) (answer : ℕ × Option (List Text)) (c : Context W)
      → IsClosed c.cur_call
      → c.callbacks.getheader ≡ some message2_getheader
      → getheader c.message header ≡ ok answer
      → open_call respond message_getheader (set_text "header" (some header)) c
        ≡ ok (answered_by answer.1 header c)
  unfolding open_call begin_call callback_do handler_of call_handler internal_getheader
      answer_header set_text apply_calls apply_call getvalue_string find_value setvalue_string store
      store_value strcasecmp same_name setvalue_stringlist
  open_call-cache header (status, bodies) c closed h found =
      rw (callback_begin-opened message_getheader c.cur_call closed, h, found) refl

  -- With no open call and the library's own function in the place of `getheader`, a header is
  -- answered by the bodies that the cache gives for its name, or else by one empty body and the
  -- status for done. The call is over then.
  pub do_getheader-cache :
      (header : Text) (answer : ℕ × Option (List Text)) (c : Context W)
      → IsClosed c.cur_call
      → c.callbacks.getheader ≡ some message2_getheader
      → getheader c.message header ≡ ok answer
      → Returns (Answers c (header_answer answer.1)) (do_getheader respond (some header) c)
  unfolding do_getheader
  do_getheader-cache header (status, bodies) c closed h found =
      ask-Answers respond message_getheader (set_text "header" (some header)) _
        (set_text-Keeps "header" (some header)) _ c (answered_by bodies header c) closed
        (open_call-cache header (status, bodies) c closed h found)
        (ap header_answer (answered_by-body bodies header c))
