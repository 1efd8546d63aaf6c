-- ===== src/Callbacks/Frame.antt =====
-- src/sv_interface/callbacks2.c: what a call of a callback leaves alone. The client reaches the
-- context only through the getters and setters.
use libsieve.Prelude.{Option, none, some, List, [], ◌∷◌, Text, ℤ, ◌≡◌, refl, ◌∙◌, inl, inr, arith}
use Prim.Native.String.{String}
use libsieve.Run.{Ensures, Ensures-any, Ensures-bind}
use libsieve.Message.Cache.{getheader}
use libsieve.Context.Values.{
  Value, Code, CurCall, store, setvalue_string, setvalue_stringlist, setvalue_int, SetCall,
  set_string, set_stringlist, set_int, apply_call, apply_calls,
}
use libsieve.Context.Brackets.{IsClosed, IsOpen, callback_begin-Begins, callback_end-Ends}
use libsieve.Context.State.{
  Handler, client, message2_getheader, Context, Client, answer_header, internal_getheader,
  client_call, call_handler, callback_do,
}
use libsieve.Callbacks.Brackets.{
  begin_call, end_call, set_text, set_texts, set_number, open_call, whole_call,
}

-- The same brackets round the values.
pub record SameCall (c d : CurCall) : Type 0 where
  pub begin : d.begin ≡ c.begin
  pub end : d.end ≡ c.end
  pub code : d.code ≡ c.code

SameCall-trans : {c d e : CurCall} → SameCall c d → SameCall d e → SameCall c e
SameCall-trans p q = record {
  begin = q.begin ∙ p.begin;
  end = q.end ∙ p.end;
  code = q.code ∙ p.code;
}

store-SameCall : (name : Text) (value : Value) (c : CurCall) → SameCall c (store name value c).1
unfolding store
store-SameCall name value c = ground arith

setvalue_string-SameCall :
    (name value : Option Text) (c : CurCall) → SameCall c (setvalue_string name value c).1
unfolding setvalue_string
setvalue_string-SameCall name value c = ground arith

setvalue_stringlist-SameCall :
    (name : Option Text) (value : Option (List Text)) (c : CurCall)
    → SameCall c (setvalue_stringlist name value c).1
unfolding setvalue_stringlist
setvalue_stringlist-SameCall name value c = ground arith

setvalue_int-SameCall :
    (name : Option Text) (value : ℤ) (c : CurCall) → SameCall c (setvalue_int name value c).1
unfolding setvalue_int
setvalue_int-SameCall name value c = ground arith

apply_calls-SameCall : (calls : List SetCall) (c : CurCall) → SameCall c (apply_calls calls c)
unfolding apply_calls apply_call
apply_calls-SameCall [] c = record { begin = refl; end = refl; code = refl }
apply_calls-SameCall (set_string name value ∷ calls) c =
    SameCall-trans (setvalue_string-SameCall name value c) (apply_calls-SameCall calls _)
apply_calls-SameCall (set_stringlist name value ∷ calls) c =
    SameCall-trans (setvalue_stringlist-SameCall name value c) (apply_calls-SameCall calls _)
apply_calls-SameCall (set_int name value ∷ calls) c =
    SameCall-trans (setvalue_int-SameCall name value c) (apply_calls-SameCall calls _)

-- Only the values of the current call and the client's own state may differ.
pub record Keeps {W : Type 0} (c d : Context W) : Type 0 where
  pub message : d.message ≡ c.message
  pub slflags : d.slflags ≡ c.slflags
  pub callbacks : d.callbacks ≡ c.callbacks
  pub actions : d.actions ≡ c.actions
  pub call : SameCall c.cur_call d.cur_call

module _ {W : Type 0} where
  pub Keeps-refl : (c : Context W) → Keeps c c
  Keeps-refl c = record {
    message = refl;
    slflags = refl;
    callbacks = refl;
    actions = refl;
    call = record { begin = refl; end = refl; code = refl };
  }

  pub Keeps-trans : {c d e : Context W} → Keeps c d → Keeps d e → Keeps c e
  Keeps-trans p q = record {
    message = q.message ∙ p.message;
    slflags = q.slflags ∙ p.slflags;
    callbacks = q.callbacks ∙ p.callbacks;
    actions = q.actions ∙ p.actions;
    call = SameCall-trans p.call q.call;
  }

  with_call :
      (c : Context W) (call : CurCall)
      → SameCall c.cur_call call
      → Keeps c (record c { cur_call = call })
  with_call c call same = record {
    message = refl;
    slflags = refl;
    callbacks = refl;
    actions = refl;
    call = same;
  }

  pub set_text-Keeps :
      (name : String) (value : Option Text) (c : Context W) → Keeps c (set_text name value c)
  unfolding set_text
  set_text-Keeps name value c = with_call c _ (setvalue_string-SameCall _ value c.cur_call)

  pub set_texts-Keeps :
      (name : String) (value : Option (List Text)) (c : Context W)
      → Keeps c (set_texts name value c)
  unfolding set_texts
  set_texts-Keeps name value c = with_call c _ (setvalue_stringlist-SameCall _ value c.cur_call)

  pub set_number-Keeps :
      (name : String) (value : ℤ) (c : Context W) → Keeps c (set_number name value c)
  unfolding set_number
  set_number-Keeps name value c = with_call c _ (setvalue_int-SameCall _ value c.cur_call)

  answer_header-Keeps : (o : Option Text) (c : Context W) → Ensures (Keeps c) (answer_header o c)
  unfolding answer_header
  answer_header-Keeps none c = tt
  answer_header-Keeps (some header) c =
      Ensures-bind (λ _. Unit {0}) (Keeps c) (getheader c.message header) _ (Ensures-any _)
        (λ (res, body) _. with_call c _ (setvalue_stringlist-SameCall _ body c.cur_call))

  call_handler-Keeps :
      (respond : Client W) (o : Option Handler) (c : Context W)
      → Ensures (λ r. Keeps c r.1) (call_handler respond o c)
  unfolding call_handler internal_getheader client_call
  call_handler-Keeps respond none c = Keeps-refl c
  call_handler-Keeps respond (some (client address)) c = record {
    message = refl;
    slflags = refl;
    callbacks = refl;
    actions = refl;
    call = apply_calls-SameCall _ c.cur_call;
  }
  call_handler-Keeps respond (some message2_getheader) c =
      Ensures-bind (Keeps c) (λ r. Keeps c r.1) (answer_header _ c) _ (answer_header-Keeps _ c)
        (λ d k. k)

  pub callback_do-Keeps :
      (respond : Client W) (code : Code) (c : Context W)
      → Ensures (λ r. Keeps c r.1) (callback_do respond code c)
  unfolding callback_do
  callback_do-Keeps respond code c = call_handler-Keeps respond _ c

-- No call is open before or after, and nothing but the values and the client's state differs.
pub record Leaves {W : Type 0} (c d : Context W) : Type 0 where
  pub message : d.message ≡ c.message
  pub slflags : d.slflags ≡ c.slflags
  pub callbacks : d.callbacks ≡ c.callbacks
  pub actions : d.actions ≡ c.actions
  pub closed : IsClosed d.cur_call

module _ {W : Type 0} where
  begin_call-IsOpen :
      (code : Code) (c : Context W) → IsClosed c.cur_call → IsOpen code (begin_call code c).cur_call
  unfolding begin_call
  begin_call-IsOpen code c closed = elim (callback_begin-Begins code c.cur_call) [
    | inl opened ↦ opened.2
    | inr failed ↦ absurd (failed.1 closed)
  ]

  end_call-IsClosed :
      (code : Code) (c : Context W) → IsOpen code c.cur_call → IsClosed (end_call code c).cur_call
  unfolding end_call
  end_call-IsClosed code c open_ = elim (callback_end-Ends code c.cur_call) [
    | inl ended ↦ ended.2
    | inr failed ↦ absurd (failed.1 open_)
  ]

  -- The call is open, with its code, and nothing else differs.
  pub record Opens (code : Code) (c d : Context W) : Type 0 where
    pub message : d.message ≡ c.message
    pub slflags : d.slflags ≡ c.slflags
    pub callbacks : d.callbacks ≡ c.callbacks
    pub actions : d.actions ≡ c.actions
    pub opened : IsOpen code d.cur_call

  begin_call-Opens :
      (code : Code) (c : Context W) → IsClosed c.cur_call → Opens code c (begin_call code c)
  unfolding begin_call
  begin_call-Opens code c closed = record {
    message = refl;
    slflags = refl;
    callbacks = refl;
    actions = refl;
    opened = unfold begin_call in begin_call-IsOpen code c closed;
  }

  Opens-Keeps : {code : Code} {c d e : Context W} → Opens code c d → Keeps d e → Opens code c e
  Opens-Keeps p q = record {
    message = q.message ∙ p.message;
    slflags = q.slflags ∙ p.slflags;
    callbacks = q.callbacks ∙ p.callbacks;
    actions = q.actions ∙ p.actions;
    opened = (q.call.begin ∙ p.opened.0, q.call.end ∙ p.opened.1, q.call.code ∙ p.opened.2);
  }

  pub end_call-Leaves :
      {code : Code} {c d : Context W} → Opens code c d → Leaves c (end_call code d)
  unfolding end_call
  end_call-Leaves {code} {c} {d} p = record {
    message = p.message;
    slflags = p.slflags;
    callbacks = p.callbacks;
    actions = p.actions;
    closed = unfold end_call in end_call-IsClosed code d p.opened;
  }

  module _ (respond : Client W) (code : Code) (fill : Context W → Context W)
      (keeps : (c : Context W) → Keeps c (fill c)) where
    pub open_call-Opens :
        (c : Context W)
        → IsClosed c.cur_call
        → Ensures (Opens code c) (open_call respond code fill c)
    unfolding open_call
    open_call-Opens c closed =
        let begun = begin_call code c in
        Ensures-bind (λ r. Keeps (fill begun) r.1) (Opens code c)
          (callback_do respond code (fill begun)) _ (callback_do-Keeps respond code (fill begun))
          (λ (status, d) k.
            Opens-Keeps (Opens-Keeps (begin_call-Opens code c closed) (keeps begun)) k)

    -- A call that begins while no other is open is over when the function returns.
    pub whole_call-Leaves :
        (c : Context W) → IsClosed c.cur_call → Ensures (Leaves c) (whole_call respond code fill c)
    unfolding whole_call
    whole_call-Leaves c closed =
        Ensures-bind (Opens code c) (Leaves c) (open_call respond code fill c) _
          (open_call-Opens c closed) (λ d p. end_call-Leaves p)
