-- ===== src/Script/Harmless.antt =====
-- src/sv_interface/callbacks2.c, message.c and src/sv_parser/addr.y: what the questions of a test
-- leave alone, whatever the client answers.
use libsieve.Prelude.{ℕ, Bool, true, false, List, [], ◌∷◌, Option, none, some, Text, if◌then◌else◌}
use libsieve.Run.{Run, ok, ◌>>=◌, Ensures, Ensures-any, Ensures-mono, Ensures-bind}
use libsieve.Context.Values.{
  message_getheader, message_getenvelope, message_getsize, message_getsubaddress, errcall_address,
}
use libsieve.Context.Brackets.{IsClosed}
use libsieve.Context.State.{Context, Client}
use libsieve.Callbacks.Brackets.{set_text}
use libsieve.Callbacks.Frame.{Keeps-refl, set_text-Keeps, Leaves, whole_call-Leaves}
use libsieve.Callbacks.Queries.{
  Subaddress, do_getheader, do_getsize, do_getenvelope, do_getsubaddress,
}
use libsieve.Callbacks.Actions.{do_error_address}
use libsieve.Callbacks.Answers.{ask-Leaves}
use libsieve.Outside.{Address, Outside}
use libsieve.Address.Parse.{addrerror, addrerrors, addr_parse_buffer}
use libsieve.Address.Parts.{
  AddressPart, all, localpart, domain, user, detail, parse_address, get_part, get_first,
  get_address, address_text, canon,
}
use libsieve.Script.Steady.{Leaves-refl, Leaves-trans}

-- A run with a context behind its value that leaves the first one.
abbrev pub Harmless : {A W : Type 0} → Context W → Run (A × Context W) → Type 0
Harmless c m = Ensures (λ r. Leaves c r.1) m

module _ {W : Type 0} where
  pub Harmless-bind :
      {A B : Type 0} (c : Context W) (m : Run (A × Context W))
      (f : A × Context W → Run (B × Context W))
      → Harmless c m
      → ((x : A) (d : Context W) → IsClosed d.cur_call → Harmless d (f (x, d)))
      → Harmless c (m >>= f)
  Harmless-bind c m f h k =
      Ensures-bind (λ r. Leaves c r.1) (λ r. Leaves c r.1) m f h
        (λ (x, d) l.
          Ensures-mono (λ r. Leaves d r.1) (λ r. Leaves c r.1) (f (x, d))
            (λ r l'. Leaves-trans l l') (k x d l.closed))

  -- A run without a context in front.
  pub Harmless-then :
      {A B : Type 0} (c : Context W) (m : Run A) (f : A → Run (B × Context W))
      → ((x : A) → Harmless c (f x))
      → Harmless c (m >>= f)
  Harmless-then c m f k =
      Ensures-bind (λ _. Unit {0}) (λ r. Leaves c r.1) m f (Ensures-any m) (λ x _. k x)

  pub Harmless-option :
      {A B : Type 0} (c : Context W) (val : Option A) (m : Run (B × Context W))
      (f : A → Run (B × Context W))
      → Harmless c m
      → ((x : A) → Harmless c (f x))
      → Harmless c (elim val [ none ↦ m | some x ↦ f x ])
  Harmless-option c none m f h k = h
  Harmless-option c (some x) m f h k = k x

  pub Harmless-if :
      {B : Type 0} (c : Context W) (b : Bool) (m n : Run (B × Context W))
      → Harmless c m
      → Harmless c n
      → Harmless c (if b then m else n)
  Harmless-if c true m n h k = h
  Harmless-if c false m n h k = k

module _ {W : Type 0} (respond : Client W) where
  pub do_getheader-Harmless :
      (name : Option Text) (c : Context W)
      → IsClosed c.cur_call
      → Harmless c (do_getheader respond name c)
  unfolding do_getheader
  do_getheader-Harmless name c closed =
      ask-Leaves respond message_getheader (set_text "header" name) _ (set_text-Keeps "header" name)
        c closed

  pub do_getsize-Harmless :
      (c : Context W) → IsClosed c.cur_call → Harmless c (do_getsize respond c)
  unfolding do_getsize
  do_getsize-Harmless c closed = ask-Leaves respond message_getsize (λ b. b) _ Keeps-refl c closed

  pub do_getenvelope-Harmless :
      (f : Text) (e : Option Text) (c : Context W)
      → IsClosed c.cur_call
      → Harmless c (do_getenvelope respond f e c)
  unfolding do_getenvelope
  do_getenvelope-Harmless f e c closed =
      ask-Leaves respond message_getenvelope (set_text "env" (some f)) _
        (set_text-Keeps "env" (some f)) c closed

  do_getsubaddress-Harmless :
      (a : Option Text) (c : Context W)
      → IsClosed c.cur_call
      → Harmless c (do_getsubaddress respond a c)
  unfolding do_getsubaddress
  do_getsubaddress-Harmless a c closed =
      ask-Leaves respond message_getsubaddress (set_text "address" a) _ (set_text-Keeps "address" a)
        c closed

  do_error_address-Harmless :
      (msg : Option Text) (c : Context W)
      → IsClosed c.cur_call
      → Harmless c (do_error_address respond msg c)
  unfolding do_error_address
  do_error_address-Harmless msg c closed =
      Ensures-bind (Leaves c) (λ r. Leaves c r.1) _ _
        (whole_call-Leaves respond errcall_address (set_text "message" msg)
          (set_text-Keeps "message" msg) c closed)
        (λ d l. l)

module _ {R W : Type 0} (o : Outside R W) where
  addrerrors-Harmless :
      (messages : List Text) (c : Context W)
      → IsClosed c.cur_call
      → Ensures (Leaves c) (addrerrors o messages c)
  unfolding addrerrors addrerror
  addrerrors-Harmless [] c closed = Leaves-refl c closed
  addrerrors-Harmless (msg ∷ messages) c closed =
      Ensures-bind (Leaves c) (Leaves c) (addrerror o msg c) (addrerrors o messages)
        (Ensures-bind (λ r. Leaves c r.1) (Leaves c) (do_error_address o.respond (some msg) c) _
          (do_error_address-Harmless o.respond (some msg) c closed) (λ r l. l))
        (λ d l.
          Ensures-mono (Leaves d) (Leaves c) (addrerrors o messages d) (λ e l'. Leaves-trans l l')
            (addrerrors-Harmless messages d l.closed))

  pub parse_address-Harmless :
      (text : Text) (c : Context W) → IsClosed c.cur_call → Harmless c (parse_address o text c)
  unfolding parse_address addr_parse_buffer
  parse_address-Harmless text c closed =
      Harmless-bind c (addr_parse_buffer o text c) _
        (Ensures-bind {B = Option (List Address) × Context W} (Leaves c) (λ r. Leaves c r.1)
          (addrerrors o (o.addrparse text).messages c) _
          (addrerrors-Harmless (o.addrparse text).messages c closed) (λ d l. l))
        (λ x d closed'. Leaves-refl d closed')

  of_subaddress :
      {B : Type 0} (f : ℕ × Subaddress → B) (text : Text) (c : Context W)
      → IsClosed c.cur_call
      → Harmless c (do_getsubaddress o.respond (some text) c >>= λ (x, d). ok (f x, d))
  of_subaddress f text c closed =
      Harmless-bind c _ _ (do_getsubaddress-Harmless o.respond (some text) c closed)
        (λ x d closed'. Leaves-refl d closed')

  get_part-Harmless :
      (part : AddressPart) (address : Option Text) (c : Context W)
      → IsClosed c.cur_call
      → Harmless c (get_part o part address c)
  unfolding get_part
  get_part-Harmless part none c closed = Leaves-refl c closed
  get_part-Harmless all (some text) c closed = Leaves-refl c closed
  get_part-Harmless localpart (some text) c closed = of_subaddress _ text c closed
  get_part-Harmless domain (some text) c closed = of_subaddress _ text c closed
  get_part-Harmless user (some text) c closed = of_subaddress _ text c closed
  get_part-Harmless detail (some text) c closed = of_subaddress _ text c closed

  pub get_first-Harmless :
      (part : AddressPart) (canon_domain : Bool) (a : Address) (c : Context W)
      → IsClosed c.cur_call
      → Harmless c (get_first o part canon_domain a c)
  unfolding get_first
  get_first-Harmless part canon_domain a c closed =
      Harmless-then c (address_text a.mailbox (canon canon_domain a.domain)) _
        (λ address. get_part-Harmless part address c closed)

  pub get_address-Harmless :
      (part : AddressPart) (canon_domain : Bool) (marker : List Address) (c : Context W)
      → IsClosed c.cur_call
      → Harmless c (get_address o part canon_domain marker c)
  unfolding get_address
  get_address-Harmless part canon_domain [] c closed = Leaves-refl c closed
  get_address-Harmless part canon_domain (a ∷ marker) c closed =
      Harmless-bind c _ _ (get_first-Harmless part canon_domain a c closed)
        (λ x d closed'. Leaves-refl d closed')
