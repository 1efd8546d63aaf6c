-- ===== src/Script/Quiet.antt =====
-- src/sv_interface/script.c: the questions of the vacation command leave the record of the actions
-- as it was.
use libsieve.Prelude.{
  ℕ, Bool, true, false, List, [], ◌∷◌, Option, none, some, Text, ◌≡◌, refl, ◌∙◌, map, if◌then◌else◌,
  ◌==◌,
}
use libsieve.Run.{
  Run, ◌>>=◌, Ensures, Ensures-any, Ensures-mono, Ensures-bind, Ensures-branch, sieve2_ok,
}
use libsieve.Libc.{same_name, tolower}
use libsieve.Context.Brackets.{IsClosed}
use libsieve.Context.State.{Handler, client, message2_getheader, Context}
use libsieve.Callbacks.Frame.{Leaves}
use libsieve.Callbacks.Queries.{do_getheader}
use libsieve.Outside.{Address, Outside}
use libsieve.Address.Parts.{all}
use libsieve.Script.Syntax.{Vacation}
use libsieve.Script.Refusal.{
  write_contents, write_to, write_first, spaceless, auto_submitted, no_list, precedence,
  first_address, address_in, envelope_part, store_sender,
}
use libsieve.Script.Vacation.{
  look_for_aliases, look_in_marker, look_in_bodies, look_for_me, find_me, find_sender, subject_of,
  recipients,
}
use libsieve.Script.Harmless.{
  Harmless, do_getheader-Harmless, do_getenvelope-Harmless, parse_address-Harmless,
  get_first-Harmless, get_address-Harmless,
}

-- A run that leaves no call open and the record of the actions as it was.
abbrev pub Quiet : {A W : Type 0} → Context W → Run (A × Context W) → Type 0
Quiet c m = Ensures (λ r. IsClosed r.1.cur_call × (r.1.actions ≡ c.actions)) m

module _ {W : Type 0} where
  pub Quiet-of_Harmless :
      {A : Type 0} (c : Context W) (m : Run (A × Context W)) → Harmless c m → Quiet c m
  Quiet-of_Harmless c m h = Ensures-mono (λ r. Leaves c r.1) _ m (λ r l. (l.closed, l.actions)) h

  Quiet-bind :
      {A B : Type 0} (c : Context W) (m : Run (A × Context W))
      (f : A × Context W → Run (B × Context W))
      → Quiet c m
      → ((x : A) (d : Context W) → IsClosed d.cur_call → Quiet d (f (x, d)))
      → Quiet c (m >>= f)
  Quiet-bind c m f h k =
      Ensures-bind (λ r. IsClosed r.1.cur_call × (r.1.actions ≡ c.actions)) _ m f h
        (λ (x, d) (closed, same).
          Ensures-mono (λ r. IsClosed r.1.cur_call × (r.1.actions ≡ d.actions)) _ (f (x, d))
            (λ r (closed', same'). (closed', same' ∙ same)) (k x d closed))

  Quiet-option :
      {A B : Type 0} (c : Context W) (val : Option A) (m : Run (B × Context W))
      (f : A → Run (B × Context W))
      → Quiet c m
      → ((x : A) → Quiet c (f x))
      → Quiet c (elim val [ none ↦ m | some x ↦ f x ])
  Quiet-option c none m f h k = h
  Quiet-option c (some x) m f h k = k x

  Quiet-branch :
      {B : Type 0} (c : Context W) (b : Bool) (m n : Run (B × Context W))
      → Quiet c m
      → Quiet c n
      → Quiet c (elim b [ true ↦ m | false ↦ n ])
  Quiet-branch c b m n h k = Ensures-branch _ b m n h k

  Quiet-if :
      {B : Type 0} (c : Context W) (b : Bool) (m n : Run (B × Context W))
      → Quiet c m
      → Quiet c n
      → Quiet c (if b then m else n)
  Quiet-if c true m n h k = h
  Quiet-if c false m n h k = k

module _ {R W : Type 0} (o : Outside R W) where
  header-Quiet :
      (name : Option Text) (c : Context W)
      → IsClosed c.cur_call
      → Quiet c (do_getheader o.respond name c)
  header-Quiet name c closed = Quiet-of_Harmless c _ (do_getheader-Harmless o.respond name c closed)

  write_first-Quiet :
      (name : Text) (first : Option Text) (c : Context W)
      → IsClosed c.cur_call
      → Ensures (λ d. IsClosed d.cur_call × (d.actions ≡ c.actions)) (write_first o name first c)
  unfolding write_first write_to
  write_first-Quiet name first c closed = at_handler c.callbacks.getheader
    where
      at_handler :
          (h : Option Handler)
          → Ensures (λ d. IsClosed d.cur_call × (d.actions ≡ c.actions)) (write_to o h name first c)
      at_handler none = (closed, refl)
      at_handler (some (client address)) = (closed, refl)
      at_handler (some message2_getheader) =
          Ensures-bind (λ _. Unit {0}) (λ d. IsClosed d.cur_call × (d.actions ≡ c.actions))
            (write_contents (map tolower name) first c.message) _ (Ensures-any _)
            (λ message _. (closed, refl))

  spaceless-Quiet :
      (name : Text) (found : ℕ × List Text) (c : Context W)
      → IsClosed c.cur_call
      → Quiet c (spaceless o name found c)
  unfolding spaceless
  spaceless-Quiet name (status, []) c closed = (closed, refl)
  spaceless-Quiet name (status, body ∷ bodies) c closed =
      Quiet-if c (status == sieve2_ok) _ _
        (Ensures-bind (λ d. IsClosed d.cur_call × (d.actions ≡ c.actions)) _ _ _
          (write_first-Quiet name _ c closed) (λ d q. q))
        (closed, refl)

  pub auto_submitted-Quiet : (c : Context W) → IsClosed c.cur_call → Quiet c (auto_submitted o c)
  unfolding auto_submitted
  auto_submitted-Quiet c closed = Quiet-bind c _ _ (header-Quiet _ c closed) (λ found d closed'.
      Quiet-bind d _ _ (spaceless-Quiet _ found d closed') (λ word e closed''. (closed'', refl)))

  pub no_list-Quiet :
      (names : List Text) (l : ℕ) (c : Context W)
      → IsClosed c.cur_call
      → Quiet c (no_list o names l c)
  unfolding no_list
  no_list-Quiet [] l c closed = (closed, refl)
  no_list-Quiet (name ∷ names) l c closed =
      Quiet-branch c (l == sieve2_ok) _ _
        (Quiet-bind c _ _ (header-Quiet (some name) c closed)
          (λ found d closed'. no_list-Quiet names _ d closed'))
        (no_list-Quiet names l c closed)

  pub precedence-Quiet : (l : ℕ) (c : Context W) → IsClosed c.cur_call → Quiet c (precedence o l c)
  unfolding precedence
  precedence-Quiet l c closed = Quiet-bind c _ _ (header-Quiet _ c closed) (λ found d closed'.
      Quiet-bind d _ _ (spaceless-Quiet _ found d closed') (λ word e closed''. (closed'', refl)))

  pub first_address-Quiet :
      (text : Text) (c : Context W) → IsClosed c.cur_call → Quiet c (first_address o text c)
  unfolding first_address
  first_address-Quiet text c closed =
      Quiet-bind c _ _ (Quiet-of_Harmless c _ (parse_address-Harmless o text c closed))
        (λ x d closed'.
          Quiet-bind d _ _ (Quiet-of_Harmless d _ (get_address-Harmless o all true x.1 d closed'))
            (λ y e closed''. (closed'', refl)))

  pub address_in-Quiet :
      (text : Option Text) (c : Context W) → IsClosed c.cur_call → Quiet c (address_in o text c)
  unfolding address_in
  address_in-Quiet none c closed = (closed, refl)
  address_in-Quiet (some text) c closed = first_address-Quiet text c closed

  pub envelope_part-Quiet :
      (f : Text) (c : Context W) → IsClosed c.cur_call → Quiet c (envelope_part o f c)
  unfolding envelope_part
  envelope_part-Quiet f c closed =
      Quiet-bind c _ _ (Quiet-of_Harmless c _ (do_getenvelope-Harmless o.respond f none c closed))
        (λ x d closed'. (closed', refl))

  look_for_aliases-Quiet :
      (addr : Text) (sl : List Text) (c : Context W)
      → IsClosed c.cur_call
      → Quiet c (look_for_aliases o addr sl c)
  unfolding look_for_aliases
  look_for_aliases-Quiet addr [] c closed = (closed, refl)
  look_for_aliases-Quiet addr (s ∷ sl) c closed =
      Quiet-bind c _ _ (first_address-Quiet s c closed) (λ alt d closed'.
        Quiet-option d alt _ _ tt (λ altaddr.
          Quiet-branch d (same_name addr altaddr) _ _ (closed', refl)
            (look_for_aliases-Quiet addr sl d closed')))

  look_in_marker-Quiet :
      (myaddr : Text) (myaddrs : List Text) (marker : List Address) (c : Context W)
      → IsClosed c.cur_call
      → Quiet c (look_in_marker o myaddr myaddrs marker c)
  unfolding look_in_marker
  look_in_marker-Quiet myaddr myaddrs [] c closed = (closed, refl)
  look_in_marker-Quiet myaddr myaddrs (a ∷ marker) c closed =
      Quiet-bind c _ _ (Quiet-of_Harmless c _ (get_first-Harmless o all true a c closed))
        (λ addr d closed'.
          Quiet-option d addr _ _ (closed', refl)
            (λ s.
              Quiet-branch d (same_name s myaddr) _ _ (closed', refl)
                (Quiet-bind d _ _ (look_for_aliases-Quiet s myaddrs d closed') (λ found e closed''.
                  Quiet-option e found _ _ (look_in_marker-Quiet myaddr myaddrs marker e closed'')
                    (λ f. (closed'', refl))))))

  look_in_bodies-Quiet :
      (myaddr : Text) (myaddrs bodies : List Text) (c : Context W)
      → IsClosed c.cur_call
      → Quiet c (look_in_bodies o myaddr myaddrs bodies c)
  unfolding look_in_bodies
  look_in_bodies-Quiet myaddr myaddrs [] c closed = (closed, refl)
  look_in_bodies-Quiet myaddr myaddrs (body ∷ bodies) c closed =
      Quiet-bind c _ _ (Quiet-of_Harmless c _ (parse_address-Harmless o body c closed))
        (λ x d closed'.
          Quiet-bind d _ _ (look_in_marker-Quiet myaddr myaddrs x.1 d closed') (λ found e closed''.
            Quiet-option e found _ _ (look_in_bodies-Quiet myaddr myaddrs bodies e closed'')
              (λ f. (closed'', refl))))

  look_for_me-Quiet :
      (myaddr : Option Text) (myaddrs body : List Text) (c : Context W)
      → IsClosed c.cur_call
      → Quiet c (look_for_me o myaddr myaddrs body c)
  unfolding look_for_me
  look_for_me-Quiet none myaddrs body c closed = (closed, refl)
  look_for_me-Quiet (some myaddr) myaddrs body c closed =
      look_in_bodies-Quiet myaddr myaddrs body c closed

  find_me-Quiet :
      (myaddr : Option Text) (myaddrs names : List Text) (c : Context W)
      → IsClosed c.cur_call
      → Quiet c (find_me o myaddr myaddrs names c)
  unfolding find_me
  find_me-Quiet myaddr myaddrs [] c closed = (closed, refl)
  find_me-Quiet myaddr myaddrs (name ∷ names) c closed =
      Quiet-bind c _ _ (header-Quiet (some name) c closed) (λ x d closed'.
        Quiet-bind d _ _
          (Quiet-if d (x.0 == sieve2_ok) _ _ (look_for_me-Quiet myaddr myaddrs x.1 d closed')
            (closed', refl))
          (λ found e closed''.
            Quiet-option e found _ _ (find_me-Quiet myaddr myaddrs names e closed'')
              (λ f. (closed'', refl))))

  pub find_sender-Quiet :
      (v : Vacation) (myaddr : Option Text) (c : Context W)
      → IsClosed c.cur_call
      → Quiet c (find_sender o v myaddr c)
  unfolding find_sender
  find_sender-Quiet v myaddr c closed =
      Quiet-option c v.from _ _ (find_me-Quiet myaddr v.addresses recipients c closed)
        (λ from. (closed, refl))

  pub subject_of-Quiet :
      (v : Vacation) (c : Context W) → IsClosed c.cur_call → Quiet c (subject_of o v c)
  unfolding subject_of
  subject_of-Quiet v c closed =
      Quiet-option c v.subject _ _
        (Quiet-bind c _ _ (header-Quiet _ c closed) (λ found d closed'. (closed', refl)))
        (λ subject. (closed, refl))

  pub store_sender-Quiet :
      (there : Bool) (e : Option Text) (c : Context W)
      → IsClosed c.cur_call
      → Ensures (λ d. IsClosed d.cur_call × (d.actions ≡ c.actions)) (store_sender o there e c)
  unfolding store_sender
  store_sender-Quiet true e c closed = write_first-Quiet _ e c closed
  store_sender-Quiet false e c closed = (closed, refl)
