-- ===== src/Script/Vacation.antt =====
-- src/sv_interface/script.c, the vacation command of `libsieve_eval`: the response, with
-- `look_for_me`.
use libsieve.Prelude.{
  ℕ, ◌+◌, Bool, true, false, ◌==◌, List, [], ◌∷◌, ◌++◌, Option, none, some, Text, codes, length,
  take, ltb, ℤ, pos, negsuc, suc, if◌then◌else◌,
}
use libsieve.Libc.{same_name, decimal}
use libsieve.Run.{Run, ok, fault, out_of_bounds, null_pointer, ◌>>=◌, sieve2_ok}
use libsieve.Context.State.{Context}
use libsieve.Callbacks.Queries.{do_getheader}
use libsieve.Callbacks.Actions.{do_vacation}
use libsieve.Outside.{Address, Outside}
use libsieve.Address.Parts.{all, parse_address, get_first}
use libsieve.Script.Syntax.{Vacation}
use libsieve.Script.Refusal.{
  first_address, address_in, envelope_part, store_sender, may_reply, auto_submitted, no_list,
  list_headers, precedence,
}

abbrev pub recipients : List Text
recipients =
    codes "to"
    ∷ codes "cc"
    ∷ codes "bcc"
    ∷ codes "Resent-To"
    ∷ codes "Resent-Cc"
    ∷ codes "Resent-Bcc"
    ∷ []

abbrev pub or_empty : Option Text → Text
or_empty none = []
or_empty (some s) = s

-- `%i`.
unfoldable pub decimal_ℤ : ℤ → Text
decimal_ℤ (pos n) = decimal n
decimal_ℤ (negsuc n) = codes "-" ++ decimal (suc n)

-- What is printed for a handle, less the NUL.
unfoldable pub printed_handle : Vacation → Text
unfolding decimal_ℤ
printed_handle v =
    or_empty v.subject
    ++ (codes ":"
        ++ (or_empty v.from ++ (codes ":" ++ (v.message ++ (codes ":" ++ decimal_ℤ v.mime)))))

-- The room for it has one byte for the digits of `mime`.
unfoldable pub room_for_handle : Vacation → ℕ
room_for_handle v = length (or_empty v.subject) + length (or_empty v.from) + (length v.message + 5)

unfoldable pub make_handle : Vacation → Run Text
unfolding printed_handle room_for_handle
make_handle v =
    if ltb (length (printed_handle v)) (room_for_handle v)
    then ok (printed_handle v)
    else fault out_of_bounds

unfoldable pub handle_of : Vacation → Run Text
unfolding make_handle
handle_of v = elim v.handle [ some handle ↦ ok handle | none ↦ make_handle v ]

module _ {R W : Type 0} (o : Outside R W) where
  -- The loop over the other addresses of `look_for_me`.
  unfoldable pub look_for_aliases : Text → List Text → Context W → Run (Option Text × Context W)
  unfolding first_address
  look_for_aliases addr [] c = ok (none, c)
  look_for_aliases addr (s ∷ sl) c = do
    (alt, called) ← first_address o s c
    elim alt [
      | none ↦ fault null_pointer
      | some altaddr ↦ elim (same_name addr altaddr) [
        | true ↦ ok (some s, called)
        | false ↦ look_for_aliases addr sl called
      ]
    ]

  -- The loop over the addresses of a header.
  unfoldable pub look_in_marker :
      Text → List Text → List Address → Context W → Run (Option Text × Context W)
  unfolding look_for_aliases
  look_in_marker myaddr myaddrs [] c = ok (none, c)
  look_in_marker myaddr myaddrs (a ∷ marker) c = do
    (addr, called) ← get_first o all true a c
    elim addr [
      | none ↦ ok (none, called)
      | some s ↦ elim (same_name s myaddr) [
        | true ↦ ok (some myaddr, called)
        | false ↦ do
          (found, looked) ← look_for_aliases s myaddrs called
          elim found [
            | some f ↦ ok (some f, looked)
            | none ↦ look_in_marker myaddr myaddrs marker looked
          ]
      ]
    ]

  unfoldable pub look_in_bodies :
      Text → List Text → List Text → Context W → Run (Option Text × Context W)
  unfolding look_in_marker
  look_in_bodies myaddr myaddrs [] c = ok (none, c)
  look_in_bodies myaddr myaddrs (body ∷ bodies) c = do
    ((status, marker), parsed) ← parse_address o body c
    (found, looked) ← look_in_marker myaddr myaddrs marker parsed
    elim found [ some f ↦ ok (some f, looked) | none ↦ look_in_bodies myaddr myaddrs bodies looked ]

  unfoldable pub look_for_me :
      Option Text → List Text → List Text → Context W → Run (Option Text × Context W)
  unfolding look_in_bodies
  look_for_me none myaddrs body c = ok (none, c)
  look_for_me (some myaddr) myaddrs body c = look_in_bodies myaddr myaddrs body c

  -- The headers in which I am looked for, in order, until I am found.
  unfoldable pub find_me :
      Option Text → List Text → List Text → Context W → Run (Option Text × Context W)
  unfolding look_for_me
  find_me myaddr myaddrs [] c = ok (none, c)
  find_me myaddr myaddrs (name ∷ names) c = do
    ((status, body), called) ← do_getheader o.respond (some name) c
    (found, looked) ←
        if status == sieve2_ok then look_for_me myaddr myaddrs body called else ok (none, called)
    elim found [ some f ↦ ok (some f, looked) | none ↦ find_me myaddr myaddrs names looked ]

  unfoldable pub find_sender : Vacation → Option Text → Context W → Run (Option Text × Context W)
  unfolding find_me
  find_sender v myaddr c = elim v.from [
    | some from ↦ ok (some from, c)
    | none ↦ find_me myaddr v.addresses recipients c
  ]

  -- The subject, in a buffer of 128 bytes.
  unfoldable pub subject_of : Vacation → Context W → Run (Text × Context W)
  subject_of v c = elim v.subject [
    | some subject ↦ ok (take 127 subject, c)
    | none ↦ do
      ((status, s), called) ← do_getheader o.respond (some (codes "subject")) c
      ok (
        elim s [
          | [] ↦ codes "Automated reply"
          | first ∷ _ ↦
              if status == sieve2_ok
              then take 127 (codes "Auto: " ++ first)
              else codes "Automated reply"
        ],
        called,
      )
  ]

  -- The response itself, where the sender may get one.
  unfoldable pub respond_to : Vacation → Option Text → Option Text → Context W → Run (ℕ × Context W)
  unfolding find_sender subject_of handle_of
  respond_to v reply_to myaddr c = do
    (found, looked) ← find_sender v myaddr c
    elim found [
      | none ↦ ok (sieve2_ok, looked)
      | some fromaddr ↦ do
        (buf, asked) ← subject_of v looked
        handle ← handle_of v
        do_vacation o.respond reply_to (some fromaddr) (some buf) (some v.message) (some handle)
            v.days v.mime asked
    ]

  -- From the envelope on, where no header forbids a response.
  unfoldable pub consider : Bool → Vacation → Context W → Run (ℕ × Context W)
  unfolding envelope_part store_sender address_in may_reply respond_to
  consider there v c = do
    (to, c₁) ← envelope_part o (codes "to") c
    (myaddr, c₂) ← address_in o to c₁
    (from, asked) ← envelope_part o (codes "from") c₂
    c₃ ← store_sender o there from asked
    elim from [
      | none ↦ respond_to v none myaddr c₃
      | some sender ↦ do
        (reply_to, c₄) ← first_address o sender c₃
        elim (may_reply reply_to myaddr v.addresses) [
          | true ↦ respond_to v reply_to myaddr c₄
          | false ↦ ok (sieve2_ok, c₄)
        ]
    ]

  -- `res` of the command. The questions for the envelope never fail, so it is never -1.
  unfoldable pub vacation_command : Vacation → Context W → Run (ℕ × Context W)
  unfolding auto_submitted no_list precedence consider
  vacation_command v c = do
    (l, c₁) ← auto_submitted o c
    (l', c₂) ← no_list o list_headers l c₁
    ((there, l''), c₃) ← precedence o l' c₂
    elim (l'' == sieve2_ok) [ true ↦ consider there v c₃ | false ↦ ok (sieve2_ok, c₃) ]
