-- ===== src/Script/Refusal.antt =====
-- src/sv_interface/script.c, the vacation command of `libsieve_eval`: the reasons not to respond. The
-- array that `body` points to is the cache's own where the library answers for the headers, and is
-- written to. Where the client answers, its array is its own affair; and nothing reads the array of
-- the answer for an absent header.
use libsieve.Prelude.{
  ℕ, Bool, true, false, not, ◌&&◌, ◌||◌, ◌==◌, List, [], ◌∷◌, map, Option, none, some, Text, codes,
  set, if◌then◌else◌,
}
use libsieve.Libc.{
  same_text, same_name, tolower, isspace, strstr, begins_with, begins_with_any_case,
}
use libsieve.Run.{Run, ok, ◌>>=◌, sieve2_ok, sieve2_done}
use libsieve.Message.Cache.{Header, Message, hashheader, index_of, find_place, read_slot}
use libsieve.Context.State.{Handler, client, message2_getheader, Context}
use libsieve.Callbacks.Queries.{do_getheader, do_getenvelope}
use libsieve.Outside.{Outside}
use libsieve.Address.Parts.{all, parse_address, get_address}

unfoldable sysaddr : Text → Bool
sysaddr addr =
    begins_with_any_case addr (codes "MAILER-DAEMON")
    || begins_with_any_case addr (codes "LISTSERV")
    || begins_with_any_case addr (codes "majordomo")
    || strstr addr (codes "-request")
    || begins_with addr (codes "owner-")

-- `while (body[0] && *body[0] && isspace(*body[0])) body[0]++`.
unfoldable skip_space : Text → Text
skip_space [] = []
skip_space (c ∷ s) = let rest = skip_space s in if isspace c then rest else c ∷ s

-- `contents[0]` of a header. A null pointer there ends the array at once.
abbrev with_first : Option Text → Header → Header
with_first none h = record h { contents = [] }
with_first (some s) h = elim h.contents [
  | [] ↦ h
  | body ∷ bodies ↦ record h { contents = s ∷ bodies }
]

pub write_contents : Text → Option Text → Message → Run Message
write_contents name first m = do
  cl ← index_of (hashheader name m.hashsize)
  c ← find_place m.hashsize m name cl cl
  slot ← read_slot m.hash c
  elim slot [
    | none ↦ ok m
    | some h ↦ ok (record m { hash = set m.hash c (some (with_first first h)) })
  ]

abbrev pub list_headers : List Text
list_headers =
    codes "List-Id"
    ∷ codes "List-Help"
    ∷ codes "List-Subscribe"
    ∷ codes "List-Unsubscribe"
    ∷ codes "List-Post"
    ∷ codes "List-Owner"
    ∷ codes "List-Archive"
    ∷ []

unfoldable is_bulk : Text → Bool
is_bulk w = same_name w (codes "junk") || same_name w (codes "bulk") || same_name w (codes "list")

-- Whether an address is named in the command.
unfoldable pub is_among : Text → List Text → Bool
is_among addr [] = false
is_among addr (s ∷ sl) = same_text s addr || is_among addr sl

unfoldable pub equals : Option Text → Text → Bool
equals none addr = false
equals (some s) addr = same_text s addr

unfoldable names_me : Option Text → List Text → Bool
unfolding is_among
names_me none addresses = false
names_me (some myaddr) addresses = is_among myaddr addresses

-- Whether the sender gets a response: not from me, not from another address of mine, my address
-- is named in the command, and the sender is no system.
unfoldable pub may_reply : Option Text → Option Text → List Text → Bool
unfolding equals is_among names_me sysaddr
may_reply none myaddr addresses = false
may_reply (some reply_to) myaddr addresses =
    not (equals myaddr reply_to)
    && not (is_among reply_to addresses)
    && names_me myaddr addresses
    && not (sysaddr reply_to)

module _ {R W : Type 0} (o : Outside R W) where
  -- A write to `body[0]`, where `body` is the answer for a header that is there.
  unfoldable pub write_to : Option Handler → Text → Option Text → Context W → Run (Context W)
  unfolding write_contents
  write_to none name first c = ok c
  write_to (some (client address)) name first c = ok c
  write_to (some message2_getheader) name first c = do
    message ← write_contents (map tolower name) first c.message
    ok (record c { message = message })

  unfoldable pub write_first : Text → Option Text → Context W → Run (Context W)
  unfolding write_to
  write_first name first c = write_to c.callbacks.getheader name first c

  -- The value of a header without leading space, which is taken off the array, too.
  unfoldable pub spaceless : Text → ℕ × List Text → Context W → Run (Option Text × Context W)
  unfolding write_first skip_space
  spaceless name (status, []) c = ok (none, c)
  spaceless name (status, body ∷ bodies) c =
      if status == sieve2_ok
      then (write_first name (some (skip_space body)) c >>= λ c'. ok (some (skip_space body), c'))
      else ok (none, c)

  -- `Auto-Submitted` with another word than `no`.
  unfoldable pub auto_submitted : Context W → Run (ℕ × Context W)
  auto_submitted c = do
    (found, called) ← do_getheader o.respond (some (codes "auto-submitted")) c
    (word, c') ← spaceless (codes "auto-submitted") found called
    ok (
      elim word [
        | none ↦ sieve2_ok
        | some w ↦ if same_name w (codes "no") then sieve2_ok else sieve2_done
      ],
      c',
    )

  -- The tests of the headers of lists, each of which is made only if none was found so far.
  unfoldable pub no_list : List Text → ℕ → Context W → Run (ℕ × Context W)
  no_list [] l c = ok (l, c)
  no_list (name ∷ names) l c = elim (l == sieve2_ok) [
    | true ↦ do
      ((status, body), called) ← do_getheader o.respond (some name) c
      no_list names (if status == sieve2_ok then sieve2_done else l) called
    | false ↦ no_list names l c
  ]

  -- Whether `Precedence` is there, and the status.
  unfoldable pub precedence : ℕ → Context W → Run ((Bool × ℕ) × Context W)
  unfolding is_bulk
  precedence l c = do
    (found, called) ← do_getheader o.respond (some (codes "precedence")) c
    (word, c') ← spaceless (codes "precedence") found called
    ok (elim word [ none ↦ (false, l) | some w ↦ (true, if is_bulk w then sieve2_done else l) ], c')

  -- The first address of a text, its domain in lower case.
  unfoldable pub first_address : Text → Context W → Run (Option Text × Context W)
  first_address text c = do
    ((status, marker), parsed) ← parse_address o text c
    ((tmp, rest), called) ← get_address o all true marker parsed
    ok (tmp, called)

  unfoldable pub address_in : Option Text → Context W → Run (Option Text × Context W)
  unfolding first_address
  address_in none c = ok (none, c)
  address_in (some text) c = first_address text c

  unfoldable pub envelope_part : Text → Context W → Run (Option Text × Context W)
  envelope_part f c = do ((status, e), called) ← do_getenvelope o.respond f none c; ok (e, called)

  -- The parts of the envelope go to the first place of the array for `Precedence`. The first of
  -- them is overwritten by the second before anything reads it.
  unfoldable pub store_sender : Bool → Option Text → Context W → Run (Context W)
  unfolding write_first
  store_sender there e c = if there then write_first (codes "precedence") e c else ok c
