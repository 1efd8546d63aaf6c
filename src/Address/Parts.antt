-- ===== src/Address/Parts.antt =====
-- src/sv_interface/message.c: the addresses of a header one by one. A marker is the list of the
-- addresses that are left; a null marker, like one at the end, is the empty list. The string that a
-- marker owns lives until the next call with it, and no caller keeps it longer.
use libsieve.Prelude.{
  ℕ, Bool, true, false, ◌==◌, List, [], ◌∷◌, map, Option, none, some, Text, codes, if◌then◌else◌,
}
use libsieve.Libc.{tolower}
use libsieve.Run.{Run, ok, fault, null_pointer, ◌>>=◌, sieve2_ok, error_exec}
use libsieve.Util.Buffers.{strconcat}
use libsieve.Context.State.{Context}
use libsieve.Callbacks.Queries.{Subaddress, do_getsubaddress}
use libsieve.Outside.{Address, Outside}
use libsieve.Address.Parse.{addr_parse_buffer}

-- `address_part_t`.
pub data AddressPart : Type 0 where
  all localpart domain user detail : AddressPart

-- The text of an address, or none where neither mailbox nor domain is there.
unfoldable pub address_text : Option Text → Option Text → Run (Option Text)
address_text none none = ok none
address_text none (some d) = fault null_pointer
address_text (some []) none = ok (some [])
address_text (some (c ∷ m)) none = strconcat ((c ∷ m) ∷ codes "@" ∷ codes "unspecified-domain" ∷ [])
address_text (some m) (some d) = strconcat (m ∷ codes "@" ∷ d ∷ [])

-- The `switch` over the part.
unfoldable part_of : AddressPart → Subaddress → Option Text
part_of localpart s = s.localpart
part_of domain s = s.domain
part_of user s = s.user
part_of detail s = s.detail
part_of all s = none

-- `canon_domain`.
unfoldable pub canon : Bool → Option Text → Option Text
canon true (some d) = some (map tolower d)
canon true none = none
canon false d = d

module _ {R W : Type 0} (o : Outside R W) where
  unfoldable pub parse_address : Text → Context W → Run ((ℕ × List Address) × Context W)
  parse_address header c = do
    (data_, called) ← addr_parse_buffer o header c
    ok (elim data_ [ none ↦ (error_exec, []) | some newdata ↦ (sieve2_ok, newdata) ], called)

  -- The part of an address whose text is known.
  unfoldable pub get_part : AddressPart → Option Text → Context W → Run (Option Text × Context W)
  unfolding part_of
  get_part part none c = ok (none, c)
  get_part all (some address) c = ok (some address, c)
  get_part part (some address) c = do
    ((status, s), called) ← do_getsubaddress o.respond (some address) c
    ok (if status == sieve2_ok then part_of part s else none, called)

  unfoldable pub get_first :
      AddressPart → Bool → Address → Context W → Run (Option Text × Context W)
  unfolding canon address_text get_part
  get_first part canon_domain a c = do
    address ← address_text a.mailbox (canon canon_domain a.domain)
    get_part part address c

  unfoldable pub get_address :
      AddressPart → Bool → List Address → Context W → Run ((Option Text × List Address) × Context W)
  unfolding get_first
  get_address part canon_domain [] c = ok ((none, []), c)
  get_address part canon_domain (a ∷ marker) c = do
    (ret, called) ← get_first part canon_domain a c
    ok ((ret, marker), called)
