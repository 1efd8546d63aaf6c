-- ===== src/Grammar/Vtags.antt =====
-- src/sv_parser/sieve.y: the tags of a vacation command, and the command that they build. What an
-- action of the grammar passes to `libsieve_sieveerror` before it gives up is part of its result.
use libsieve.Prelude.{
  zero, Bool, true, false, List, [], ◌∷◌, Option, none, some, Text, ℤ, pos, negsuc, codes,
  if◌then◌else◌,
}
use libsieve.Run.{Run, ok, ◌>>=◌}
use libsieve.Context.State.{Context}
use libsieve.Outside.{Outside}
use libsieve.Address.Parse.{addr_parse_buffer}
use libsieve.Script.Syntax.{Vacation}

-- `struct vtags`.
pub record Vtags : Type 0 where
  pub days : ℤ
  pub addresses : List Text
  pub subject : Option Text
  pub mime : ℤ
  pub from : Option Text
  pub handle : Option Text

unfoldable pub new_vtags : Vtags
new_vtags = record {
  days = negsuc 0;
  addresses = [];
  subject = none;
  mime = negsuc 0;
  from = none;
  handle = none;
}

-- A number in place of -1.
abbrev pub or_default : ℤ → ℤ → ℤ
or_default (negsuc zero) n = n
or_default z n = z

unfoldable pub canon_vtags : Vtags → Vtags
canon_vtags v = record v { days = or_default v.days (pos 7); mime = or_default v.mime (pos 0) }

unfoldable pub build_vacation : Vtags → Text → Vacation
build_vacation v reason = record {
  subject = v.subject;
  days = v.days;
  addresses = v.addresses;
  message = reason;
  mime = v.mime;
  from = v.from;
  handle = v.handle;
}

-- A tag with its argument, as the scanner and `stringlist` give it.
pub data Vtag : Type 0 where
  days : ℤ → Vtag
  addresses : List Text → Vtag
  subject : Text → Vtag
  handle : Text → Vtag
  from : Text → Vtag
  mime : Vtag

-- What an action comes to: the tags, or an error, with the message if the action reports one itself.
pub data Tagged : Type 0 where
  tagged : Vtags → Tagged
  refused : Option Text → Tagged

abbrev pub is_minus_one : ℤ → Bool
is_minus_one (negsuc zero) = true
is_minus_one z = false

unfoldable pub ok_header : Text → Bool
ok_header s = true

-- A string that is not there yet.
abbrev pub only_once : Option Text → Text → Text → Vtags → Tagged
only_once (some old) message s v = refused (some message)
only_once none message s v = if ok_header s then tagged v else refused none

module _ {R W : Type 0} (o : Outside R W) (mime_token : ℤ) where
  unfoldable pub verify_address : Text → Context W → Run (Bool × Context W)
  verify_address s c = do
    (addr, called) ← addr_parse_buffer o s c
    ok (elim addr [ none ↦ false | some list ↦ true ], called)

  -- `static_verify_stringlist` on the addresses.
  unfoldable pub verify_addresses : List Text → Context W → Run (Bool × Context W)
  unfolding verify_address
  verify_addresses [] c = ok (true, c)
  verify_addresses (s ∷ sl) c = do
    (valid, called) ← verify_address s c
    elim valid [ true ↦ verify_addresses sl called | false ↦ ok (false, called) ]

  -- The first `:addresses`.
  unfoldable pub add_addresses :
      List Text → List Text → Vtags → Context W → Run (Tagged × Context W)
  unfolding verify_addresses
  add_addresses (old ∷ more) sl v c = ok (refused (some (codes "duplicate :addresses")), c)
  add_addresses [] sl v c = do
    (valid, called) ← verify_addresses sl c
    ok (if valid then tagged (record v { addresses = sl }) else refused none, called)

  unfoldable pub add_vtag : Vtag → Vtags → Context W → Run (Tagged × Context W)
  unfolding add_addresses
  add_vtag (days n) v c = ok (
    if is_minus_one v.days
        then tagged (record v { days = n })
        else refused (some (codes "duplicate :days")),
    c,
  )
  add_vtag (addresses sl) v c = add_addresses v.addresses sl v c
  add_vtag (subject s) v c =
      ok (only_once v.subject (codes "duplicate :subject") s (record v { subject = some s }), c)
  add_vtag (handle s) v c =
      ok (only_once v.handle (codes "duplicate :handle") s (record v { handle = some s }), c)
  add_vtag (from s) v c =
      ok (only_once v.from (codes "duplicate :from") s (record v { from = some s }), c)
  add_vtag mime v c = ok (
    if is_minus_one v.mime
        then tagged (record v { mime = mime_token })
        else refused (some (codes "duplicate :mime")),
    c,
  )

  -- The tags of a command in order, until one is refused.
  unfoldable pub vtags : List Vtag → Vtags → Context W → Run (Tagged × Context W)
  vtags [] v c = ok (tagged v, c)
  vtags (tag ∷ tags) v c = do
    (result, called) ← add_vtag tag v c
    elim result [ tagged v' ↦ vtags tags v' called | refused msg ↦ ok (refused msg, called) ]

-- The command of a script that requires vacations.
unfoldable pub vacation_of : Vtags → Text → Vacation
unfolding canon_vtags build_vacation
vacation_of v reason = build_vacation (canon_vtags v) reason
