-- ===== src/Address/Parse.antt =====
-- src/sv_parser/addr.y: the code round the generated parser of addresses.
use libsieve.Prelude.{List, [], ◌∷◌, Option, none, some, Text, if◌then◌else◌}
use libsieve.Run.{Run, ok, ◌>>=◌}
use libsieve.Context.State.{Context}
use libsieve.Callbacks.Actions.{do_error_address}
use libsieve.Outside.{Address, Outside}

-- The list behind the top struct is copied; `none` where there is nothing behind it.
unfoldable addrstructcopy : List Address → Option (List Address)
addrstructcopy [] = none
addrstructcopy (a ∷ rest) = some (a ∷ rest)

module _ {R W : Type 0} (o : Outside R W) where
  -- `libsieve_addrerror`; nothing reads `exec_errors`.
  unfoldable pub addrerror : Text → Context W → Run (Context W)
  addrerror msg c = do (status, called) ← do_error_address o.respond (some msg) c; ok called

  unfoldable pub addrerrors : List Text → Context W → Run (Context W)
  unfolding addrerror
  addrerrors [] c = ok c
  addrerrors (msg ∷ messages) c = addrerror msg c >>= addrerrors messages

  -- `*data` is null on every call.
  unfoldable pub addr_parse_buffer : Text → Context W → Run (Option (List Address) × Context W)
  unfolding addrerrors addrstructcopy
  addr_parse_buffer text c = do
    let parsed = o.addrparse text
    called ← addrerrors parsed.messages c
    ok (if parsed.fails then none else addrstructcopy parsed.others, called)
