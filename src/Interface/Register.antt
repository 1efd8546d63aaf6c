-- ===== src/Interface/Register.antt =====
-- src/sv_interface/script2.c: the registration of callbacks and the list of extensions.
use libsieve.Prelude.{ℕ, Bool, true, List, [], ◌∷◌, Option, none, some, Text, codes, if◌then◌else◌}
use libsieve.Run.{Run, ok, fault, out_of_bounds, sieve2_ok, error_unsupported, error_badargs}
use libsieve.Context.Values.{
  Code, value_first, action_redirect, action_reject, action_discard, action_fileinto, action_keep,
  action_notify, action_vacation, errcall_runtime, errcall_parse, errcall_header, errcall_address,
  debug_trace, script_getscript, message_getheader, message_getallheaders, message_getsubaddress,
  message_getenvelope, message_getsize, message_getbody,
}
use libsieve.Context.State.{Handler, Callbacks}
use libsieve.Util.Buffers.{strconcat}

-- `struct support2`.
pub record Support : Type 0 where
  pub reject : Bool
  pub notify : Bool
  pub fileinto : Bool
  pub vacation : Bool
  pub envelope : Bool
  pub imap4flags : Bool
  pub regex : Bool
  pub subaddress : Bool
  pub relational : Bool

-- The parts of a context that registration changes.
pub record Registry : Type 0 where
  pub callbacks : Callbacks
  pub support : Support

-- `CBCASE`: the place of a code, if it has one.
unfoldable pub register_one : Code → Option Handler → Callbacks → Option Callbacks
register_one action_redirect f cb = some (record cb { redirect = f })
register_one action_reject f cb = some (record cb { reject = f })
register_one action_discard f cb = some (record cb { discard = f })
register_one action_fileinto f cb = some (record cb { fileinto = f })
register_one action_keep f cb = some (record cb { keep = f })
register_one action_notify f cb = some (record cb { notify = f })
register_one action_vacation f cb = some (record cb { vacation = f })
register_one errcall_runtime f cb = some (record cb { err_runtime = f })
register_one errcall_parse f cb = some (record cb { err_parse = f })
register_one errcall_header f cb = some (record cb { err_header = f })
register_one errcall_address f cb = some (record cb { err_address = f })
register_one debug_trace f cb = some (record cb { trace = f })
register_one script_getscript f cb = some (record cb { getscript = f })
register_one message_getheader f cb = some (record cb { getheader = f })
register_one message_getallheaders f cb = some (record cb { getallheaders = f })
register_one message_getsubaddress f cb = some (record cb { getsubaddress = f })
register_one message_getenvelope f cb = some (record cb { getenvelope = f })
register_one message_getsize f cb = some (record cb { getsize = f })
register_one message_getbody f cb = some (record cb { getbody = f })
register_one _ f cb = none

-- A flag of `support` is raised where there is a callback, and never taken down.
unfoldable pub raised : Option Handler → Bool → Bool
raised none b = b
raised (some f) b = true

unfoldable pub static_check_support : Callbacks → Support → Support
unfolding raised
static_check_support cb s = record s {
  fileinto = raised cb.fileinto s.fileinto;
  reject = raised cb.reject s.reject;
  envelope = raised cb.getenvelope s.envelope;
  subaddress = raised cb.getsubaddress s.subaddress;
  vacation = raised cb.vacation s.vacation;
  notify = raised cb.notify s.notify;
}

-- The loop over the client's array, which the value 0 ends. An unknown value stops it, and what
-- was registered stays.
unfoldable pub register_all : List (Code × Option Handler) → Registry → Run (ℕ × Registry)
unfolding register_one static_check_support
register_all [] r = fault out_of_bounds
register_all ((value_first, f) ∷ entries) r =
    ok (sieve2_ok, record r { support = static_check_support r.callbacks r.support })
register_all ((code, f) ∷ entries) r = elim (register_one code f r.callbacks) [
  | none ↦ ok (error_unsupported, r)
  | some cb ↦ register_all entries (record r { callbacks = cb })
]

-- The context is not null; `none` is a null array.
unfoldable pub sieve2_callbacks :
    Option (List (Code × Option Handler)) → Registry → Run (ℕ × Registry)
unfolding register_all
sieve2_callbacks none r = ok (error_badargs, r)
sieve2_callbacks (some entries) r = register_all entries r

-- The arguments of `libsieve_strconcat`, behind the first.
unfoldable pub more_extensions : Support → List Text
more_extensions s =
    codes "imap4flags "
    ∷ codes "relational "
    ∷ (if s.subaddress then codes "subaddress " else [])
    ∷ (if s.fileinto then codes "fileinto " else [])
    ∷ (if s.reject then codes "reject " else [])
    ∷ (if s.envelope then codes "envelope " else [])
    ∷ (if s.vacation then codes "vacation " else [])
    ∷ (if s.notify then codes "notify " else [])
    ∷ []

-- The string that is then kept in the context's buffer.
unfoldable pub sieve2_listextensions : Support → Run (Option Text)
unfolding more_extensions
sieve2_listextensions s = strconcat (codes "regex " ∷ more_extensions s)
