-- ===== src/Grammar/Require.antt =====
-- src/sv_parser/sieve.y: `require`, with `static_check_reqs`.
use libsieve.Prelude.{Bool, true, false, List, [], ◌∷◌, none, some, Text, codes, if◌then◌else◌}
use libsieve.Libc.{same_text}
use libsieve.Run.{Run, ok, fault, null_pointer, ◌>>=◌}
use libsieve.Util.Buffers.{strconcat}
use libsieve.Interface.Register.{Support}

-- The members of `struct support2` that a script can require.
pub data Feature : Type 0 where
  fileinto reject envelope vacation notify subaddress imap4flags regex relational : Feature

-- What a name stands for.
pub data Named : Type 0 where
  feature : Feature → Named
  comparator unknown : Named

unfoldable pub named : Text → Named
named req =
    if same_text (codes "fileinto") req
    then feature fileinto
    else if same_text (codes "reject") req
    then feature reject
    else if same_text (codes "envelope") req
    then feature envelope
    else if same_text (codes "vacation") req
    then feature vacation
    else if same_text (codes "notify") req
    then feature notify
    else if same_text (codes "subaddress") req
    then feature subaddress
    else if same_text (codes "imap4flags") req
    then feature imap4flags
    else if same_text (codes "regex") req
    then feature regex
    else if same_text (codes "relational") req
    then feature relational
    else if same_text (codes "comparator-i;octet") req
    then comparator
    else if same_text (codes "comparator-i;ascii-casemap") req
    then comparator
    else if same_text (codes "comparator-i;ascii-numeric") req
    then comparator
    else unknown

-- Three of them are built into the parser.
unfoldable pub supports : Support → Feature → Bool
supports s fileinto = s.fileinto
supports s reject = s.reject
supports s envelope = s.envelope
supports s vacation = s.vacation
supports s notify = s.notify
supports s subaddress = s.subaddress
supports s imap4flags = true
supports s regex = true
supports s relational = true

-- The assignment to a member.
unfoldable pub assign : Feature → Bool → Support → Support
assign fileinto b r = record r { fileinto = b }
assign reject b r = record r { reject = b }
assign envelope b r = record r { envelope = b }
assign vacation b r = record r { vacation = b }
assign notify b r = record r { notify = b }
assign subaddress b r = record r { subaddress = b }
assign imap4flags b r = record r { imap4flags = b }
assign regex b r = record r { regex = b }
assign relational b r = record r { relational = b }

-- The result and the assignment; a name that is not known is not supported.
unfoldable pub check : Support → Named → Support → Bool × Support
unfolding supports assign
check support (feature f) r = (supports support f, assign f (supports support f) r)
check support comparator r = (true, r)
check support unknown r = (false, r)

unfoldable pub static_check_reqs : Support → Text → Support → Bool × Support
unfolding named check
static_check_reqs support req r = check support (named req) r

-- The loop over the names: `unsupp`, the message, and what is required.
unfoldable pub require_loop :
    Support → List Text → Bool → Text → Support → Run ((Bool × Text) × Support)
require_loop support [] unsupp msg r = ok ((unsupp, msg), r)
require_loop support (s ∷ sl) unsupp msg r =
    let (known, r') = static_check_reqs support s r in
    elim known [
      | true ↦ require_loop support sl unsupp msg r'
      | false ↦ strconcat (msg ∷ codes " " ∷ s ∷ []) >>= λ joined. elim joined [
        | none ↦ fault null_pointer
        | some text ↦ require_loop support sl true text r'
      ]
    ]

-- The action of the rule: it passes, or reports the message and gives up.
pub data Required : Type 0 where
  passed : Required
  refused : Text → Required

unfoldable pub require : Support → List Text → Support → Run (Required × Support)
unfolding require_loop
require support sl r =
    require_loop support sl false (codes "unsupported feature:") r >>= λ ((unsupp, msg), r').
    ok (if unsupp then refused msg else passed, r')
