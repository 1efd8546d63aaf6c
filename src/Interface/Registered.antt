-- ===== src/Interface/Registered.antt =====
-- src/sv_interface/script2.c: what is registered is what is called, and the list of extensions.
use libsieve.Prelude.{
  ℕ, ◌≤◌, Bool, true, false, List, [], ◌∷◌, ◌++◌, Option, none, some, Text, codes, ◌+◌, length,
  length-append, if◌then◌else◌, ◌≡◌, ◌≢◌, Option-cases, refl, ◌∙◌, ap, arith, inl, inr,
}
use libsieve.Run.{Run, ok, Returns, Returns-mono, sieve2_ok, error_unsupported}
use libsieve.Context.Values.{
  Code, value_first, action_denotify, action_setflag, action_addflag, action_removeflag,
  action_mark, action_unmark, action_fileinto, action_reject, action_vacation, action_notify,
  message_getenvelope, message_getsubaddress, script_getsize, value_last, same_code, Code-discrete,
}
use libsieve.Context.State.{Handler, Callbacks, handler_of}
use libsieve.Util.Buffers.{strconcat}
use libsieve.Util.Joining.{concat, strconcat-Joins}
use libsieve.Grammar.Require.{Feature, feature, named}
use libsieve.Grammar.Required.{offers}
use libsieve.Grammar.Missing.{name_of, named-name_of}
use libsieve.Interface.Register.{
  Support, Registry, raised, register_one, static_check_support, register_all, sieve2_callbacks,
  more_extensions, sieve2_listextensions,
}
use mathlib.Core.Bool.{decide, false≢true}

-- The place of `k` has the function, and the others are as they were.
abbrev Placed : Code → Option Handler → Callbacks → Option Callbacks → Code → Type 0
Placed k f cb none code = Unit
Placed k f cb (some cb') code =
    handler_of code cb' ≡ (if same_code k code then f else handler_of code cb)

register_one-Placed :
    (k code : Code) (f : Option Handler) (cb : Callbacks) → Placed k f cb (register_one k f cb) code
unfolding register_one handler_of same_code Code-discrete decide
register_one-Placed k code f cb = ground arith

register_one-places :
    (k code : Code) (f : Option Handler) (cb cb' : Callbacks)
    → register_one k f cb ≡ some cb'
    → handler_of code cb' ≡ (if same_code k code then f else handler_of code cb)
register_one-places k code f cb cb' e =
    let placed = register_one-Placed k code f cb in rw e at placed

-- The codes that have a place among the callbacks.
abbrev has_place : Code → Bool
has_place value_first = false
has_place action_denotify = false
has_place action_setflag = false
has_place action_addflag = false
has_place action_removeflag = false
has_place action_mark = false
has_place action_unmark = false
has_place script_getsize = false
has_place value_last = false
has_place _ = true

register_one-none :
    (k : Code) (f : Option Handler) (cb : Callbacks)
    → has_place k ≡ true
    → register_one k f cb ≢ none
unfolding register_one
register_one-none k f cb h = ground arith

-- The loop behind the place of a code.
abbrev go_on : List (Code × Option Handler) → Registry → Option Callbacks → Run (ℕ × Registry)
go_on entries r none = ok (error_unsupported, r)
go_on entries r (some cb) = register_all entries (record r { callbacks = cb })

register_all-step :
    (k : Code) (f : Option Handler) (entries : List (Code × Option Handler)) (r : Registry)
    → has_place k ≡ true
    → register_all ((k, f) ∷ entries) r ≡ go_on entries r (register_one k f r.callbacks)
unfolding register_all register_one
register_all-step value_first f entries r h = absurd (false≢true h)
register_all-step _ f entries r h = refl

-- The function that an array leaves in the place of a code, where another was before.
abbrev latest : Code → List (Code × Option Handler) → Option Handler → Option Handler
latest code [] old = old
latest code ((k, f) ∷ entries) old = latest code entries (if same_code k code then f else old)

abbrev HavePlaces : List (Code × Option Handler) → Type 0
HavePlaces [] = Unit
HavePlaces ((k, f) ∷ entries) = (has_place k ≡ true) × HavePlaces entries

abbrev pub is_there : Option Handler → Bool
is_there none = false
is_there (some f) = true

-- An extension is marked if it was before, or a function is called for its code.
abbrev pub marked : Code → Callbacks → Bool → Bool
marked code cb before = if is_there (handler_of code cb) then true else before

-- The extensions after a registration that leaves these callbacks.
abbrev pub Marks : Callbacks → Support → Support → Type 0
Marks cb s s' =
    (s'.fileinto ≡ marked action_fileinto cb s.fileinto)
    × (s'.reject ≡ marked action_reject cb s.reject)
    × (s'.vacation ≡ marked action_vacation cb s.vacation)
    × (s'.notify ≡ marked action_notify cb s.notify)
    × (s'.envelope ≡ marked message_getenvelope cb s.envelope)
    × (s'.subaddress ≡ marked message_getsubaddress cb s.subaddress)
    × (s'.imap4flags ≡ s.imap4flags)
    × (s'.regex ≡ s.regex)
    × (s'.relational ≡ s.relational)

raised-marked : (f : Option Handler) (b : Bool) → raised f b ≡ (if is_there f then true else b)
unfolding raised
raised-marked none b = refl
raised-marked (some f) b = refl

static_check_support-Marks : (cb : Callbacks) (s : Support) → Marks cb s (static_check_support cb s)
unfolding static_check_support handler_of
static_check_support-Marks cb s = (
  raised-marked cb.fileinto s.fileinto,
  raised-marked cb.reject s.reject,
  raised-marked cb.vacation s.vacation,
  raised-marked cb.notify s.notify,
  raised-marked cb.getenvelope s.envelope,
  raised-marked cb.getsubaddress s.subaddress,
  refl,
  refl,
  refl,
)

abbrev pub Registers : List (Code × Option Handler) → Registry → ℕ × Registry → Type 0
Registers entries r (status, r') =
    (status ≡ sieve2_ok)
    × ((code : Code)
        → handler_of code r'.callbacks ≡ latest code entries (handler_of code r.callbacks))
    × Marks r'.callbacks r.support r'.support

register_all-last :
    (end : Option Handler) (r : Registry)
    → Returns (Registers [] r) (register_all ((value_first, end) ∷ []) r)
unfolding register_all
register_all-last end r = (refl, λ code. refl, static_check_support-Marks r.callbacks r.support)

register_all-Registers :
    (entries : List (Code × Option Handler)) (end : Option Handler) (r : Registry)
    → HavePlaces entries
    → Returns (Registers entries r) (register_all (entries ++ (value_first, end) ∷ []) r)
register_all-Registers [] end r h = register_all-last end r
register_all-Registers ((k, f) ∷ entries) end r h =
    elim (Option-cases (register_one k f r.callbacks)) [
      | inl missing ↦ absurd (register_one-none k f r.callbacks h.0 missing)
      | inr placed ↦
          let (cb, e) = placed in
          let all = entries ++ (value_first, end) ∷ [] in
          let r₁ = record r { callbacks = cb } in
          rw (register_all-step k f all r h.0, e)
            (Returns-mono (Registers entries r₁) (Registers ((k, f) ∷ entries) r)
              (register_all all r₁)
              (λ (status, r') p. (
                p.0,
                λ code.
                    p.1 code
                    ∙ ap (latest code entries) (register_one-places k code f r.callbacks cb e),
                p.2,
              ))
              (register_all-Registers entries end r₁ h.1))
    ]

-- An array of which each code has a place, with the value 0 behind the last, is registered: the
-- function called for a code is then the last one in the array for it, or else the one before.
-- The extensions for which a function is called then are marked as supported, `fileinto`, `reject`,
-- `vacation`, `notify`, `envelope` and `subaddress` each by the function of its own code, besides those
-- that were marked before; the marks of the three others stay as they were.
pub sieve2_callbacks-Registers :
    (entries : List (Code × Option Handler)) (end : Option Handler) (r : Registry)
    → HavePlaces entries
    → Returns (Registers entries r) (sieve2_callbacks (some (entries ++ (value_first, end) ∷ [])) r)
unfolding sieve2_callbacks
sieve2_callbacks-Registers = register_all-Registers

-- The strings come to at most `n` bytes.
record AtMost (strs : List Text) (n : ℕ) : Type 0 where
  bound : length (concat strs) ≤ n

optional :
    (b : Bool) (str : Text) {strs : List Text} {n : ℕ}
    → AtMost strs n
    → AtMost ((if b then str else []) ∷ strs) (length str + n)
optional true str {strs} h = record {
  bound = omega (arith, h.bound, length-append str (concat strs));
}
optional false str h = record { bound = omega (arith, h.bound) }

nothing : AtMost [] 0
nothing = record { bound = omega arith }

more_extensions-AtMost : (s : Support) → AtMost (more_extensions s) 74
unfolding more_extensions
more_extensions-AtMost s = optional true (codes "imap4flags ") (
    optional true (codes "relational ") (
      optional s.subaddress (codes "subaddress ") (
        optional s.fileinto (codes "fileinto ") (
          optional s.reject (codes "reject ") (
            optional s.envelope (codes "envelope ") (
              optional s.vacation (codes "vacation ")
                (optional s.notify (codes "notify ") nothing)))))))

-- The names of the features that are listed, each with a blank behind it.
abbrev pub listing : Support → List Feature → Text
listing s [] = []
listing s (f ∷ fs) = (if offers s f then name_of f ++ codes " " else []) ++ listing s fs

abbrev pub listing_order : List Feature
listing_order =
    Feature.regex ∷ Feature.imap4flags ∷ Feature.relational ∷ Feature.subaddress ∷ Feature.fileinto
    ∷ Feature.reject ∷ Feature.envelope ∷ Feature.vacation ∷ Feature.notify ∷ []

more_extensions-listing :
    (s : Support) → codes "regex " ++ concat (more_extensions s) ≡ listing s listing_order
unfolding more_extensions
more_extensions-listing s = refl

-- Whatever is supported, the list of extensions fits its buffer: it has the names of regex, imap4flags
-- and relational, and behind them those of subaddress, fileinto, reject, envelope, vacation and
-- notify as far as they are supported, in this order and each with a blank behind it. These are the
-- names that `require` knows the extensions by.
pub sieve2_listextensions-joins :
    (s : Support)
    → (sieve2_listextensions s ≡ ok (some (listing s listing_order)))
      × ((f : Feature) → named (name_of f) ≡ feature f)
unfolding sieve2_listextensions
sieve2_listextensions-joins s =
    let short = (more_extensions-AtMost s).bound in
    let joined : strconcat (codes "regex " ∷ more_extensions s)
        ≡ ok (some (codes "regex " ++ concat (more_extensions s))) =
      elim (strconcat-Joins (codes "regex ") (more_extensions s) (omega arith)
        (omega (arith, short))) [
          | inl fit ↦ fit.1
          | inr full ↦ absurd (omega (arith, full.0, short))
        ] in
    (joined ∙ ap (λ t. ok (some t)) (more_extensions-listing s), named-name_of)
