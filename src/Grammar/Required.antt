-- ===== src/Grammar/Required.antt =====
-- src/sv_parser/sieve.y: what a script may use after `require`.
use libsieve.Prelude.{
  ℕ, ◌<◌, Bool, true, false, not, ◌&&◌, ◌||◌, ◌++◌, length, append-nil, append_assoc, length-append,
  ◌==◌, List, [], ◌∷◌, Text, codes, any, ◌≡◌, ◌≢◌, ◌⊎◌, inl, inr, refl, sym, ap, ◌∙◌, arith,
  Bool-cases, if◌then◌else◌,
}
use libsieve.Libc.{same_text}
use libsieve.Run.{Returns, Returns-mono, Returns-bind}
use libsieve.Util.Joining.{strconcat-word}
use libsieve.Interface.Register.{Support}
use libsieve.Grammar.Require.{
  Feature, fileinto, reject, envelope, vacation, notify, subaddress, imap4flags, regex, relational,
  Named, feature, comparator, unknown, named, supports, assign, check, static_check_reqs,
  require_loop, Required, passed, refused, require,
}

-- Whether a script requires a feature.
abbrev pub requires : Support → Feature → Bool
requires r fileinto = r.fileinto
requires r reject = r.reject
requires r envelope = r.envelope
requires r vacation = r.vacation
requires r notify = r.notify
requires r subaddress = r.subaddress
requires r imap4flags = r.imap4flags
requires r regex = r.regex
requires r relational = r.relational

abbrev pub number_of : Feature → ℕ
number_of fileinto = 0
number_of reject = 1
number_of envelope = 2
number_of vacation = 3
number_of notify = 4
number_of subaddress = 5
number_of imap4flags = 6
number_of regex = 7
number_of relational = 8

requires-assign :
    (f g : Feature) (b : Bool) (r : Support)
    → requires (assign g b r) f ≡ (if number_of f == number_of g then b else requires r f)
unfolding assign
requires-assign f g b r = ground arith

-- Whether a library with this support has a feature: some depend on the callbacks, the others are
-- always there.
abbrev pub offers : Support → Feature → Bool
offers s fileinto = s.fileinto
offers s reject = s.reject
offers s envelope = s.envelope
offers s vacation = s.vacation
offers s notify = s.notify
offers s subaddress = s.subaddress
offers s imap4flags = true
offers s regex = true
offers s relational = true

supports-offers : (s : Support) (f : Feature) → supports s f ≡ offers s f
unfolding supports
supports-offers s fileinto = refl
supports-offers s reject = refl
supports-offers s envelope = refl
supports-offers s vacation = refl
supports-offers s notify = refl
supports-offers s subaddress = refl
supports-offers s imap4flags = refl
supports-offers s regex = refl
supports-offers s relational = refl

-- Whether a name is that of a feature.
abbrev pub is_named : Feature → Named → Bool
is_named f (feature g) = number_of f == number_of g
is_named f comparator = false
is_named f unknown = false

-- Whether a name can be required.
abbrev is_supported : Support → Named → Bool
is_supported support (feature g) = offers support g
is_supported support comparator = true
is_supported support unknown = false

-- A script requires, besides what it did, the features that it names, where they are supported.
abbrev pub Requires : Support → List Text → Support → Support → Type 0
Requires support sl r r' =
    (f : Feature)
    → requires r' f
      ≡ (if any (λ s. is_named f (named s)) sl then offers support f else requires r f)

same_offers :
    (support : Support) (f g : Feature)
    → (number_of f == number_of g) ≡ true
    → offers support g ≡ offers support f
unfolding supports
same_offers support f g e = ground arith

offered_as :
    (support : Support) (f g : Feature)
    → (number_of f == number_of g) ≡ true
    → supports support g ≡ offers support f
offered_as support f g e = supports-offers support g ∙ same_offers support f g e

check-requires :
    (support : Support) (n : Named) (r : Support) (f : Feature)
    → requires (check support n r).1 f ≡ (if is_named f n then offers support f else requires r f)
unfolding check
check-requires support (feature g) r f = elim (Bool-cases (number_of f == number_of g)) [
  | inl hit ↦ requires-assign f g _ r ∙ rw hit (same_offers support f g hit)
  | inr miss ↦ requires-assign f g _ r ∙ rw miss refl
]
check-requires support comparator r f = refl
check-requires support unknown r f = refl

check-is_supported :
    (support : Support) (n : Named) (r : Support) → (check support n r).0 ≡ is_supported support n
unfolding check
check-is_supported support (feature g) r = supports-offers support g
check-is_supported support comparator r = refl
check-is_supported support unknown r = refl

static_check_reqs-Requires :
    (support : Support) (s : Text) (sl : List Text) (r r' : Support)
    → Requires support sl (static_check_reqs support s r).1 r'
    → Requires support (s ∷ sl) r r'
unfolding static_check_reqs
static_check_reqs-Requires support s sl r r' later f =
    later f
    ∙ ap (λ b. if any (λ t. is_named f (named t)) sl then offers support f else b)
        (check-requires support (named s) r f)
    ∙ merged (is_named f (named s)) (any (λ t. is_named f (named t)) sl) (offers support f)
        (requires r f)
  where
    merged :
        (now after b c : Bool)
        → (if after then b else (if now then b else c))
          ≡ (if (if now then true else after) then b else c)
    merged now after b c = ground arith

-- All of the names can be required.
abbrev all_supported : Support → List Text → Bool
all_supported support [] = true
all_supported support (s ∷ sl) = is_supported support (named s) && all_supported support sl

-- The names that cannot be required, each behind a blank.
abbrev unsupported_names : Support → List Text → Text
unsupported_names support [] = []
unsupported_names support (s ∷ sl) =
    if is_supported support (named s)
    then unsupported_names support sl
    else codes " " ++ (s ++ unsupported_names support sl)

-- No name has the length at which the message misses the room for its NUL.
abbrev pub HaveRoom : List Text → Type 0
HaveRoom [] = Unit
HaveRoom (s ∷ sl) = (length s ≢ 255) × HaveRoom sl

-- What the loop leaves.
abbrev Looped : Support → List Text → Bool → Text → Support → (Bool × Text) × Support → Type 0
Looped support sl unsupp msg r ((u, msg'), r') =
    (u ≡ (unsupp || not (all_supported support sl)))
    × (msg' ≡ msg ++ unsupported_names support sl)
    × Requires support sl r r'

static_check_reqs-supported :
    (support : Support) (s : Text) (r : Support)
    → (static_check_reqs support s r).0 ≡ is_supported support (named s)
unfolding static_check_reqs
static_check_reqs-supported support s r = check-is_supported support (named s) r

known_first :
    (unsupp all now : Bool) → now ≡ true → (unsupp || not all) ≡ (unsupp || not (now && all))
known_first unsupp all now h = ground arith

unknown_first :
    (unsupp all now : Bool) → now ≡ false → (true || not all) ≡ (unsupp || not (now && all))
unknown_first unsupp all now h = ground arith

none_left : (unsupp : Bool) → unsupp ≡ (unsupp || not true)
none_left unsupp = ground arith

module _ (support : Support) where
  -- Behind a name.
  Looped-first :
      (s : Text) (sl : List Text) (unsupp u' : Bool) (msg msg' : Text) (r : Support)
      → (u' || not (all_supported support sl)) ≡ (unsupp || not (all_supported support (s ∷ sl)))
      → msg' ++ unsupported_names support sl ≡ msg ++ unsupported_names support (s ∷ sl)
      → (x : (Bool × Text) × Support)
      → Looped support sl u' msg' (static_check_reqs support s r).1 x
      → Looped support (s ∷ sl) unsupp msg r x
  Looped-first s sl unsupp u' msg msg' r e d ((u, m), r') (same, text, later) =
      (same ∙ e, text ∙ d, static_check_reqs-Requires support s sl r r' later)

  require_loop-Looped :
      (sl : List Text) (unsupp : Bool) (msg : Text) (r : Support)
      → 0 < length msg
      → HaveRoom sl
      → Returns (Looped support sl unsupp msg r) (require_loop support sl unsupp msg r)
  unfolding require_loop static_check_reqs same_text
  require_loop-Looped [] unsupp msg r h k = (none_left unsupp, sym (append-nil msg), λ f. refl)
  require_loop-Looped (s ∷ sl) unsupp msg r h (room, k) =
      let is = static_check_reqs-supported support s r in
      elim (Bool-cases (static_check_reqs support s r).0) [
        | inl hit ↦ rw hit (
            Returns-mono (Looped support sl unsupp msg _) (Looped support (s ∷ sl) unsupp msg r) _
              (Looped-first s sl unsupp unsupp msg msg r
                (known_first unsupp (all_supported support sl) _ (sym is ∙ hit))
                (rw (sym is ∙ hit) refl))
              (require_loop-Looped sl unsupp msg _ h k))
        | inr miss ↦
            rw (miss, strconcat-word msg s h room)
              (Returns-mono (Looped support sl true (msg ++ (codes " " ++ s)) _)
                (Looped support (s ∷ sl) unsupp msg r) _
                (Looped-first s sl unsupp true msg _ r
                  (unknown_first unsupp (all_supported support sl) _ (sym is ∙ miss))
                  (rw (sym is ∙ miss) (append_assoc msg (codes " " ++ s) _)))
                (require_loop-Looped sl true (msg ++ (codes " " ++ s)) _
                  (omega (arith, h, length-append msg (codes " " ++ s))) k))
      ]

-- What a require command comes to.
abbrev pub Answers : Support → List Text → Required → Type 0
Answers support sl result =
    ((all_supported support sl ≡ true) × (result ≡ passed))
    ⊎ ((all_supported support sl ≡ false)
        × (result ≡ refused (codes "unsupported feature:" ++ unsupported_names support sl)))

answer :
    (all u : Bool) (msg : Text)
    → u ≡ not all
    → ((all ≡ true) × ((if u then refused msg else passed) ≡ passed))
      ⊎ ((all ≡ false) × ((if u then refused msg else passed) ≡ refused msg))
answer true u msg e = inl (refl, rw e refl)
answer false u msg e = inr (refl, rw e refl)

-- A require command without a name of 255 bytes returns. If its names are all those of comparators
-- or of supported features, it passes. Otherwise it is refused, with a message that lists the other
-- names in order. In both cases, the features that a script requires afterwards are those that the
-- command names and the library supports, and of those that it does not name the ones that were
-- required before.
pub require-Requires :
    (support : Support) (sl : List Text) (r : Support)
    → HaveRoom sl
    → Returns
        (λ (result, r'). Answers support sl result × Requires support sl r r')
        (require support sl r)
unfolding require
require-Requires support sl r h =
    Returns-bind (Looped support sl false (codes "unsupported feature:") r)
      (λ (result, r'). Answers support sl result × Requires support sl r r')
      (require_loop support sl false (codes "unsupported feature:") r) _
      (require_loop-Looped support sl false (codes "unsupported feature:") r (omega arith) h)
      (λ ((u, msg), r') (e, text, q). (rw text (answer (all_supported support sl) u _ e), q))
