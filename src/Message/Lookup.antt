-- ===== src/Message/Lookup.antt =====
-- src/sv_interface/message2.c, `getheader`: the walk through the table ends, inside its bounds.
use libsieve.Prelude.{
  ℕ, zero, suc, ◌+◌, ◌-◌, ◌*◌, ◌%◌, ◌≤◌, ◌<◌, true, false, List, [], ◌∷◌, map, Option, none, some,
  Text, length, get_elem?, lt→ltb, ◌==◌, pos, ◌≡◌, ◌⊎◌, inl, inr, refl, arith, Bool-cases,
  Option-cases,
}
use libsieve.Libc.{same_text, tolower}
use libsieve.Run.{ok, ◌>>=◌, Returns, Returns-bind, sieve2_ok, error_fail}
use libsieve.Message.Cache.{
  Header, Message, signed_char, rem_ℤ, shift_in, ends_name, hash_loop, hashheader, index_of,
  read_slot, next_slot, find_header, getheader, status_of,
}

-- A table with all its places.
pub record IsTable (m : Message) : Type 0 where
  pub size : m.hashsize ≡ 1019
  pub places : length m.hash ≡ 1019

abbrev pub IsAscii : Text → Type 0
IsAscii [] = Unit
IsAscii (c ∷ s) = (c < 128) × IsAscii s

-- The bodies are those of a header of the table with the name.
abbrev pub IsBodyOf : Message → Text → List Text → Type 0
IsBodyOf m name body =
    (i : ℕ) × (h : Header) × (get_elem? m.hash i ≡ some (some h))
    × (same_text name h.name ≡ true)
    × (body ≡ h.contents)

abbrev Looked : Message → Text → Option (List Text) → Type 0
Looked m name none = Unit
Looked m name (some body) = IsBodyOf m name body

get_elem?-in :
    {A : Type 0} (xs : List A) (i : ℕ) → i < length xs → (x : A) × (get_elem? xs i ≡ some x)
get_elem?-in [] i h = absurd (omega arith)
get_elem?-in (x ∷ xs) zero h = (x, refl)
get_elem?-in (x ∷ xs) (suc i) h = get_elem?-in xs i (omega arith)

pub slot-cases :
    (hash : List (Option Header)) (c : ℕ)
    → c < length hash
    → (get_elem? hash c ≡ some none) ⊎ ((h : Header) × (get_elem? hash c ≡ some (some h)))
slot-cases hash c below =
    let (slot, e) = get_elem?-in hash c below in
    elim (Option-cases slot) [
      | inl free ↦ inl (rw free at e)
      | inr taken ↦ inr (taken.0, rw taken.1 at e)
    ]

pub read_slot-in :
    (hash : List (Option Header)) (c : ℕ) (slot : Option Header)
    → get_elem? hash c ≡ some slot
    → read_slot hash c ≡ ok slot
unfolding read_slot
read_slot-in hash c slot e = rw (read_slot, e) refl

module _ (m : Message) (table : IsTable m) (name : Text) (cl f c : ℕ) where
  walk_free : get_elem? m.hash c ≡ some none → find_header (suc f) m name cl c ≡ ok none
  unfolding find_header
  walk_free e = rw (read_slot-in m.hash c none e) refl

  module _ (h : Header) (e : get_elem? m.hash c ≡ some (some h)) where
    walk_found :
        same_text name h.name ≡ true → find_header (suc f) m name cl c ≡ ok (some h.contents)
    unfolding find_header
    walk_found same = rw (read_slot-in m.hash c (some h) e, same) refl

    walk_round :
        same_text name h.name ≡ false
        → (((c + 1) % 1019) == cl) ≡ true
        → find_header (suc f) m name cl c ≡ ok none
    unfolding find_header next_slot
    walk_round other round = rw (read_slot-in m.hash c (some h) e, other, table.size, round) refl

    walk_on :
        same_text name h.name ≡ false
        → (((c + 1) % 1019) == cl) ≡ false
        → find_header (suc f) m name cl c ≡ find_header f m name cl ((c + 1) % 1019)
    unfolding find_header next_slot
    walk_on other further = rw (read_slot-in m.hash c (some h) e, other, table.size, further) refl

-- Where the walk is at its start again after one more step, no more than that is left.
pub not_round :
    (c r cl : ℕ) → (c + r) % 1019 ≡ cl → (((c + 1) % 1019) == cl) ≡ false → 0 < r → 1 < r
not_round c r cl back further h = ground arith

-- With `r` rounds to go before the walk is at its start again.
find_header-Looked :
    (m : Message) (table : IsTable m) (name : Text) (cl f r c : ℕ)
    → c < 1019
    → r ≤ f
    → 0 < r
    → (c + r) % 1019 ≡ cl
    → Returns (Looked m name) (find_header f m name cl c)
find_header-Looked m table name cl zero r c below enough left back = absurd (omega arith)
find_header-Looked m table name cl (suc f) r c below enough left back =
    elim (slot-cases m.hash c (rw table.places below)) [
      | inl e ↦ rw (walk_free m table name cl f c e) tt
      | inr taken ↦
          let (h, e) = taken in
          elim (Bool-cases (same_text name h.name)) [
            | inl same ↦ rw (walk_found m table name cl f c h e same) (c, h, e, same, refl)
            | inr other ↦ elim (Bool-cases (((c + 1) % 1019) == cl)) [
              | inl round ↦ rw (walk_round m table name cl f c h e other round) tt
              | inr further ↦
                  let more = not_round c r cl back further left in
                  rw (walk_on m table name cl f c h e other further) (
                    find_header-Looked m table name cl f (r - 1) ((c + 1) % 1019) (omega arith)
                      (omega arith) (omega (arith, more)) (omega (arith, more)))
            ]
          ]
    ]

shifted :
    (x c : ℕ) → c < 128 → rem_ℤ (shift_in (pos x) (signed_char c)) 1019 ≡ pos ((x * 256 + c) % 1019)
unfolding rem_ℤ shift_in signed_char
shifted x c h = rw (lt→ltb c 128 h) refl

-- A name of bytes below 128 hashes to a place of the table.
pub hash_loop-pos :
    (s : Text) (x : ℕ)
    → IsAscii s
    → x < 1019
    → (n : ℕ) × (hash_loop 1019 (pos x) s ≡ pos n) × (n < 1019)
unfolding hash_loop
hash_loop-pos [] x a h = (x, refl, h)
hash_loop-pos (c ∷ s) x a h = elim (Bool-cases (ends_name c)) [
  | inl ended ↦ (x, rw ended refl, h)
  | inr inside ↦
      let (n, run, below) = hash_loop-pos s ((x * 256 + c) % 1019) a.1 (omega arith) in
      (n, rw (inside, shifted x c a.0) run, below)
]

tolower-ascii : (c : ℕ) → c < 128 → tolower c < 128
unfolding tolower
tolower-ascii c h = ground arith

pub IsAscii-lower : (s : Text) → IsAscii s → IsAscii (map tolower s)
IsAscii-lower [] a = tt
IsAscii-lower (c ∷ s) a = (tolower-ascii c a.0, IsAscii-lower s a.1)

-- What a lookup comes to: the bodies of a header of the table that has the name in lower case, or
-- the status of a failure.
abbrev pub LooksUp : Message → Text → ℕ × Option (List Text) → Type 0
LooksUp m name (status, none) = status ≡ error_fail
LooksUp m name (status, some body) = (status ≡ sieve2_ok) × IsBodyOf m (map tolower name) body

getheader-walk :
    (m : Message) (name : Text) (cl : ℕ)
    → index_of (hashheader (map tolower name) m.hashsize) ≡ ok cl
    → getheader m name
      ≡ (find_header m.hashsize m (map tolower name) cl cl >>= λ body. ok (status_of body))
unfolding getheader
getheader-walk m name cl e = rw e refl

pub index_of-hash :
    (m : Message) (head : Text) (cl : ℕ)
    → m.hashsize ≡ 1019
    → hash_loop 1019 (pos 0) head ≡ pos cl
    → index_of (hashheader head m.hashsize) ≡ ok cl
unfolding hashheader index_of
index_of-hash m head cl size e = rw (size, e) refl

answered :
    (m : Message) (name : Text) (found : Option (List Text))
    → Looked m (map tolower name) found
    → LooksUp m name (status_of found)
unfolding status_of
answered m name none l = refl
answered m name (some body) l = (refl, l)

-- In a table with all its places a name of bytes below 128 is looked up inside the table, and the
-- walk ends: the answer is the bodies of a header of the table that has the name in lower case,
-- with the status of success, or none with that of a failure.
pub getheader-LooksUp :
    (m : Message) (name : Text)
    → IsTable m
    → IsAscii name
    → Returns (LooksUp m name) (getheader m name)
getheader-LooksUp m name table a =
    let head = map tolower name in
    let (cl, run, below) = hash_loop-pos head 0 (IsAscii-lower name a) (omega arith) in
    rw (getheader-walk m name cl (index_of-hash m head cl table.size run)) (
      Returns-bind (Looked m head) (LooksUp m name) (find_header m.hashsize m head cl cl) _
        (find_header-Looked m table head cl m.hashsize 1019 cl below (omega (arith, table.size))
          (omega arith) (omega (arith, below)))
        (answered m name))
