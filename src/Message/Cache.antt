-- ===== src/Message/Cache.antt =====
-- src/sv_interface/message2.c: a table of headers with open addressing. Allocation does not fail
-- in the model, and `char` is signed.
use libsieve.Prelude.{
  ℕ, zero, suc, ◌+◌, ◌-◌, ◌*◌, ◌%◌, Bool, true, false, ◌||◌, List, [], ◌∷◌, ◌++◌, map, Option, none,
  some, Text, length, get_elem?, set, replicate, ltb, leb, ◌==◌, if◌then◌else◌, ℤ, pos, negsuc,
}
use libsieve.Libc.{same_text, tolower}
use libsieve.Run.{
  Run, ok, fault, out_of_bounds, null_pointer, out_of_fuel, ◌>>=◌, sieve2_ok, error_fail,
  error_header,
}

-- `header_t`; `count` is the length of `contents`, which has room for `space` bodies and a NULL.
pub record Header : Type 0 where
  pub name : Text
  pub space : ℕ
  pub contents : List Text

-- `sieve2_message_t`, less the fields that no code reads; `hash` has `hashsize` places.
pub record Message : Type 0 where
  pub header : Option Text
  pub hashsize : ℕ
  pub hashfull : Bool
  pub hash : List (Option Header)

abbrev pub header_hash_size : ℕ
header_hash_size = 1019

unfoldable pub message2_alloc : Message
message2_alloc = record {
  header = none;
  hashsize = header_hash_size;
  hashfull = false;
  hash = replicate header_hash_size none;
}

iscntrl : ℕ → Bool
iscntrl c = ltb c 32 || c == 127

-- The value of a byte as a signed `char`.
unfoldable pub signed_char : ℕ → ℤ
signed_char c = if ltb c 128 then pos c else negsuc (255 - c)

-- `x % n`, with the sign of `x`.
unfoldable pub rem_ℤ : ℤ → ℕ → ℤ
rem_ℤ (pos x) n = pos (x % n)
rem_ℤ (negsuc x) n = elim (suc x % n) [ zero ↦ pos 0 | suc k ↦ negsuc k ]

-- `x * 256 + c`.
unfoldable pub shift_in : ℤ → ℤ → ℤ
shift_in (pos x) (pos c) = pos (x * 256 + c)
shift_in (pos x) (negsuc c) =
    if ltb c (x * 256) then pos (x * 256 - suc c) else negsuc (c - x * 256)
shift_in (negsuc x) (pos c) =
    if leb (suc x * 256) c then pos (c - suc x * 256) else negsuc (suc x * 256 - c - 1)
shift_in (negsuc x) (negsuc c) = negsuc (suc x * 256 + c)

-- The name ends at a control character, such as the NUL, at a space or a colon.
unfoldable pub ends_name : ℕ → Bool
unfolding iscntrl
ends_name c = iscntrl c || c == b' ' || c == b':'

unfoldable pub hash_loop : ℕ → ℤ → Text → ℤ
unfolding ends_name rem_ℤ shift_in signed_char
hash_loop hashsize x [] = x
hash_loop hashsize x (c ∷ header) =
    let more = hash_loop hashsize (rem_ℤ (shift_in x (signed_char c)) hashsize) header in
    if ends_name c then x else more

unfoldable pub hashheader : Text → ℕ → ℤ
unfolding hash_loop
hashheader header hashsize = hash_loop hashsize (pos 0) header

-- An index into the table: a negative hash lies outside of it.
unfoldable pub index_of : ℤ → Run ℕ
index_of (pos c) = ok c
index_of (negsuc c) = fault out_of_bounds

unfoldable pub read_slot : List (Option Header) → ℕ → Run (Option Header)
read_slot hash c = elim (get_elem? hash c) [ some slot ↦ ok slot | none ↦ fault out_of_bounds ]

unfoldable pub next_slot : ℕ → ℕ → ℕ
next_slot hashsize c = (c + 1) % hashsize

-- The first loop of `parseheader`: the place for a name, which is its own or a free one, or `cl`
-- again where the loop has gone round.
unfoldable pub find_place : ℕ → Message → Text → ℕ → ℕ → Run ℕ
unfolding next_slot
find_place zero m name cl c = fault out_of_fuel
find_place (suc f) m name cl c =
    let next = next_slot m.hashsize c in
    let on = find_place f m name cl next in
    read_slot m.hash c >>= elim [
      | none ↦ ok c
      | some h ↦ if same_text name h.name then ok c else if next == cl then ok next else on
    ]

-- A body is added behind the others; the array grows by eight where it is full.
unfoldable pub add_body : Text → Header → Header
add_body body h =
    if ltb (length h.contents) h.space
    then record h { contents = h.contents ++ body ∷ [] }
    else record h { contents = h.contents ++ body ∷ []; space = h.space + 8 }

-- `hl->h->contents[0]`; the parser makes headers with one body.
unfoldable pub first_body : Header → Run Text
first_body h = elim h.contents [ [] ↦ fault null_pointer | body ∷ _ ↦ ok body ]

-- A round of the second loop: the header goes to its place.
unfoldable pub insert_header : Header → Message → Run Message
unfolding find_place add_body first_body index_of read_slot
insert_header h m = do
  cl ← index_of (hashheader h.name m.hashsize)
  c ← find_place m.hashsize m h.name cl cl
  slot ← read_slot m.hash c
  elim slot [
    | none ↦ ok (record m { hash = set m.hash c (some h) })
    | some old ↦ do
      body ← first_body h
      ok (record m { hash = set m.hash c (some (add_body body old)) })
  ]

unfoldable pub insert_all : List Header → Message → Run Message
unfolding insert_header
insert_all [] m = ok m
insert_all (h ∷ hl) m = insert_header h m >>= insert_all hl

-- `hl` is what the header parser made of `m->header`: none for a null pointer.
unfoldable pub message2_parseheader : Option (List Header) → Message → Run (ℕ × Message)
unfolding insert_all
message2_parseheader none m = ok (error_header, m)
message2_parseheader (some hl) m = do
  filled ← insert_all hl m
  ok (sieve2_ok, record filled { hashfull = true })

-- The loop of `getheader`: the bodies under a name, if it is found.
unfoldable pub find_header : ℕ → Message → Text → ℕ → ℕ → Run (Option (List Text))
unfolding next_slot
find_header zero m name cl c = fault out_of_fuel
find_header (suc f) m name cl c =
    let next = next_slot m.hashsize c in
    let on = find_header f m name cl next in
    read_slot m.hash c >>= elim [
      | none ↦ ok none
      | some h ↦
          if same_text name h.name then ok (some h.contents) else if next == cl then ok none else on
    ]

unfoldable pub status_of : Option (List Text) → ℕ × Option (List Text)
status_of none = (error_fail, none)
status_of (some body) = (sieve2_ok, some body)

unfoldable pub getheader : Message → Text → Run (ℕ × Option (List Text))
unfolding find_header index_of status_of
getheader m chead = do
  let head = map tolower chead
  cl ← index_of (hashheader head m.hashsize)
  body ← find_header m.hashsize m head cl cl
  ok (status_of body)
