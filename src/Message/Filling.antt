-- ===== src/Message/Filling.antt =====
-- src/sv_interface/message2.c, `libsieve_message2_parseheader`: the table is filled inside its
-- bounds.
use libsieve.Prelude.{
  ℕ, zero, suc, ◌+◌, ◌-◌, ◌%◌, ◌≤◌, ◌<◌, true, false, List, [], ◌∷◌, none, some, Text, length,
  get_elem?, set, ◌==◌, ◌≡◌, inl, inr, refl, arith, Bool-cases,
}
use libsieve.Libc.{same_text}
use libsieve.Run.{
  Run, ok, fault, null_pointer, ◌>>=◌, Returns, Returns-bind, value_of_Returns, sieve2_ok,
}
use libsieve.Message.Cache.{
  Header, Message, hashheader, index_of, read_slot, next_slot, find_place, add_body, first_body,
  insert_header, insert_all, message2_parseheader,
}
use libsieve.Message.Lookup.{
  IsTable, IsAscii, slot-cases, read_slot-in, not_round, hash_loop-pos, index_of-hash,
}

module _ (m : Message) (table : IsTable m) (name : Text) (cl f c : ℕ) where
  place_free : get_elem? m.hash c ≡ some none → find_place (suc f) m name cl c ≡ ok c
  unfolding find_place
  place_free e = rw (read_slot-in m.hash c none e) refl

  module _ (h : Header) (e : get_elem? m.hash c ≡ some (some h)) where
    place_own : same_text name h.name ≡ true → find_place (suc f) m name cl c ≡ ok c
    unfolding find_place
    place_own same = rw (read_slot-in m.hash c (some h) e, same) refl

    place_round :
        same_text name h.name ≡ false
        → (((c + 1) % 1019) == cl) ≡ true
        → find_place (suc f) m name cl c ≡ ok ((c + 1) % 1019)
    unfolding find_place next_slot
    place_round other round = rw (read_slot-in m.hash c (some h) e, other, table.size, round) refl

    place_on :
        same_text name h.name ≡ false
        → (((c + 1) % 1019) == cl) ≡ false
        → find_place (suc f) m name cl c ≡ find_place f m name cl ((c + 1) % 1019)
    unfolding find_place next_slot
    place_on other further = rw (read_slot-in m.hash c (some h) e, other, table.size, further) refl

find_place-below :
    (m : Message) (table : IsTable m) (name : Text) (cl f r c : ℕ)
    → c < 1019
    → r ≤ f
    → 0 < r
    → (c + r) % 1019 ≡ cl
    → Returns (λ p. p < 1019) (find_place f m name cl c)
find_place-below m table name cl zero r c below enough left back = absurd (omega arith)
find_place-below m table name cl (suc f) r c below enough left back =
    elim (slot-cases m.hash c (rw table.places below)) [
      | inl e ↦ rw (place_free m table name cl f c e) below
      | inr taken ↦
          let (h, e) = taken in
          elim (Bool-cases (same_text name h.name)) [
            | inl same ↦ rw (place_own m table name cl f c h e same) below
            | inr other ↦ elim (Bool-cases (((c + 1) % 1019) == cl)) [
              | inl round ↦ rw (place_round m table name cl f c h e other round) (omega arith)
              | inr further ↦
                  let more = not_round c r cl back further left in
                  rw (place_on m table name cl f c h e other further) (
                    find_place-below m table name cl f (r - 1) ((c + 1) % 1019) (omega arith)
                      (omega arith) (omega (arith, more)) (omega (arith, more)))
            ]
          ]
    ]

length-set : {A : Type 0} (xs : List A) (i : ℕ) (x : A) → length (set xs i x) ≡ length xs
length-set [] i x = refl
length-set (y ∷ xs) zero x = refl
length-set (y ∷ xs) (suc i) x = omega (arith, length-set xs i x)

-- What the header parser makes: a name of bytes below 128 and at least one body.
pub record IsParsed (h : Header) : Type 0 where
  pub name : IsAscii h.name
  pub body : 0 < length h.contents

put : Header → Message → ℕ → Run Message
put h m c = read_slot m.hash c >>= elim [
  | none ↦ ok (record m { hash = set m.hash c (some h) })
  | some old ↦
      first_body h >>= λ body. ok (record m { hash = set m.hash c (some (add_body body old)) })
]

put_free :
    (h : Header) (m : Message) (c : ℕ)
    → get_elem? m.hash c ≡ some none
    → put h m c ≡ ok (record m { hash = set m.hash c (some h) })
unfolding put
put_free h m c e = rw (read_slot-in m.hash c none e) refl

put_behind :
    (h old : Header) (m : Message) (c : ℕ) (body : Text)
    → get_elem? m.hash c ≡ some (some old)
    → first_body h ≡ ok body
    → put h m c ≡ ok (record m { hash = set m.hash c (some (add_body body old)) })
unfolding put
put_behind h old m c body e first = rw (read_slot-in m.hash c (some old) e, first) refl

first_body-there : (h : Header) → 0 < length h.contents → (body : Text) × (first_body h ≡ ok body)
unfolding first_body
first_body-there h there =
    elim h.contents
        as (λ contents.
          0 < length contents
          → (body : Text) × ((elim contents as (λ x. Run Text) [
            | [] ↦ fault null_pointer
            | body ∷ _ ↦ ok body
          ])
              ≡ ok body)) [
                | [] ↦ λ none_there. absurd (omega arith)
                | body ∷ bodies ↦ λ some_there. (body, refl)
              ]
      there

put-IsTable :
    (h : Header) (m : Message) (c : ℕ)
    → IsParsed h
    → IsTable m
    → c < 1019
    → Returns IsTable (put h m c)
put-IsTable h m c parsed table below = elim (slot-cases m.hash c (rw table.places below)) [
  | inl e ↦ rw (put_free h m c e) (record {
    size = table.size;
    places = omega (arith, table.places, length-set m.hash c (some h));
  })
  | inr taken ↦
      let (old, e) = taken in
      let (body, first) = first_body-there h parsed.body in
      rw (put_behind h old m c body e first) (record {
        size = table.size;
        places = omega (arith, table.places, length-set m.hash c (some (add_body body old)));
      })
]

insert_header-put :
    (h : Header) (m : Message) (cl c : ℕ)
    → index_of (hashheader h.name m.hashsize) ≡ ok cl
    → find_place m.hashsize m h.name cl cl ≡ ok c
    → insert_header h m ≡ put h m c
unfolding insert_header put
insert_header-put h m cl c at_ place = rw (at_, place) refl

insert_header-IsTable :
    (h : Header) (m : Message) → IsParsed h → IsTable m → Returns IsTable (insert_header h m)
insert_header-IsTable h m parsed table =
    let (cl, run, below) = hash_loop-pos h.name 0 parsed.name (omega arith) in
    let (c, place, inside) =
      value_of_Returns (λ p. p < 1019) (find_place m.hashsize m h.name cl cl)
        (find_place-below m table h.name cl m.hashsize 1019 cl below (omega (arith, table.size))
          (omega arith) (omega (arith, below))) in
    rw (insert_header-put h m cl c (index_of-hash m h.name cl table.size run) place)
      (put-IsTable h m c parsed table inside)

abbrev pub AreParsed : List Header → Type 0
AreParsed [] = Unit
AreParsed (h ∷ hl) = IsParsed h × AreParsed hl

insert_all-IsTable :
    (hl : List Header) (m : Message) → AreParsed hl → IsTable m → Returns IsTable (insert_all hl m)
unfolding insert_all
insert_all-IsTable [] m parsed table = table
insert_all-IsTable (h ∷ hl) m parsed table =
    Returns-bind IsTable IsTable (insert_header h m) (insert_all hl)
      (insert_header-IsTable h m parsed.0 table) (λ filled. insert_all-IsTable hl filled parsed.1)

pub message2_parseheader-fills :
    (hl : List Header) (m : Message)
    → AreParsed hl
    → IsTable m
    → Returns
        (λ (status, filled). (status ≡ sieve2_ok) × IsTable filled × (filled.hashfull ≡ true))
        (message2_parseheader (some hl) m)
unfolding message2_parseheader
message2_parseheader-fills hl m parsed table =
    Returns-bind IsTable
      (λ (status, filled). (status ≡ sieve2_ok) × IsTable filled × (filled.hashfull ≡ true))
      (insert_all hl m) _ (insert_all-IsTable hl m parsed table)
      (λ filled t. (refl, record { size = t.size; places = t.places }, refl))
