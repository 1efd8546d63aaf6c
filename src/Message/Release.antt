-- ===== src/Message/Release.antt =====
-- src/sv_interface/message2.c, `freecache`: the release of the table, as the headers that are freed,
-- each with the array of its bodies.
use libsieve.Prelude.{
  ℕ, zero, suc, ◌+◌, List, [], ◌∷◌, ◌++◌, Option, none, some, length, ◌≡◌, refl, sym, ap, ◌∙◌,
  get_elem?-append_length, length-append, append_assoc,
}
use libsieve.Run.{Run, ok, ◌>>=◌}
use libsieve.Message.Cache.{Header, Message, read_slot}
use libsieve.Message.Lookup.{IsTable, read_slot-in}

unfoldable pub free_slot : Option Header → List Header → List Header
free_slot none hs = hs
free_slot (some h) hs = h ∷ hs

-- The loop over `i`, with the rounds that are left.
unfoldable pub freecache_loop : ℕ → ℕ → List (Option Header) → Run (List Header)
unfolding free_slot
freecache_loop zero i hash = ok []
freecache_loop (suc n) i hash =
    read_slot hash i >>= λ slot. freecache_loop n (i + 1) hash >>= λ hs. ok (free_slot slot hs)

unfoldable pub freecache : Message → Run (List Header)
unfolding freecache_loop
freecache m = freecache_loop m.hashsize 0 m.hash

-- The headers of a table.
abbrev pub headers_of : List (Option Header) → List Header
headers_of [] = []
headers_of (none ∷ hash) = headers_of hash
headers_of (some h ∷ hash) = h ∷ headers_of hash

freed-headers_of :
    (slot : Option Header) (rest : List (Option Header))
    → free_slot slot (headers_of rest) ≡ headers_of (slot ∷ rest)
unfolding free_slot
freed-headers_of none rest = refl
freed-headers_of (some h) rest = refl

freecache_loop-rest :
    (before rest : List (Option Header))
    → freecache_loop (length rest) (length before) (before ++ rest) ≡ ok (headers_of rest)
unfolding freecache_loop
freecache_loop-rest before [] = refl
freecache_loop-rest before (slot ∷ rest) =
    let more =
      rw (append_assoc before (slot ∷ []) rest, length-append before (slot ∷ [])) at
        (freecache_loop-rest (before ++ slot ∷ []) rest) in
    rw
      (
        read_slot-in (before ++ slot ∷ rest) (length before) slot
            (get_elem?-append_length before slot rest),
        more,
      )
      (ap ok (freed-headers_of slot rest))

pub freecache-headers_of : (m : Message) → IsTable m → freecache m ≡ ok (headers_of m.hash)
unfolding freecache
freecache-headers_of m table =
    ap (λ n. freecache_loop n 0 m.hash) (table.size ∙ sym table.places)
    ∙ freecache_loop-rest [] m.hash
