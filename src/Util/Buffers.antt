-- ===== src/Util/Buffers.antt =====
-- src/sv_util/util.c: the buffers that grow. Sizes are in elements, allocation does not fail and
-- no size comes near the largest `size_t`. A string that is passed with its length is the bytes
-- that count.
use libsieve.Prelude.{
  ℕ, zero, suc, ◌+◌, ◌-◌, ◌*◌, Bool, true, false, ◌||◌, List, [], ◌∷◌, ◌++◌, Option, none, some,
  Text, length, get_elem?, ltb, leb, ◌==◌, if◌then◌else◌,
}
use libsieve.Run.{Run, ok, fault, out_of_bounds, null_pointer, ◌>>=◌}

-- A write at an index of an array.
abbrev pub in_bounds : {A : Type 0} → ℕ → ℕ → A → Run A
in_bounds i size a = if ltb i size then ok a else fault out_of_bounds

-- `struct catbuf`: `pos` is the length of `str`, of which `len` bytes are allocated.
pub record Catbuf : Type 0 where
  pub str : Text
  pub len : ℕ

abbrev max : ℕ → ℕ → ℕ
max x y = if ltb y x then x else y

-- The size that a piece needs.
unfoldable pub catbuf_len : ℕ → ℕ → ℕ → ℕ
catbuf_len len pos n = if ltb (len - pos) n then len + max n 256 else len

-- `memcpy`, where the piece must fit, and the NUL behind it.
unfoldable pub catbuf : Text → Catbuf → Run Catbuf
unfolding catbuf_len
catbuf str s =
    let len = catbuf_len s.len (length s.str) (length str) in
    let pos = length s.str + length str in
    if ltb len pos
    then fault out_of_bounds
    else in_bounds pos len (record { str = s.str ++ str; len = len })

unfoldable pub catbuf_alloc : Catbuf
catbuf_alloc = record { str = []; len = 256 }

unfoldable pub catbuf_all : List Text → Catbuf → Run Catbuf
unfolding catbuf
catbuf_all [] s = ok s
catbuf_all (str ∷ strs) s = catbuf str s >>= catbuf_all strs

-- The loop of `libsieve_strconcat`; `size` is 0 while `buf` is null. A copy of no bytes to a null
-- pointer is let through.
unfoldable pub strconcat_loop : List Text → Text → ℕ → Run Text
strconcat_loop [] buf size =
    if size == 0 then fault null_pointer else in_bounds (length buf) size buf
strconcat_loop (str ∷ strs) buf size =
    let grown = if ltb (size - length buf) (length str) then size + (length str + 256) else size in
    let rest = strconcat_loop strs (buf ++ str) grown in
    if ltb grown (length buf + length str) then fault out_of_bounds else rest

-- The arguments up to the null pointer that ends them; `none` where the first is null.
unfoldable pub strconcat : List Text → Run (Option Text)
unfolding strconcat_loop
strconcat [] = ok none
strconcat (str ∷ strs) = strconcat_loop (str ∷ strs) [] 0 >>= λ buf. ok (some buf)

-- `struct mlbuf`: `pos` is the length of `buf`, of which `siz` pointers are allocated.
pub record Mlbuf : Type 0 where
  pub buf : List Text
  pub siz : ℕ

-- The string goes to `buf[pos]` and a NULL behind it.
unfoldable pub strbuf : Text → Mlbuf → Run Mlbuf
strbuf str ml =
    let siz = if leb ml.siz (length ml.buf + 1) then ml.siz * 2 else ml.siz in
    in_bounds (length ml.buf + 1) siz (record { buf = ml.buf ++ str ∷ []; siz = siz })

unfoldable pub strbufalloc : Mlbuf
strbufalloc = record { buf = []; siz = 256 }

unfoldable pub strbuf_all : List Text → Mlbuf → Run Mlbuf
unfolding strbuf
strbuf_all [] ml = ok ml
strbuf_all (str ∷ strs) ml = strbuf str ml >>= strbuf_all strs

-- The loop over `i`, with the rounds that are left: what it frees.
unfoldable pub strbuffree_loop : ℕ → ℕ → List Text → Run (List Text)
strbuffree_loop zero i buf = ok []
strbuffree_loop (suc n) i buf = elim (get_elem? buf i) [
  | none ↦ fault out_of_bounds
  | some str ↦ strbuffree_loop n (i + 1) buf >>= λ strs. ok (str ∷ strs)
]

unfoldable pub strbuffree : Mlbuf → Bool → Run (List Text)
unfolding strbuffree_loop
strbuffree ml freeall = if freeall then strbuffree_loop (length ml.buf) 0 ml.buf else ok []

-- Whether a byte ends an atom; as a signed `char` one of 128 and more is below 31.
unfoldable pub not_in_atom : ℕ → Bool
not_in_atom c =
    ltb c 31
    || leb 128 c
    || leb 127 c
    || c == b' '
    || c == b'{'
    || c == b'('
    || c == b')'
    || c == b'%'
    || c == b'*'
    || c == 92
    || c == 34

unfoldable pub strisatom_loop : Text → Bool
unfolding not_in_atom
strisatom_loop [] = true
strisatom_loop (c ∷ str) = if not_in_atom c then false else strisatom_loop str

unfoldable pub strisatom : Text → Bool
unfolding strisatom_loop
strisatom str = if ltb 1023 (length str) then false else strisatom_loop str
