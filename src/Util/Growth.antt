-- ===== src/Util/Growth.antt =====
-- src/sv_util/util.c: what the buffers hold, and where a write leaves them.
use libsieve.Prelude.{
  ℕ, ◌+◌, ◌*◌, ◌≤◌, ◌<◌, Bool, true, false, List, [], ◌∷◌, ◌++◌, Text, length,
  get_elem?-append_length, ltb, leb, lt→ltb, if◌then◌else◌, ◌≡◌, ◌≢◌, ◌⊎◌, inl, inr, refl, ap, ◌∙◌,
  arith, append-nil, append_assoc, length-append,
}
use libsieve.Run.{Run, ok, fault, out_of_bounds, Returns, Returns-bind, Returns-mono}
use libsieve.Util.Buffers.{
  in_bounds, Catbuf, catbuf_len, catbuf, Mlbuf, strbuf, strbuf_all, strbuffree_loop, strbuffree,
}

-- The NULL behind the strings is inside the array.
pub record IsMlbuf (ml : Mlbuf) : Type 0 where
  pub room : length ml.buf < ml.siz
  pub size : 1 < ml.siz

-- A size that a piece is sure to fit, and what is known of it.
fits : {A : Type 0} (i size : ℕ) (a : A) → i < size → in_bounds i size a ≡ ok a
fits i size a h = rw (lt→ltb i size h) refl

doubled :
    (b : Bool) (n siz : ℕ)
    → leb siz (n + 1) ≡ b
    → n < siz
    → 1 < siz
    → n + 1 < (if b then siz * 2 else siz)
doubled true n siz e h k = omega arith
doubled false n siz e h k = ground arith

strbuf-adds :
    (str : Text) (ml : Mlbuf)
    → IsMlbuf ml
    → Returns (λ ml'. IsMlbuf ml' × (ml'.buf ≡ ml.buf ++ str ∷ [])) (strbuf str ml)
unfolding strbuf
strbuf-adds str ml h =
    let grown =
      doubled (leb ml.siz (length ml.buf + 1)) (length ml.buf) ml.siz refl h.room h.size in
    let longer = length-append ml.buf (str ∷ []) in
    rw
      (fits {A = Mlbuf} _ _
        (record {
          buf = ml.buf ++ str ∷ [];
          siz = if leb ml.siz (length ml.buf + 1) then ml.siz * 2 else ml.siz;
        })
        grown)
      (record { room = omega (arith, longer, grown); size = omega (arith, grown) }, refl)

strbuffree_loop-rest :
    (before rest : List Text)
    → strbuffree_loop (length rest) (length before) (before ++ rest) ≡ ok rest
unfolding strbuffree_loop
strbuffree_loop-rest before [] = refl
strbuffree_loop-rest before (str ∷ rest) =
    let more =
      rw (append_assoc before (str ∷ []) rest, length-append before (str ∷ [])) at
        (strbuffree_loop-rest (before ++ str ∷ []) rest) in
    rw (get_elem?-append_length before str rest, strbuffree_loop) (rw more refl)

-- A release with the strings frees each of them.
strbuffree-all : (ml : Mlbuf) → strbuffree ml true ≡ ok ml.buf
unfolding strbuffree
strbuffree-all ml = strbuffree_loop-rest [] ml.buf

strbuf_all-grows :
    (strs : List Text) (ml : Mlbuf)
    → IsMlbuf ml
    → Returns (λ ml'. IsMlbuf ml' × (ml'.buf ≡ ml.buf ++ strs)) (strbuf_all strs ml)
unfolding strbuf_all
strbuf_all-grows [] ml h = (h, rw append-nil refl)
strbuf_all-grows (str ∷ strs) ml h =
    Returns-bind (λ a. IsMlbuf a × (a.buf ≡ ml.buf ++ str ∷ []))
      (λ ml'. IsMlbuf ml' × (ml'.buf ≡ ml.buf ++ str ∷ strs)) (strbuf str ml) _
      (strbuf-adds str ml h)
      λ a (i, e).
        Returns-mono (λ b. IsMlbuf b × (b.buf ≡ a.buf ++ strs))
          (λ b. IsMlbuf b × (b.buf ≡ ml.buf ++ str ∷ strs)) (strbuf_all strs a)
          (λ b (j, e'). (j, e' ∙ (ap (λ x. x ++ strs) e ∙ append_assoc ml.buf (str ∷ []) strs)))
          (strbuf_all-grows strs a i)

-- From a buffer whose strings and their NULL are inside the array, any strings that are added are
-- there in order, behind the others, and every write is inside the array. The release of the buffer
-- with its strings then reads inside the array and frees each of them once, in that order.
pub strbuf_all-adds :
    (strs : List Text) (ml : Mlbuf)
    → IsMlbuf ml
    → Returns
        (λ ml'.
          IsMlbuf ml' × (ml'.buf ≡ ml.buf ++ strs) × (strbuffree ml' true ≡ ok (ml.buf ++ strs)))
        (strbuf_all strs ml)
strbuf_all-adds strs ml h =
    Returns-mono (λ ml'. IsMlbuf ml' × (ml'.buf ≡ ml.buf ++ strs)) _ (strbuf_all strs ml)
      (λ ml' (i, e). (i, e, strbuffree-all ml' ∙ ap ok e)) (strbuf_all-grows strs ml h)

-- The bytes and their NUL are inside the buffer.
abbrev pub IsCatbuf : Catbuf → Type 0
IsCatbuf s = length s.str < s.len

-- A piece that is written into a buffer, or misses it by its NUL.
abbrev pub Appends : Text → Catbuf → Run Catbuf → Type 0
Appends str s r =
    ((length s.str + length str ≢ s.len)
      × (len : ℕ) × (r ≡ ok (record { str = s.str ++ str; len = len }))
      × IsCatbuf (record { str = s.str ++ str; len = len }))
    ⊎ ((length s.str + length str ≡ s.len) × (r ≡ fault out_of_bounds))

-- What is known of the size that a piece of `n` bytes needs behind `pos` others.
catbuf_len-fits :
    (len pos n : ℕ)
    → pos < len
    → ((pos + n ≢ len) × (pos + n < catbuf_len len pos n))
      ⊎ ((pos + n ≡ len) × (catbuf_len len pos n ≡ len))
unfolding catbuf_len
catbuf_len-fits len pos n h = ground arith

not_below : (a b : ℕ) → b ≤ a → ltb a b ≡ false
not_below a b h = ground arith

-- A piece is appended to a buffer, which grows for it where it must. The one exception is a piece
-- that fills the buffer to its last byte: then the NUL is written behind the end.
pub catbuf-Appends : (str : Text) (s : Catbuf) → IsCatbuf s → Appends str s (catbuf str s)
unfolding catbuf
catbuf-Appends str s h =
    let pos = length s.str in
    let n = length str in
    let longer = length-append s.str str in
    let len = catbuf_len s.len pos n in
    elim (catbuf_len-fits s.len pos n h) [
      | inl fit ↦ inl (
        fit.0,
        len,
        rw (not_below len (pos + n) (omega (arith, fit.1)), lt→ltb (pos + n) len fit.1) refl,
        omega (arith, longer, fit.1),
      )
      | inr full ↦ inr (
        full.0,
        rw
            (
              not_below len (pos + n) (omega (arith, full.0, full.1)),
              not_below (pos + n) len (omega (arith, full.0, full.1)),
            )
            refl,
      )
    ]
