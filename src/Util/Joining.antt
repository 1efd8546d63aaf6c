-- ===== src/Util/Joining.antt =====
-- src/sv_util/util.c: what `libsieve_strconcat` comes to.
use libsieve.Prelude.{
  ℕ, ◌+◌, ◌-◌, ◌≤◌, ◌<◌, true, false, List, [], ◌∷◌, ◌++◌, Option, some, Text, codes, length, ltb,
  ltb→lt, lt→ltb, ne→==, if◌then◌else◌, ◌≡◌, ◌≢◌, ◌⊎◌, inl, inr, refl, ap, ◌∙◌, arith, Bool-cases,
  append-nil, append_assoc, length-append,
}
use libsieve.Run.{Run, ok, fault, out_of_bounds, ◌>>=◌}
use libsieve.Util.Buffers.{in_bounds, strconcat_loop, strconcat}

abbrev pub concat : List Text → Text
concat [] = []
concat (str ∷ strs) = str ++ concat strs

not_below : (a b : ℕ) → b ≤ a → ltb a b ≡ false
not_below a b h = ground arith

not_less : (a b : ℕ) → ltb a b ≡ false → b ≤ a
not_less a b h = ground arith

-- A round of the loop, with the size that it leaves, and the end.
loop_grows :
    (str : Text) (strs : List Text) (buf : Text) (size : ℕ)
    → length buf ≤ size
    → size < length buf + length str
    → strconcat_loop (str ∷ strs) buf size
      ≡ strconcat_loop strs (buf ++ str) (size + (length str + 256))
unfolding strconcat_loop
loop_grows str strs buf size k h =
    rw
      (
        lt→ltb (size - length buf) (length str) (omega arith),
        not_below (size + (length str + 256)) (length buf + length str) (omega arith),
      )
      refl

loop_fits :
    (str : Text) (strs : List Text) (buf : Text) (size : ℕ)
    → length buf + length str ≤ size
    → strconcat_loop (str ∷ strs) buf size ≡ strconcat_loop strs (buf ++ str) size
unfolding strconcat_loop
loop_fits str strs buf size h =
    rw
      (
        not_below (size - length buf) (length str) (omega arith),
        not_below size (length buf + length str) h,
      )
      refl

loop_ends : (buf : Text) (size : ℕ) → length buf < size → strconcat_loop [] buf size ≡ ok buf
unfolding strconcat_loop
loop_ends buf size h = rw (ne→== size 0 (omega arith), lt→ltb (length buf) size h) refl

strconcat_loop-joins :
    (strs : List Text) (buf : Text) (size : ℕ)
    → 0 < size
    → length (buf ++ concat strs) ≤ size
    → strconcat_loop strs buf size
      ≡ in_bounds (length (buf ++ concat strs)) size (buf ++ concat strs)
unfolding strconcat_loop
strconcat_loop-joins [] buf size h k = rw (ne→== size 0 (omega arith), append-nil) refl
strconcat_loop-joins (str ∷ strs) buf size h k =
    let whole = length-append buf (str ++ concat strs) in
    let part = length-append str (concat strs) in
    let same = append_assoc buf str (concat strs) in
    let goes_on = strconcat_loop-joins strs (buf ++ str) size h (rw same k) in
    rw
      (
        not_below (size - length buf) (length str) (omega (arith, whole, part)),
        not_below size (length buf + length str) (omega (arith, whole, part)),
      )
      (rw same at goes_on)

-- The size that the first string gets.
first_size : (n : ℕ) → 0 < n → (if ltb (0 - 0) n then 0 + (n + 256) else 0) ≡ n + 256
first_size n h = ground arith

strconcat-first :
    (str : Text) (strs : List Text)
    → 0 < length str
    → strconcat (str ∷ strs) ≡ (strconcat_loop strs str (length str + 256) >>= λ buf. ok (some buf))
unfolding strconcat strconcat_loop
strconcat-first str strs h =
    rw (first_size (length str) h, not_below (length str + 256) (0 + length str) (omega arith)) refl

-- What the strings behind the first come to: all joined, or a NUL behind the end of the buffer.
abbrev pub Joins : Text → List Text → Run (Option Text) → Type 0
Joins str strs r =
    ((length (concat strs) < 256) × (r ≡ ok (some (str ++ concat strs))))
    ⊎ ((length (concat strs) ≡ 256) × (r ≡ fault out_of_bounds))

-- Strings are joined in order, where the first is not empty and the others come to less than 256
-- bytes. Where they come to 256 bytes, the NUL is written behind the end of the buffer.
pub strconcat-Joins :
    (str : Text) (strs : List Text)
    → 0 < length str
    → length (concat strs) ≤ 256
    → Joins str strs (strconcat (str ∷ strs))
strconcat-Joins str strs h k =
    let whole = length-append str (concat strs) in
    let first = strconcat-first str strs h in
    let joined =
      strconcat_loop-joins strs str (length str + 256) (omega arith) (omega (arith, whole)) in
    elim (Bool-cases (ltb (length (concat strs)) 256)) [
      | inl less ↦ inl (
        ltb→lt _ _ less,
        rw
            (
              first,
              joined,
              lt→ltb (length (str ++ concat strs)) (length str + 256)
                  (omega (arith, whole, ltb→lt _ _ less)),
            )
            refl,
      )
      | inr full ↦
          let all = not_less _ _ full in
          inr (
            omega (arith, all),
            rw
                (
                  first,
                  joined,
                  not_below (length (str ++ concat strs)) (length str + 256)
                      (omega (arith, whole, all)),
                )
                refl,
          )
    ]

-- A blank and a long word behind a text.
strconcat_loop-word :
    (msg s : Text)
    → 255 < length s
    → strconcat_loop (codes " " ∷ s ∷ []) msg (length msg + 256) ≡ ok (msg ++ (codes " " ++ s))
strconcat_loop-word msg s h =
    let blank = length-append msg (codes " ") in
    let whole = length-append (msg ++ codes " ") s in
    loop_fits (codes " ") (s ∷ []) msg (length msg + 256) (omega arith)
    ∙ loop_grows s [] (msg ++ codes " ") (length msg + 256) (omega (arith, blank))
        (omega (arith, blank, h))
    ∙ loop_ends (msg ++ codes " " ++ s) (length msg + 256 + (length s + 256))
        (omega (arith, blank, whole))
    ∙ ap ok (append_assoc msg (codes " ") s)

-- A blank and a word behind a text, where the word does not leave the NUL without room.
pub strconcat-word :
    (msg s : Text)
    → 0 < length msg
    → length s ≢ 255
    → strconcat (msg ∷ codes " " ∷ s ∷ []) ≡ ok (some (msg ++ (codes " " ++ s)))
strconcat-word msg s h k = elim (Bool-cases (ltb (length s) 255)) [
  | inl less ↦ strconcat-short msg s h (ltb→lt _ _ less)
  | inr more ↦
      rw
        (
          strconcat-first msg (codes " " ∷ s ∷ []) h,
          strconcat_loop-word msg s (longer_than (length s) more k),
        )
        refl
]
  where
    longer_than : (n : ℕ) → ltb n 255 ≡ false → n ≢ 255 → 255 < n
    longer_than n e k = ground arith

    strconcat-short :
        (msg s : Text)
        → 0 < length msg
        → length s < 255
        → strconcat (msg ∷ codes " " ∷ s ∷ []) ≡ ok (some (msg ++ (codes " " ++ s)))
    strconcat-short msg s h k =
        elim (strconcat-Joins msg (codes " " ∷ s ∷ []) h (omega (arith, k, length-append s []))) [
          | inl (less, e) ↦ e ∙ rw append-nil refl
          | inr (full, e) ↦ absurd (omega (arith, full, k, length-append s []))
        ]

-- Three strings, the last of less than 256 bytes, of which those behind the first come to more.
pub strconcat-between :
    (str mid last : Text)
    → 0 < length str
    → length last < 256
    → 256 < length mid + length last
    → strconcat (str ∷ mid ∷ last ∷ []) ≡ ok (some (str ++ (mid ++ last)))
strconcat-between str mid last h k l =
    rw (strconcat-first str (mid ∷ last ∷ []) h, between (Bool-cases (ltb 256 (length mid)))) refl
  where
    taken : length (str ++ mid) ≡ length str + length mid
    taken = length-append str mid

    whole : length (str ++ mid ++ last) ≡ length (str ++ mid) + length last
    whole = length-append (str ++ mid) last

    between :
        (ltb 256 (length mid) ≡ true) ⊎ (ltb 256 (length mid) ≡ false)
        → strconcat_loop (mid ∷ last ∷ []) str (length str + 256) ≡ ok (str ++ (mid ++ last))
    between (inl long) =
        loop_grows mid (last ∷ []) str (length str + 256) (omega arith)
          (omega (arith, ltb→lt 256 (length mid) long))
        ∙ loop_fits last [] (str ++ mid) (length str + 256 + (length mid + 256))
            (omega (arith, taken))
        ∙ loop_ends (str ++ mid ++ last) (length str + 256 + (length mid + 256))
            (omega (arith, taken, whole))
        ∙ ap ok (append_assoc str mid last)
    between (inr short) =
        loop_fits mid (last ∷ []) str (length str + 256)
          (omega (arith, not_less 256 (length mid) short))
        ∙ loop_grows last [] (str ++ mid) (length str + 256)
            (omega (arith, taken, not_less 256 (length mid) short)) (omega (arith, taken))
        ∙ loop_ends (str ++ mid ++ last) (length str + 256 + (length last + 256))
            (omega (arith, taken, whole, not_less 256 (length mid) short))
        ∙ ap ok (append_assoc str mid last)
