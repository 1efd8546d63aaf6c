-- ===== src/Tree/Chararray.antt =====
-- src/sv_interface/tree.c, `libsieve_stringlist_to_chararray`: the array holds what the list held.
use libsieve.Prelude.{
  ℕ, ◌+◌, ◌≤◌, ◌<◌, List, [], ◌∷◌, ◌++◌, none, some, Text, length, ltb, ltb→lt, lt→ltb, ◌≡◌, refl,
  ◌∙◌, inl, inr, arith, Bool-cases, append-nil, append_assoc, length-append,
}
use libsieve.Run.{Run, ok}
use libsieve.Tree.Stringlist.{
  null, of_list, Chararray, add_string, chararray_loop, array_of, stringlist_to_chararray,
}

-- The strings that the array gets, and that it is an array.
abbrev Added : List Text → Run Chararray → Type 0
Added strings r =
    (space : ℕ) × (r ≡ ok (record { strings = strings; space = space })) × (length strings < space)

add_string-Added :
    (s : Text) (strings : List Text) (space : ℕ)
    → length strings ≤ space
    → Added (strings ++ s ∷ []) (add_string s (record { strings = strings; space = space }))
unfolding add_string
add_string-Added s strings space h =
    let longer = length-append strings (s ∷ []) in
    elim (Bool-cases (ltb (length strings + 1) space)) [
      | inl room ↦ (space, rw room, omega (arith, longer, ltb→lt _ _ room))
      | inr tight ↦ (
        space + 4,
        rw (tight, lt→ltb (length strings + 1) (space + 4) (omega arith)),
        omega (arith, longer),
      )
    ]

chararray_loop-Added :
    (sl strings : List Text) (space : ℕ)
    → length strings < space
    → Added
        (strings ++ sl)
        (chararray_loop (of_list sl) (record { strings = strings; space = space }))
unfolding chararray_loop
chararray_loop-Added [] strings space h = (space, rw append-nil, rw append-nil h)
chararray_loop-Added (s ∷ sl) strings space h =
    let (space', run, room) = add_string-Added s strings space (omega arith) in
    let (space'', run', room') = chararray_loop-Added sl (strings ++ s ∷ []) space' room in
    (space'', rw run (run' ∙ rw append_assoc), rw append_assoc at room')

-- The array of a list of strings has its strings in order, and is written inside its bounds
-- throughout; the empty list gives a null pointer.
pub stringlist_to_chararray-of_list :
    (s : Text) (sl : List Text)
    → (stringlist_to_chararray null ≡ ok none)
      × (stringlist_to_chararray (of_list (s ∷ sl)) ≡ ok (some (s ∷ sl)))
unfolding stringlist_to_chararray chararray_loop array_of
stringlist_to_chararray-of_list s sl =
    let (space, run, room) = add_string-Added s [] 0 (omega arith) in
    let (space', run', room') = chararray_loop-Added sl (s ∷ []) space room in
    (refl, rw (run, run', array_of, lt→ltb 0 space' (omega arith)))
