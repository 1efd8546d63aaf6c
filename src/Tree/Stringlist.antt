-- ===== src/Tree/Stringlist.antt =====
-- src/sv_interface/tree.h and tree.c: lists of strings, and the arrays that are made from them.
-- Allocation does not fail in the model.
use libsieve.Prelude.{
  ℕ, ◌+◌, List, [], ◌∷◌, ◌++◌, Option, none, some, Text, length, ltb, if◌then◌else◌,
}
use libsieve.Run.{Run, ok, fault, out_of_bounds, use_after_free, ◌>>=◌}

-- `stringlist_t *`; `freed` is a pointer to a node that was freed.
pub data Stringlist : Type 0 where
  null : Stringlist
  node : Text → Stringlist → Stringlist
  freed : Stringlist

unfoldable pub new_sl : Text → Stringlist → Stringlist
new_sl s n = node s n

-- The nodes are freed one by one; a second release of a node is an error.
unfoldable pub free_sl_only : Stringlist → Run Stringlist
free_sl_only null = ok null
free_sl_only (node s next) = elim (free_sl_only next) [ ok _ ↦ ok freed | fault e ↦ fault e ]
free_sl_only freed = fault use_after_free

abbrev pub of_list : List Text → Stringlist
of_list [] = null
of_list (s ∷ sl) = node s (of_list sl)

-- The array while it is filled: the strings written, and the size allocated, 0 for no array yet.
pub record Chararray : Type 0 where
  pub strings : List Text
  pub space : ℕ

-- `ret[count++] = s; ret[count] = NULL`.
unfoldable pub write_string : Text → Chararray → Run Chararray
write_string s a =
    if ltb (length a.strings + 1) a.space
    then ok (record a { strings = a.strings ++ s ∷ [] })
    else fault out_of_bounds

-- A round of the loop: the array grows by four where the string and its NULL do not fit.
unfoldable pub add_string : Text → Chararray → Run Chararray
unfolding write_string
add_string s a =
    if ltb (length a.strings + 1) a.space
    then write_string s a
    else write_string s (record a { space = a.space + 4 })

unfoldable pub chararray_loop : Stringlist → Chararray → Run Chararray
chararray_loop null a = ok a
chararray_loop (node s next) a = add_string s a >>= chararray_loop next
chararray_loop freed a = fault use_after_free

-- A null pointer where no array was allocated.
unfoldable pub array_of : Chararray → Option (List Text)
array_of a = if ltb 0 a.space then some a.strings else none

unfoldable pub stringlist_to_chararray : Stringlist → Run (Option (List Text))
stringlist_to_chararray sl = do
  a ← chararray_loop sl (record { strings = []; space = 0 })
  ok (array_of a)
