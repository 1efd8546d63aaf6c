-- ===== src/Grammar/Verify.antt =====
-- src/sv_parser/sieve.y: the checks on strings, and the patterns of a test.
use libsieve.Prelude.{
  ℕ, Bool, true, false, ◌&&◌, ◌||◌, leb, List, [], ◌∷◌, map, none, Text, codes, ◌⊎◌, inl, inr,
  if◌then◌else◌, ◌==◌,
}
use libsieve.Libc.{same_text}
use libsieve.Util.Buffers.{strconcat}
use libsieve.Comparator.Lookup.{Tokens, Pattern, literal, compiled}
use libsieve.Grammar.Checked.{Checked, built, refused, sieveerror, report_joined, ◌>>=◌, ◌>>◌}
use libsieve.Grammar.Tags.{Canon}

-- A character of the name of a header; as a signed `char` one of 128 and more is negative.
unfoldable pub is_ftext : ℕ → Bool
is_ftext c = (leb 33 c && leb c 57) || (leb 59 c && leb c 126)

unfoldable pub all_ftext : Text → Bool
unfolding is_ftext
all_ftext [] = true
all_ftext (c ∷ h) = if is_ftext c then all_ftext h else false

-- What the error says.
unfoldable pub not_a_header : Text → List Text
not_a_header hdr = codes "header '" ∷ hdr ∷ codes "': not a valid header" ∷ []

unfoldable pub verify_header : Text → Checked (Unit {0})
unfolding all_ftext not_a_header
verify_header hdr = if all_ftext hdr then built tt else report_joined (strconcat (not_a_header hdr))

-- `static_verify_stringlist` on the names of headers.
unfoldable pub verify_headers : List Text → Checked (Unit {0})
unfolding verify_header
verify_headers [] = built tt
verify_headers (s ∷ sl) = verify_header s >> verify_headers sl

unfoldable pub verify_flag : Text → Bool
verify_flag s = true

-- `static_verify_stringlist` on flags, which gives up without a message.
unfoldable pub verify_flags : List Text → Checked (Unit {0})
unfolding verify_flag
verify_flags [] = built tt
verify_flags (s ∷ sl) = if verify_flag s then verify_flags sl else refused none

unfoldable pub verify_mailbox : Text → Checked (Unit {0})
verify_mailbox s = built tt

-- `libsieve_regcomp`, with or without regard to case: the text of its error, or the expression.
abbrev pub Regcomp : Type 0 → Type 0
Regcomp R = Bool → Text → Text ⊎ R

module _ {R : Type 0} (t : Tokens) (regcomp : Regcomp R) where
  -- Each expression goes in front of those compiled before.
  unfoldable pub regexs_loop : Bool → List Text → List (Pattern R) → Checked (List (Pattern R))
  regexs_loop icase [] pl = built pl
  regexs_loop icase (s ∷ sl) pl = elim (regcomp icase s) [
    | inl errbuf ↦ sieveerror errbuf
    | inr reg ↦ regexs_loop icase sl (compiled reg ∷ pl)
  ]

  -- No expression at all is an error.
  unfoldable pub verify_regexs : List Text → Text → Checked (List (Pattern R))
  unfolding regexs_loop
  verify_regexs sl comp = regexs_loop (same_text comp (codes "i;ascii-casemap")) sl [] >>= λ pl.
      elim pl [ [] ↦ refused none | p ∷ more ↦ built (p ∷ more) ]

  unfoldable pub patterns_of : Canon → List Text → Checked (List (Pattern R))
  unfolding verify_regexs
  patterns_of h sl =
      if h.comptag == t.regex then verify_regexs sl h.comparator else built (map literal sl)
