-- ===== src/Grammar/Names.antt =====
-- src/sv_parser/sieve.y: which names `static_verify_header` lets through, and what it says of others.
use libsieve.Prelude.{ℕ, ◌<◌, ◌++◌, Text, codes, length, ◌≡◌, ◌≢◌, ◌⊎◌}
use libsieve.Run.{Run, out_of_bounds}
use libsieve.Grammar.Checked.{Checked, faulted, sieveerror}

-- RFC 2822: any character except controls, space and the colon.
abbrev pub IsFtext : ℕ → Type 0
IsFtext c = (32 < c) × (c < 127) × (c ≢ b':')

abbrev pub complaint : Text → Text
complaint hdr = codes "header '" ++ (hdr ++ codes "': not a valid header")

-- The name is refused with a message, or leaves no room for its NUL.
abbrev pub Complains : Text → Checked (Unit {0}) → Type 0
Complains hdr r =
    ((length hdr ≢ 235) × (r ≡ sieveerror (complaint hdr)))
    ⊎ ((length hdr ≡ 235) × (r ≡ faulted out_of_bounds))
