-- ===== src/Message/HighBytes.antt =====
-- src/sv_interface/message2.c, `hashheader`: names with bytes of 128 and more.
use libsieve.Prelude.{
  Text, ℕ, suc, ◌*◌, ◌≤◌, ◌<◌, ◌-◌, ◌%◌, false, [], ◌∷◌, ◌≡◌, refl, arith, ltb, pos, negsuc,
}
use libsieve.Libc.{tolower}
use libsieve.Run.{fault, out_of_bounds, Returns}
use libsieve.Message.Lookup.{IsTable, IsAscii, LooksUp, getheader-LooksUp}
use libsieve.Message.Cache.{
  Message, hash_loop, hashheader, index_of, getheader, ends_name, signed_char, shift_in, rem_ℤ,
}

tolower-high : (c : ℕ) → 128 ≤ c → tolower c ≡ c
unfolding tolower
tolower-high c h = ground arith

ends_name-high : (c : ℕ) → 128 ≤ c → ends_name c ≡ false
unfolding ends_name
ends_name-high c h = ground arith

signed_char-high : (c : ℕ) → 128 ≤ c → signed_char c ≡ negsuc (255 - c)
unfolding signed_char
signed_char-high c h = ground arith

small : (n : ℕ) → n < 1019 → n % 1019 ≡ n
small n h = omega arith

above : (k : ℕ) → ltb k (0 * 256) ≡ false
above k = ground arith

unchanged : (k : ℕ) → k - 0 * 256 ≡ k
unchanged k = omega arith

hashed : (k : ℕ) → k < 1018 → rem_ℤ (shift_in (pos 0) (negsuc k)) 1019 ≡ negsuc k
unfolding rem_ℤ shift_in
hashed k h = rw (above k, unchanged k, rem_ℤ, small (suc k) (omega arith)) refl

-- A name of one byte of 128 or more is looked up below the start of the table.
pub getheader-overruns :
    (c : ℕ) (m : Message)
    → 128 ≤ c
    → c < 256
    → m.hashsize ≡ 1019
    → getheader m (c ∷ []) ≡ fault out_of_bounds
unfolding getheader hashheader hash_loop index_of
getheader-overruns c m low high size =
    rw
      (
        tolower-high c low,
        ends_name-high c low,
        signed_char-high c low,
        size,
        hashed (255 - c) (omega arith),
      )
      refl

-- In a table with all its places a name of bytes below 128 is looked up inside the table, and the walk
-- ends: the answer is the bodies of a header of the table that has the name in lower case, with the
-- status of success, or none with that of a failure. A name of one byte of 128 or more is looked up
-- below the start of the table.
pub getheader-LooksUp-overruns :
    (m : Message) (name : Text) (c : ℕ)
    → IsTable m
    → IsAscii name
    → 128 ≤ c
    → c < 256
    → Returns (LooksUp m name) (getheader m name) × (getheader m (c ∷ []) ≡ fault out_of_bounds)
getheader-LooksUp-overruns m name c table ascii low high =
    (getheader-LooksUp m name table ascii, getheader-overruns c m low high table.size)
