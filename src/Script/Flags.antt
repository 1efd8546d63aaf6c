-- ===== src/Script/Flags.antt =====
-- src/sv_interface/script.c: the flags of imap4flags, in `static_evaltest` and `libsieve_eval`.
use libsieve.Prelude.{Bool, true, false, Text, if◌then◌else◌}
use libsieve.Libc.{same_name}
use libsieve.Run.{Run, ok, fault, null_pointer, use_after_free, ◌>>=◌}
use libsieve.Tree.Stringlist.{Stringlist, null, node, freed, new_sl, free_sl_only}

-- The inner loop of `HASFLAG` and `ADDFLAG`: the search for a flag, in any case.
unfoldable pub find_flag : Text → Stringlist → Run Bool
find_flag s null = ok false
find_flag s (node t next) = let later = find_flag s next in if same_name t s then ok true else later
find_flag s freed = fault use_after_free

-- `HASFLAG`, on the flags of the test and those of the context.
unfoldable pub hasflag : Stringlist → Stringlist → Run Bool
unfolding find_flag
hasflag null slflags = ok false
hasflag (node s next) slflags = do
  let later = hasflag next slflags
  found ← find_flag s slflags
  if found then ok true else later
hasflag freed slflags = fault use_after_free

-- `SETFLAG`: the list is released and then becomes the tail of the new one.
unfoldable pub setflag : Stringlist → Stringlist → Run Stringlist
setflag null slflags = fault null_pointer
setflag (node s next) slflags = do released ← free_sl_only slflags; ok (new_sl s released)
setflag freed slflags = fault use_after_free

unfoldable pub addflag : Stringlist → Stringlist → Run Stringlist
unfolding find_flag
addflag null slflags = ok slflags
addflag (node s next) slflags = do
  found ← find_flag s slflags
  addflag next (if found then slflags else new_sl s slflags)
addflag freed slflags = fault use_after_free

-- The search behind the first flag: the flag found is unlinked and released.
unfoldable pub unlink : Text → Stringlist → Run Stringlist
unlink s null = ok null
unlink s (node t next) =
    let later = unlink s next >>= λ rest. ok (node t rest) in
    if same_name t s then ok next else later
unlink s freed = fault use_after_free

-- A round of `REMOVEFLAG`. Where the flag is the first one, all are released.
unfoldable pub remove_flag : Text → Stringlist → Run Stringlist
unfolding unlink
remove_flag s null = ok null
remove_flag s (node t next) =
    if same_name t s
    then (free_sl_only (node t next) >>= λ _. ok null)
    else (unlink s next >>= λ rest. ok (node t rest))
remove_flag s freed = fault use_after_free

unfoldable pub removeflag : Stringlist → Stringlist → Run Stringlist
unfolding remove_flag
removeflag null slflags = ok slflags
removeflag (node s next) slflags = remove_flag s slflags >>= removeflag next
removeflag freed slflags = fault use_after_free
