-- ===== src/Callbacks/Cached.antt =====
-- src/sv_interface/callbacks2.c, `libsieve_do_getheader`, where the headers are in the library's
-- own table.
use libsieve.Prelude.{ℕ, Option, none, some, List, [], ◌∷◌, map, Text, ◌≡◌, ◌≢◌, ◌⊎◌}
use libsieve.Libc.{tolower}
use libsieve.Run.{ok, sieve2_ok, sieve2_done}
use libsieve.Message.Cache.{getheader}
use libsieve.Message.Lookup.{IsBodyOf}
use libsieve.Context.State.{Context}
use libsieve.Callbacks.Answers.{Answers}

-- What the table gives for a name, and what the question makes of it: one empty body and the status
-- for done where there is no header of the name, or one without bodies; or else success and the bodies,
-- which are those of a header of the table.
abbrev pub Cached : {W : Type 0} → Text → Context W → ℕ × List Text → Type 0
Cached header c (status, body) =
    (found : ℕ × Option (List Text)) × (getheader c.message header ≡ ok found)
    × (((found.1 ≡ none) ⊎ (found.1 ≡ some [])) × (status ≡ sieve2_done) × (body ≡ [] ∷ [])
        ⊎ ((found.1 ≡ some body)
            × (body ≢ [])
            × (status ≡ sieve2_ok)
            × IsBodyOf c.message (map tolower header) body))
