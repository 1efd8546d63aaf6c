-- ===== src/Tests/Interfaces.antt =====
-- src/sv_interface/script2.c on small inputs.
use libsieve.Prelude.{true, false, Option, some, none, [], ◌∷◌, ◌++◌, List, codes, ◌≡◌, refl}
use libsieve.Run.{ok, Returns}
use libsieve.Context.Values.{Code, value_first, action_keep, action_vacation, message_getsize}
use libsieve.Context.State.{Handler, client}
use libsieve.Interface.Register.{Support, Registry, sieve2_callbacks, sieve2_listextensions}
use libsieve.Interface.Registered.{
  Registers, listing, listing_order, sieve2_callbacks-Registers, sieve2_listextensions-joins,
}
use libsieve.Grammar.Require.{Feature, feature, named}
use libsieve.Grammar.Missing.{name_of}
use libsieve.Tests.Contexts.{callbacks}

abbrev pub no_support : Support
no_support = record {
  reject = false;
  notify = false;
  fileinto = false;
  vacation = false;
  envelope = false;
  imap4flags = false;
  regex = false;
  subaddress = false;
  relational = false;
}

abbrev registry : Registry
registry = record { callbacks = callbacks; support = no_support }

abbrev entries : List (Code × Option Handler)
entries =
    (action_keep, some (client 8))
    ∷ (action_vacation, some (client 7))
    ∷ (message_getsize, some (client 9))
    ∷ []

sieve2_callbacks-Registers_example :
    Returns
      (Registers entries registry)
      (sieve2_callbacks (some (entries ++ (value_first, none) ∷ [])) registry)
sieve2_callbacks-Registers_example =
    sieve2_callbacks-Registers entries none registry (refl, (refl, (refl, tt)))

abbrev with_vacation : Support
with_vacation = record no_support { vacation = true }

sieve2_listextensions-joins_example :
    (sieve2_listextensions with_vacation ≡ ok (some (listing with_vacation listing_order)))
    × ((f : Feature) → named (name_of f) ≡ feature f)
sieve2_listextensions-joins_example = sieve2_listextensions-joins with_vacation

that_list : listing with_vacation listing_order ≡ codes "regex imap4flags relational vacation "
that_list = refl
