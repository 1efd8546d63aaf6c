-- ===== src/Outside.antt =====
-- What the evaluator uses and the repository holds no code for that is run: the client, what the
-- parser generator makes of the grammars, and the matcher of regular expressions.
use libsieve.Prelude.{Bool, List, Option, Text}
use libsieve.Comparator.Lookup.{Tokens}
use libsieve.Context.State.{Client}

-- `struct address`, less `next`.
pub record Address : Type 0 where
  pub name : Option Text
  pub route : Option Text
  pub domain : Option Text
  pub mailbox : Option Text

-- What `libsieve_addrparse` does to `context->addr_addr`: the structs in front of the one that was
-- there, whether it fails, and the messages that it passes to `libsieve_addrerror`.
pub record Addresses : Type 0 where
  pub top : Address
  pub others : List Address
  pub fails : Bool
  pub messages : List Text

pub record Outside (R W : Type 0) : Type 0 where
  pub respond : Client W
  pub tokens : Tokens
  pub regexec : R → Text → Bool
  pub addrparse : Text → Addresses
