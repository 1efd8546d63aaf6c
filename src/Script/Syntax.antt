-- ===== src/Script/Syntax.antt =====
-- src/sv_interface/tree.h: the tree of a script. Its lists of strings are never released while the
-- script runs, and are lists here.
use libsieve.Prelude.{ℕ, Option, List, Text, ℤ}
use libsieve.Comparator.Lookup.{Pattern, Comparator}
use libsieve.Address.Parts.{AddressPart}

-- The members `h` and `ae` of `struct Test` less the part of an address. `comptag` stands at the
-- same place in both.
pub record Match (R : Type 0) : Type 0 where
  pub comptag : ℕ
  pub comp : Comparator
  pub sl : List Text
  pub pl : List (Pattern R)

pub data Bound : Type 0 where
  over under : Bound

-- `test_t *` and `testlist_t *`; `null` is a test that could not be built.
mutual
  pub data Test (R : Type 0) : Type 0 where
    null : Test R
    address : AddressPart → Match R → Test R
    envelope : AddressPart → Match R → Test R
    anyof : Testlist R → Test R
    allof : Testlist R → Test R
    exists : List Text → Test R
    sfalse : Test R
    strue : Test R
    header : Match R → Test R
    hasflag : List Text → Test R
    not_test : Test R → Test R
    size : Bound → ℤ → Test R

  pub data Testlist (R : Type 0) : Type 0 where
    no_tests : Testlist R
    tests : Test R → Testlist R → Testlist R

-- The member `v` of `struct Commandlist`.
pub record Vacation : Type 0 where
  pub subject : Option Text
  pub days : ℤ
  pub addresses : List Text
  pub message : Text
  pub mime : ℤ
  pub from : Option Text
  pub handle : Option Text

-- A command, and `commandlist_t *`. Of a command that the evaluator has no case for, only that it
-- is there counts.
mutual
  pub data Command (R : Type 0) : Type 0 where
    if_test : Test R → Commandlist R → Commandlist R → Command R
    reject : Option Text → Command R
    fileinto : Option Text → List Text → Command R
    redirect : Option Text → Command R
    keep : List Text → Command R
    stop : Command R
    discard : Command R
    vacation : Vacation → Command R
    setflag : List Text → Command R
    addflag : List Text → Command R
    removeflag : List Text → Command R
    notify : Option Text → Option Text → List Text → Option Text → Option Text → Command R
    other : Command R

  pub data Commandlist (R : Type 0) : Type 0 where
    no_commands : Commandlist R
    commands : Command R → Commandlist R → Commandlist R
