-- ===== src/Grammar/Trees.antt =====
-- src/sv_interface/tree.h: what holds of each part of a tree.
use libsieve.Prelude.{List, [], ◌∷◌, ◌++◌}
use libsieve.Address.Parts.{AddressPart}
use libsieve.Script.Syntax.{
  Match, Test, null, address, envelope, anyof, allof, exists, sfalse, strue, header, hasflag,
  not_test, size, Testlist, no_tests, tests, Command, if_test, Commandlist, no_commands, commands,
}

abbrev pub All : {A : Type 0} → (A → Type 0) → List A → Type 0
All P [] = Unit
All P (x ∷ xs) = P x × All P xs

pub All-append :
    {A : Type 0} (P : A → Type 0) (xs ys : List A) → All P xs → All P ys → All P (xs ++ ys)
All-append P [] ys h k = k
All-append P (x ∷ xs) ys (h, hs) k = (h, All-append P xs ys hs k)

-- Of each test of a header or an address, of each part of an address, and of each test of flags.
module _ {R : Type 0} (M : Match R → Type 0) (A : AddressPart → Type 0) (F : Type 0) where
  abbrev mutual
    pub InTest : Test R → Type 0
    InTest null = Unit
    InTest (address part m) = A part × M m
    InTest (envelope part m) = A part × M m
    InTest (anyof tl) = InTests tl
    InTest (allof tl) = InTests tl
    InTest (exists sl) = Unit
    InTest sfalse = Unit
    InTest strue = Unit
    InTest (header m) = M m
    InTest (hasflag sl) = F
    InTest (not_test test) = InTest test
    InTest (size bound n) = Unit

    pub InTests : Testlist R → Type 0
    InTests no_tests = Unit
    InTests (tests test tl) = InTest test × InTests tl

-- Of each test and of each command that is not an `if`.
module _ {R : Type 0} (T : Test R → Type 0) (C : Command R → Type 0) where
  abbrev mutual
    pub InCommand : Command R → Type 0
    InCommand (if_test test y n) = T test × InCommands y × InCommands n
    InCommand command = C command

    pub InCommands : Commandlist R → Type 0
    InCommands no_commands = Unit
    InCommands (commands command cl) = InCommand command × InCommands cl
