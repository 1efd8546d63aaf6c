-- ===== src/Grammar/Forms.antt =====
-- src/sv_parser/sieve.y: the productions for tests and commands that a parse reduces, with what the
-- scanner gives for their tokens.
use libsieve.Prelude.{List, Text, ℤ}
use libsieve.Script.Syntax.{Bound}
use libsieve.Grammar.Vtags.{Vtag}
use libsieve.Grammar.Tags.{Tag, Aetag, Ntag}

pub data Addrorenv : Type 0 where
  address envelope : Addrorenv

-- `test` and `tests`; `failed` is the production of an error.
mutual
  pub data TestForm : Type 0 where
    anyof allof : TestForms → TestForm
    exists : List Text → TestForm
    sfalse strue failed : TestForm
    hasflag : List Tag → List Text → TestForm
    header : List Tag → List Text → List Text → TestForm
    addrorenv : Addrorenv → List Aetag → List Text → List Text → TestForm
    not_test : TestForm → TestForm
    size : Bound → ℤ → TestForm

  pub data TestForms : Type 0 where
    last_test : TestForm → TestForms
    next_test : TestForm → TestForms → TestForms

-- `action`.
pub data ActionForm : Type 0 where
  reject redirect fileinto : Text → ActionForm
  fileinto_flags : List Text → Text → ActionForm
  keep_flags setflag addflag removeflag valid_notif : List Text → ActionForm
  keep stop discard : ActionForm
  vacation : List Vtag → Text → ActionForm
  notify : List Ntag → ActionForm

-- `command`, with `error ';'`, `commands` or an empty `block`, and `elsif`.
mutual
  pub data CommandForm : Type 0 where
    action : ActionForm → CommandForm
    if_form : TestForm → CommandForms → ElseForm → CommandForm
    failed : CommandForm

  pub data CommandForms : Type 0 where
    no_forms : CommandForms
    forms : CommandForm → CommandForms → CommandForms

  pub data ElseForm : Type 0 where
    no_else : ElseForm
    elsif : TestForm → CommandForms → ElseForm → ElseForm
    else_block : CommandForms → ElseForm
