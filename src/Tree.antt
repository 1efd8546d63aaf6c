-- ===== src/Tree.antt =====
-- src/sv_interface/tree.h and tree.c: the parts of a script.
pub mod Stringlist
pub mod Chararray
