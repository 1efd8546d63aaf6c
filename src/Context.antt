-- ===== src/Context.antt =====
-- src/sv_interface/context2.h and context2.c: the context, the values that a callback and its
-- caller exchange, and the brackets round a callback.
pub mod Values
pub mod State
pub mod Brackets
pub mod Exchange
