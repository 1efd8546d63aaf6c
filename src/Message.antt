-- ===== src/Message.antt =====
-- src/sv_interface/message2.h and message2.c: the header cache of a message.
pub mod Cache
pub mod HighBytes
pub mod Lookup
pub mod Release
pub mod Filling
