-- ===== src/Address.antt =====
-- src/sv_interface/message.c and src/sv_parser/addr.y: the addresses in a header.
pub mod Parse
pub mod Parts
