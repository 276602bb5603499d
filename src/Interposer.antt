-- ===== src/Interposer.antt =====
-- interposer/libciutils.c: what the interposer sends of a call's arguments, and its lookups.
pub mod Bytes
pub mod Fields
pub mod Calls
pub mod FatBinary
pub mod Fatcubin
pub mod Vars
