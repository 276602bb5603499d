-- ===== src/Remote.antt =====
-- remote/: both sides of the remote calls, except for the handlers on the memory map, and the functions
-- of interposer/libci.c that make them.
pub mod Client
pub mod Devices
pub mod Entry
pub mod Memory
pub mod Registry
pub mod Rpc
pub mod Sample
pub mod Socket
pub mod Symbols
pub mod Nodes
