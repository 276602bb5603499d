-- ===== src/Vmem.antt =====
-- virtmem/: the virtual memory of the GPU, its table of allocations, its kernel launches and paging.
pub mod Row
pub mod Map
pub mod Kernels
pub mod Paging
pub mod Server
pub mod Sample
