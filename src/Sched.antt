-- ===== src/Sched.antt =====
-- l2scheduler/: the schedulers of the processes that share a GPU.
pub mod Data
pub mod Fair
pub mod Las
pub mod Cfs
pub mod Pager
pub mod Sample
