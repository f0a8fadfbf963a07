-- ===== src/Coro.antt =====
-- Tasks and their flags: kkp/kkp-core/include/kkp/coro/.
pub mod Flag
pub mod Task
pub mod Promise
pub mod Alloc
pub mod Handle
pub mod Program
pub mod Jobs
