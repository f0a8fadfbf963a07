-- ===== src/Uring.antt =====
-- The event loop and the awaiters over io_uring: kkp/kkp-core/include/kkp/uring/.
pub mod Loop
pub mod Awaiter
pub mod Request
pub mod Kernel
