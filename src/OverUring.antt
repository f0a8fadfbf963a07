-- ===== src/OverUring.antt =====
-- Sockets and files over io_uring: what kkp/kkp-core/include/kkp/net/socket.hpp and
-- kkp/kkp-core/include/kkp/fs/file.hpp ask of the kernel, and what a `co_await` of it does.
pub mod Bounds
pub mod Confined
pub mod RawSocket
pub mod Tls
pub mod Opened
