-- ===== src/Ssl.antt =====
-- TLS over a raw stream: kkp/kkp-core/include/kkp/ssl/.
pub mod OpenSsl
pub mod Status
pub mod Pointers
pub mod Engine
pub mod RawStream
pub mod Run
pub mod Stream
