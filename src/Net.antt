-- ===== src/Net.antt =====
-- Sockets: kkp/kkp-core/include/kkp/net/.
pub mod Socket
pub mod Address
pub mod ServerSocket
pub mod Endpoint
pub mod Tcp
