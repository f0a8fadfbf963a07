-- ===== src/Http.antt =====
-- kkp/kkp-http/include/kkp/http/
pub mod Status
pub mod HeaderNames
pub mod Headers
pub mod Methods
pub mod ContentTypes
pub mod Versions
pub mod Session
pub mod PingFrame
pub mod UriRef
