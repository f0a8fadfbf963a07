-- ===== src/Ssl/Status.antt =====
-- `handshake_type`, `ssl_status` and `get_ssl_status`: kkp/kkp-core/include/kkp/ssl/ssl_common.hpp.
use kk_proxy.Common.{ℤ}
use kk_proxy.Ssl.OpenSsl.{OpenSsl, SslError}

pub data HandshakeType : Type 0 where
  client server : HandshakeType

pub data SslStatus : Type 0 where
  ok error error_syscall want_read want_write : SslStatus

-- The `switch` over the code of SSL_get_error.
abbrev pub status_of : SslError → SslStatus
status_of SslError.none = ok
status_of SslError.want_read = want_read
status_of SslError.want_write = want_write
status_of SslError.syscall = error_syscall
status_of (SslError.other code) = error

abbrev pub get_ssl_status : (O : OpenSsl) → O.Ssl → ℤ → SslStatus
get_ssl_status O ssl n = status_of (O.get_error ssl n)
