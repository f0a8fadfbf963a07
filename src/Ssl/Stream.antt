-- ===== src/Ssl/Stream.antt =====
-- `ssl_stream` of kkp/kkp-core/include/kkp/ssl/ssl_stream.hpp, over any raw stream.
use kk_proxy.Common.{ℕ, Bool, List}
use kk_proxy.Ssl.OpenSsl.{OpenSsl}
use kk_proxy.Ssl.RawStream.{RawStream}
pub mod Send
pub mod Recv
pub mod Handshake
pub mod Ownership
pub mod Transfer

-- `leftover_`, a vector, is given by its elements and its capacity.
pub record SslStream (O : OpenSsl) (R : RawStream) : Type 0 where
  pub raw : R.State
  pub engine : O.Ssl
  pub leftover : List ℕ
  pub capacity : ℕ

module _ (O : OpenSsl) (R : RawStream) where
  -- Also the arrow of the stream.
  abbrev pub raw_stream : SslStream O R → R.State
  raw_stream s = s.raw

  abbrev pub is_alive : SslStream O R → Bool
  is_alive s = R.is_alive s.raw

  abbrev pub close : SslStream O R → Bool × SslStream O R
  close s = let (done, raw') = R.close s.raw in (done, record s { raw = raw' })
