-- ===== src/Stream.antt =====
-- `base_stream` over a socket and a TLS stream, and `stream_clear_left`:
-- kkp/kkp-core/include/kkp/stream.hpp. `R` is the socket.
pub mod Ownership
use kk_proxy.Common.{ℕ, Bool, List, [], ℤ, pos}
use kk_proxy.Ssl.OpenSsl.{OpenSsl}
use kk_proxy.Ssl.RawStream.{RawStream}
use kk_proxy.Ssl.Run.{Run, next, exit, thrown, out_of_fuel}
use kk_proxy.Ssl.Stream.{SslStream}
use kk_proxy.Ssl.Stream as SslStreams
use kk_proxy.Ssl.Stream.Send
use kk_proxy.Ssl.Stream.Recv.{Received, clear_left}
use kk_proxy.Ssl.Stream.Recv

-- std::variant
pub data Stream (O : OpenSsl) (R : RawStream) : Type 0 where
  socket : R.State → Stream O R
  ssl : SslStream O R → Stream O R

-- A run of one alternative as a run of the variant.
abbrev pub within : {S T A : Type 0} → (S → T) → Run S A → Run T A
within f (next s) = next (f s)
within f (exit n s) = exit n (f s)
within f (thrown e s) = thrown e (f s)
within f out_of_fuel = out_of_fuel

module _ (O : OpenSsl) (R : RawStream) where
  -- The constructor of `ssl_stream`, over an SSL object with two fresh BIOs.
  abbrev pub ssl_stream : R.State → O.Ssl → SslStream O R
  ssl_stream raw engine = record { raw = raw; engine = engine; leftover = []; capacity = 4096 }

  unfoldable pub send : List ℕ → ℤ → Stream O R → Run (Stream O R) ℤ
  send buf flags (socket raw) = let (n, raw') = R.send raw buf flags in exit n (socket raw')
  send buf flags (ssl s) = within (λ t. ssl t) (Send.send O R flags buf s)

  -- `fuel` is that of the loop of `ssl_stream::recv`.
  unfoldable pub recv : ℕ → (len : ℕ) → ℤ → Stream O R → Run (Stream O R) Received
  recv fuel len flags (socket raw) =
      let (n, bytes, raw') = R.recv raw len flags in exit (n, bytes) (socket raw')
  recv fuel len flags (ssl s) = within (λ t. ssl t) (Recv.recv O R fuel len flags s)

  abbrev pub is_alive : Stream O R → Bool
  is_alive (socket raw) = R.is_alive raw
  is_alive (ssl s) = SslStreams.is_alive O R s

  unfoldable pub close : Stream O R → Bool × Stream O R
  close (socket raw) = let (done, raw') = R.close raw in (done, socket raw')
  close (ssl s) = let (done, t) = SslStreams.close O R s in (done, ssl t)

  unfoldable pub stream_clear_left : Stream O R → ℕ × Stream O R
  unfolding clear_left
  stream_clear_left (ssl s) = let (size, t) = clear_left O R s in (size, ssl t)
  stream_clear_left (socket raw) = (0, socket raw)
