-- ===== src/Tests/Shake.antt =====
-- Runs of `handshake` of kkp/kkp-core/include/kkp/ssl/ssl_stream.hpp.
use kk_proxy.Common.{pos, ◌≡◌, refl, true, [], ◌∷◌, arith}
use kk_proxy.ErrorCode.{ok}
use kk_proxy.Ssl.Engine.{perform}
use kk_proxy.Ssl.Status.{client}
use kk_proxy.Ssl.Run.{exit, out_of_fuel, Safe, Ends}
use kk_proxy.Ssl.Stream.{SslStream}
use kk_proxy.Ssl.Stream.Handshake.{flush_loop, handshake}
use kk_proxy.Ssl.Stream.Handshake.Flush.{Finished, handshake_flushes}
use kk_proxy.Ssl.Stream.Handshake.Ending.{Flushed, GaveUp, flush_loop_delivers, flush_loop_spins}
use kk_proxy.Tests.Toy.{
  fresh, null_cipher, null_cipher-IsDocumented, quiet, wire, wire-SendsFront, wire_moves, stalled,
}

abbrev connected : SslStream null_cipher wire
connected = record { raw = quiet; engine = fresh; leftover = []; capacity = 0 }

-- The greeting goes out in the first round, and the second one succeeds.
abbrev greeted : SslStream null_cipher wire
greeted = record connected {
  raw = record quiet { sent = 22 ∷ [] };
  engine = record fresh { produced = 22 ∷ []; greeted = true };
}

handshake_greets : handshake null_cipher wire 2 2 client connected ≡ exit (ok tt) greeted
unfolding handshake perform
handshake_greets = refl

handshake_flushes_example :
    Safe
      (λ _. ⊥)
      (Finished null_cipher wire null_cipher-IsDocumented wire-SendsFront [])
      (handshake null_cipher wire 2 2 client connected)
handshake_flushes_example =
    handshake_flushes null_cipher wire null_cipher-IsDocumented wire-SendsFront [] 2 2 client
      connected refl

flush_loop_delivers_example :
    Ends
      (Flushed null_cipher wire null_cipher-IsDocumented wire-SendsFront (1 ∷ 2 ∷ 3 ∷ []) connected)
      (GaveUp null_cipher wire null_cipher-IsDocumented wire-SendsFront (1 ∷ 2 ∷ 3 ∷ []) connected)
      (λ _. ⊥)
      (flush_loop null_cipher wire 4 (1 ∷ 2 ∷ 3 ∷ []) 3 0 connected)
flush_loop_delivers_example =
    flush_loop_delivers null_cipher wire null_cipher-IsDocumented wire-SendsFront
      (λ raw buf n. wire_moves raw buf (pos 0)) 4 (1 ∷ 2 ∷ 3 ∷ []) connected (omega arith)

abbrev stuck : SslStream null_cipher stalled
stuck = record { raw = quiet; engine = fresh; leftover = []; capacity = 0 }

flush_loop_spins_example :
    flush_loop null_cipher stalled 100 (1 ∷ 2 ∷ 3 ∷ []) 3 0 stuck ≡ out_of_fuel
flush_loop_spins_example =
    flush_loop_spins null_cipher stalled (λ raw buf flag. refl) 100 (1 ∷ 2 ∷ 3 ∷ []) 3 0 stuck
      (omega arith)
