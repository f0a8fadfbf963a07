-- ===== src/Tests/Tls.antt =====
-- Runs of `send` and `recv` of kkp/kkp-core/include/kkp/ssl/ssl_stream.hpp.
use kk_proxy.Common.{some, List, ℕ, ◌≡◌, refl, [], ◌∷◌, pos, arith}
use kk_proxy.Ssl.Run.{exit, Ends}
use kk_proxy.Ssl.Stream.{SslStream}
use kk_proxy.Ssl.Stream.Send.{send}
use kk_proxy.Ssl.Stream.Recv.{recv}
use kk_proxy.Ssl.Stream.Recv.Exact.{Exact, recv-Exact}
use kk_proxy.Ssl.Stream.Transfer.{send_all, recv_all}
use kk_proxy.Ssl.Stream.Transfer.Laws.{recv_all-send_all}
use kk_proxy.Tests.Toy.{
  null_cipher-IsMemoryBio, wire-Receives, fresh, null_cipher, null_cipher-IsDocumented, quiet, wire,
  wire-SendsFront,
}

abbrev connected : SslStream null_cipher wire
connected = record { raw = quiet; engine = fresh; leftover = []; capacity = 0 }

abbrev three_sent : SslStream null_cipher wire
three_sent = record connected {
  raw = record quiet { sent = 1 ∷ 2 ∷ 3 ∷ [] };
  engine = record fresh { produced = 1 ∷ 2 ∷ 3 ∷ []; accepted = 1 ∷ 2 ∷ 3 ∷ [] };
}

-- Three bytes go out in two calls of the raw stream.
send_three : send null_cipher wire (pos 0) (1 ∷ 2 ∷ 3 ∷ []) connected ≡ exit (pos 3) three_sent
unfolding send
send_three = refl

-- The peer sends a record of two bytes.
abbrev arriving : SslStream null_cipher wire
arriving = record connected { raw = record quiet { incoming = (5 ∷ 6 ∷ []) ∷ [] } }

recv-Exact_example :
    Ends
      (λ _. ⊥)
      (Exact null_cipher wire null_cipher-IsDocumented 16 arriving)
      (λ _. ⊥)
      (recv null_cipher wire 1 16 (pos 0) arriving)
recv-Exact_example =
    recv-Exact null_cipher wire null_cipher-IsDocumented 0 16 (pos 0) arriving (omega arith)
      (omega arith) refl

-- The writer's three bytes, of which the first two have arrived as a record.
abbrev reading : SslStream null_cipher wire
reading = record connected { raw = record quiet { incoming = (1 ∷ 2 ∷ []) ∷ [] } }

abbrev two_read : SslStream null_cipher wire
two_read = record connected {
  raw = record quiet { received = 1 ∷ 2 ∷ [] };
  engine = record fresh { decrypted = 1 ∷ 2 ∷ [] };
}

two_calls : recv_all null_cipher wire (16 ∷ 16 ∷ []) reading ≡ some (1 ∷ 2 ∷ [], two_read)
unfolding recv_all recv
two_calls = refl

-- In the null cipher what was decrypted and what is still in the BIO were fed.
abbrev still_front :
    (r : List ℕ) → 1 ∷ 2 ∷ r ≡ 1 ∷ 2 ∷ 3 ∷ [] → (r' : List ℕ) × (1 ∷ 2 ∷ r' ≡ 1 ∷ 2 ∷ 3 ∷ [])
still_front r e = (r, e)

recv_all-send_all_example : (rest : List ℕ) × (1 ∷ 2 ∷ rest ≡ 1 ∷ 2 ∷ 3 ∷ [])
unfolding send_all recv_all send recv
recv_all-send_all_example =
    recv_all-send_all null_cipher wire null_cipher-IsDocumented null_cipher-IsMemoryBio
      wire-Receives wire-SendsFront ((1 ∷ 2 ∷ 3 ∷ []) ∷ []) (16 ∷ 16 ∷ []) connected three_sent
      reading two_read (1 ∷ 2 ∷ []) (3 ∷ []) (omega arith, omega arith, tt)
      (omega arith, omega arith, (omega arith, omega arith, tt)) refl refl refl refl refl refl refl
      refl still_front
