-- ===== src/Ssl/Stream/Transfer.antt =====
-- Two `ssl_stream`s over a network: sequences of `send` on the one, and of `recv` on the other.
pub mod Laws
use kk_proxy.Common.{
  ℕ, ◌^◌, ◌<◌, ◌≡◌, refl, sym, ap, ◌∙◌, inl, inr, Option, none, some, List, [], ◌∷◌, ◌++◌,
  append-nil, append_assoc, some-injective, subst, Option-cases, lt→ltb, ltb, arith, ℤ, pos,
  is_positive, is_negative, eq_ℤ, eq_ℤ→eq, if◌then◌else◌, Bool-cases, length,
}
use kk_proxy.Ssl.OpenSsl.{OpenSsl, IsDocumented}
use kk_proxy.Ssl.RawStream.{RawStream, SendsFront}
use kk_proxy.Ssl.Run.{Run, next, exit, thrown, out_of_fuel, Ends, exits}
use kk_proxy.Ssl.Stream.{SslStream}
use kk_proxy.Ssl.Stream.Send.{send}
use kk_proxy.Ssl.Stream.Send.Delivery.{Flow, Complete, Outcome, Front, send_delivers}
use kk_proxy.Ssl.Stream.Recv.{Received, recv}
use kk_proxy.Ssl.Stream.Recv.Exact.{Exact, recv-Exact}
use kk_proxy.Ssl.Stream.Recv.Feed.{IsMemoryBio, Receives, Fed, FedOr, recv-Fed}

module _ (O : OpenSsl) (R : RawStream) where
  -- A `send` that returned the length of its buffer.
  abbrev pub sent_all : ℕ → Run (SslStream O R) ℤ → Option (SslStream O R)
  sent_all len (exit n s) = if eq_ℤ n (pos len) then some s else none
  sent_all len _ = none

  -- A `recv` with no negative result: what it put in the buffer.
  abbrev pub got : Run (SslStream O R) Received → Option (List ℕ × SslStream O R)
  got (exit (n, bytes) s) = if is_negative n then none else some (bytes, s)
  got _ = none

  -- One buffer after the other; `none` when a call fails.
  unfoldable pub send_all : List (List ℕ) → SslStream O R → Option (SslStream O R)
  send_all [] s = some s
  send_all (buf ∷ bufs) s = elim (sent_all (length buf) (send O R (pos 0) buf s)) [
    | none ↦ none
    | some t ↦ send_all bufs t
  ]

  abbrev pub in_front : List ℕ → Option (List ℕ × SslStream O R) → Option (List ℕ × SslStream O R)
  in_front bytes none = none
  in_front bytes (some (more, s)) = some (bytes ++ more, s)

  -- One call after the other, with these sizes of the buffer, and what they gave together. One round of the
  -- loop of `recv` is enough.
  unfoldable pub recv_all : List ℕ → SslStream O R → Option (List ℕ × SslStream O R)
  recv_all [] s = some ([], s)
  recv_all (len ∷ lens) s = elim (got (recv O R 1 len (pos 0) s)) [
    | none ↦ none
    | some (bytes, t) ↦ in_front bytes (recv_all lens t)
  ]

abbrev pub concat : List (List ℕ) → List ℕ
concat [] = []
concat (buf ∷ bufs) = buf ++ concat bufs

-- Buffers of at least one and less than 2^31 bytes, and sizes of such buffers.
abbrev pub Sizes : List ℕ → Type 0
Sizes [] = Unit
Sizes (len ∷ lens) = (0 < len) × (len < 2 ^ 31) × Sizes lens

abbrev pub Buffers : List (List ℕ) → Type 0
Buffers [] = Unit
Buffers (buf ∷ bufs) = (0 < length buf) × (length buf < 2 ^ 31) × Buffers bufs
