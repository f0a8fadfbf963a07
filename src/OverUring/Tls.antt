-- ===== src/OverUring/Tls.antt =====
-- An `ssl_stream` over a `socket` over io_uring, from its handshake on.
use kk_proxy.Common.{
  ℕ, ◌^◌, ◌<◌, ◌≡◌, refl, sym, ap, ◌∙◌, ◌⊎◌, inl, inr, false, List, [], ◌++◌, append-nil, arith, ℤ,
  pos, is_positive, length,
}
use kk_proxy.ErrorCode.{ok}
use kk_proxy.Uring.Awaiter.{Ring}
use kk_proxy.Uring.Kernel.{Kernel}
use kk_proxy.Uring.Kernel
use kk_proxy.Ssl.OpenSsl.{OpenSsl, IsDocumented}
use kk_proxy.Ssl.RawStream.{RawStream, SendsFront}
use kk_proxy.Ssl.Run.{exit, Ends, Safe, returns, mono}
use kk_proxy.Ssl.Stream.{SslStream}
use kk_proxy.Ssl.Stream.Send.{send}
use kk_proxy.Ssl.Stream.Send.Delivery.{send_delivers, Front, Complete}
use kk_proxy.Ssl.Stream.Handshake.{handshake}
use kk_proxy.Ssl.Status.{HandshakeType}
use kk_proxy.Ssl.Stream.Handshake.Flush.{handshake_flushes}
use kk_proxy.OverUring.RawSocket.{Calls, raw_socket, raw_socket-SendsFront, sent}

returns_of :
    {S A : Type 0} {P : S → Type 0} {Q : A → S → Type 0} {n : A} {s : S}
    → Safe P Q (exit n s)
    → Q n s
returns_of (returns q) = q

module _ (O : OpenSsl) (D : IsDocumented O) {Sqe R K : Type 0} (P : Type 0) (L : Ring Sqe R)
    (N : Kernel K) (M : Kernel.IsDocumented N) (C : Calls K) (h buf_ptr : ℕ) where
  open D use {outgoing, produced, accepted}

  -- the stream below, and what was sent on its descriptor
  abbrev pub over : RawStream
  over = raw_socket P L N C h buf_ptr

  abbrev pub wire : SslStream O over → List ℕ
  wire s = sent P L N C h buf_ptr M s.raw

  -- What the kernel has sent since `s` is a front of the ciphertext, and all of it with `buf` in it.
  abbrev pub IsSentFront : SslStream O over → SslStream O over → Type 0
  IsSentFront s u = (rest : List ℕ) × (wire u ++ rest ≡ wire s ++ produced u.engine)

  abbrev pub IsSent : List ℕ → (s t u : SslStream O over) → ℤ → Type 0
  IsSent buf s t u n =
      (n ≡ pos (length buf))
      × (accepted u.engine ≡ accepted t.engine ++ buf)
      × (wire u ≡ wire s ++ produced u.engine)

  -- From a stream that has produced no ciphertext yet, a handshake of either side that succeeds, and then
  -- `send` of a buffer of at least one and less than 2^31 bytes: the `send` always ends. It returns
  -- the length of the buffer, and then all of it was taken by SSL_write behind what was taken
  -- before, and the kernel has sent, behind what it had sent before the handshake, exactly the
  -- ciphertext of the handshake and of the data, in order; or it returns a result that is not positive,
  -- or throws, and then what the kernel has sent is a front of that.
  pub session_delivers :
      (rounds sends : ℕ) (side : HandshakeType) (flag : ℤ) (buf : List ℕ) (s t : SslStream O over)
      → 0 < length buf
      → length buf < 2 ^ 31
      → outgoing s.engine ≡ []
      → produced s.engine ≡ []
      → handshake O over rounds sends side s ≡ exit (ok tt) t
      → Ends
          (λ _. ⊥)
          (λ n u. IsSent buf s t u n ⊎ ((is_positive n ≡ false) × IsSentFront s u))
          (λ u. IsSentFront s u)
          (send O over flag buf t)
  session_delivers rounds sends side flag buf s t full small none fresh done =
      mono (send_delivers O over D sends_front flag (wire s) buf t small flow) (λ _ b. b)
        (λ n u (q, _, _). outcome n u q) (λ u f. f)
    where
      sends_front : SendsFront over
      sends_front = raw_socket-SendsFront P L N C h buf_ptr M

      start : wire s ++ outgoing s.engine ≡ wire s ++ produced s.engine
      start = rw (none, fresh) refl

      after : (wire t ≡ wire s ++ produced t.engine) × (outgoing t.engine ≡ [])
      after =
          let f = handshake_flushes O over D sends_front (wire s) rounds sends side s start in
          returns_of (rw done at f)

      flow : wire t ++ outgoing t.engine ≡ wire s ++ produced t.engine
      flow = rw (after.1, append-nil (wire t)) (after.0)

      outcome :
          (n : ℤ) (u : SslStream O over)
          → (Complete O over D sends_front (wire s) (accepted t.engine) buf n u
              ⊎ ((is_positive n ≡ false) × Front O over D sends_front (wire s) u))
          → IsSent buf s t u n ⊎ ((is_positive n ≡ false) × IsSentFront s u)
      outcome n u (inr f) = inr f
      outcome n u (inl (e, a, w, inr out)) =
          inl (e, a, ((sym (append-nil (wire u)) ∙ ap (λ xs. wire u ++ xs) (sym out)) ∙ w))
      outcome n u (inl (e, a, w, inl nil)) = absurd (omega (arith, full, ap length nil))
