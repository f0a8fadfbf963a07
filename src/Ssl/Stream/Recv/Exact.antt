-- ===== src/Ssl/Stream/Recv/Exact.antt =====
-- What `ssl_stream::recv` returns on every branch, for a stream with no leftover.
use kk_proxy.Common.{
  ℕ, suc, ◌^◌, ◌≤◌, ◌<◌, ◌≡◌, refl, sym, ap, ◌∙◌, inl, inr, true, false, List, [], ◌++◌, append-nil,
  arith, ℤ, pos, negsuc, pos_part, is_positive, to_int, to_int_small, lt→ltb, Bool-cases, length,
  length-eq-zero,
}
use kk_proxy.Ssl.OpenSsl.{OpenSsl, IsDocumented}
use kk_proxy.Ssl.RawStream.{RawStream}
use kk_proxy.Ssl.Status.{status_of, get_ssl_status}
use kk_proxy.Ssl.Run.{Run, Ends, exits, mono}
use kk_proxy.Ssl.Stream.{SslStream}
use kk_proxy.Ssl.Stream.Recv.{
  Received, decrypt_some, decrypt_loop, recv_raw, recv_engine, recv, read_leftover, wants_io, is_ok,
}
use kk_proxy.Ssl.Stream.Recv.Sizes.{sub_size_zero}

pub not_positive : (n : ℤ) → is_positive n ≡ false → pos_part n ≡ 0
not_positive (pos n) h = ground arith
not_positive (negsuc n) h = refl

module _ (O : OpenSsl) (R : RawStream) (D : IsDocumented O) where
  open D use {decrypted}

  -- `leftover_` is as before, at most `len` bytes were put in the buffer, as many as the result
  -- says, and they are what SSL_read gave.
  abbrev pub Exact : ℕ → SslStream O R → Received → SslStream O R → Type 0
  Exact len s (n, bytes) t =
      (pos_part n ≤ len)
      × (length bytes ≡ pos_part n)
      × (decrypted t.engine ≡ decrypted s.engine ++ bytes)
      × (t.leftover ≡ s.leftover)
      × (t.capacity ≡ s.capacity)

  pub status-ok : (e : O.Ssl) (n : ℤ) → is_positive n ≡ true → is_ok (get_ssl_status O e n) ≡ true
  status-ok e n h = ap (λ x. is_ok (status_of x)) ((D.get_error-none e n).1 h)

  -- One SSL_read with room for `len` bytes.
  ssl_read-Exact :
      (len : ℕ) (s : SslStream O R)
      → len < 2 ^ 31
      → let r = O.ssl_read s.engine (to_int len) in
        (pos_part r.0 ≤ len)
        × (length r.1 ≡ pos_part r.0)
        × (decrypted r.2 ≡ decrypted s.engine ++ r.1)
  ssl_read-Exact len s h = (
    omega (arith, D.ssl_read-count s.engine (to_int len), ap pos_part (to_int_small len h)),
    (D.ssl_read-count s.engine (to_int len)).1,
    D.ssl_read-decrypted s.engine (to_int len),
  )

  -- A read that gives nothing leaves the plaintext where it was.
  ssl_read_nothing :
      (e : O.Ssl) (n : ℤ)
      → is_positive (O.ssl_read e n).0 ≡ false
      → decrypted (O.ssl_read e n).2 ≡ decrypted e
  ssl_read_nothing e n h =
      let none : (O.ssl_read e n).1 ≡ [] =
        length-eq-zero (O.ssl_read e n).1
          (omega (arith, (D.ssl_read-count e n).1, not_positive (O.ssl_read e n).0 h)) in
      D.ssl_read-decrypted e n ∙ ap (◌++◌ (decrypted e)) none ∙ append-nil (decrypted e)

  nothing :
      (len : ℕ) (s t : SslStream O R) (n : ℤ)
      → is_positive n ≡ false
      → decrypted t.engine ≡ decrypted s.engine
      → t.leftover ≡ s.leftover
      → t.capacity ≡ s.capacity
      → Exact len s (n, []) t
  nothing len s t n h same left cap = (
    omega (arith, not_positive n h),
    omega (arith, not_positive n h),
    same ∙ sym (append-nil (decrypted s.engine)),
    left,
    cap,
  )

  decrypt_some_lem :
      (len : ℕ) (s : SslStream O R)
      → len < 2 ^ 31
      → (again : ℕ → List ℕ → SslStream O R → Run (SslStream O R) Received)
      → Ends (λ _. ⊥) (Exact len s) (λ _. ⊥) (decrypt_some O R len 0 [] s again)
  unfolding decrypt_some
  decrypt_some_lem len s h again =
      let r = O.ssl_read s.engine (to_int len) in
      let (most, count, plain) = ssl_read-Exact len s h in
      elim (Bool-cases (is_positive r.0)) [
        | inl got ↦
            rw (got, decrypt_some)
              (rw (status-ok r.2 r.0 got) (exits (omega arith, omega arith, plain, refl, refl)))
        | inr none ↦
            let same = ssl_read_nothing s.engine (to_int len) none in
            rw (none, decrypt_some)
              (elim (Bool-cases (wants_io (get_ssl_status O r.2 r.0))) [
                | inl want ↦
                    rw want (
                      exits (nothing len s (record s { engine = r.2 }) (pos 0) refl same refl refl))
                | inr bad ↦ rw bad (
                    exits
                      (nothing len s (record s { engine = r.2 }) (negsuc 0) refl same refl refl))
              ])
      ]

  decrypt_loop_lem :
      (fuel len : ℕ) (s : SslStream O R)
      → 0 < len
      → len < 2 ^ 31
      → Ends (λ _. ⊥) (Exact len s) (λ _. ⊥) (decrypt_loop O R (suc fuel) len 0 [] s)
  unfolding decrypt_loop
  decrypt_loop_lem fuel len s p h =
      rw (sub_size_zero len h, decrypt_loop)
        (rw (lt→ltb 0 len p) (
          rw (sub_size_zero len h)
            (decrypt_some_lem len s h (λ more got t. decrypt_loop O R fuel len more got t))))

  recv_raw_lem :
      (fuel len : ℕ) (flag : ℤ) (s : SslStream O R)
      → 0 < len
      → len < 2 ^ 31
      → Ends (λ _. ⊥) (Exact len s) (λ _. ⊥) (recv_raw O R (suc fuel) len flag s)
  unfolding recv_raw
  recv_raw_lem fuel len flag s p h =
      let r = R.recv s.raw len flag in
      let w = O.bio_write s.engine r.1 r.0 in
      let s₂ : SslStream O R = record s { raw = r.2; engine = w.1 } in
      elim (Bool-cases (is_positive r.0)) [
        | inr none ↦
            rw (none, recv_raw)
              (exits (nothing len s (record s { raw = r.2 }) r.0 none refl refl refl))
        | inl came ↦
            rw (came, recv_raw)
              (elim (Bool-cases (is_positive w.0)) [
                | inr full ↦ rw full (
                    exits (
                      nothing len s s₂ (negsuc 0) refl (D.bio_write-decrypted s.engine r.1 r.0) refl
                        refl))
                | inl wrote ↦ rw wrote (
                    mono (decrypt_loop_lem fuel len s₂ p h) (λ t b. b)
                      (λ (n, bytes) t (most, count, plain, left, cap). (
                        most,
                        count,
                        plain ∙ ap (λ x. x ++ bytes) (D.bio_write-decrypted s.engine r.1 r.0),
                        left,
                        cap,
                      ))
                      (λ t b. b))
              ])
      ]

  recv_engine_lem :
      (fuel len : ℕ) (flag : ℤ) (s : SslStream O R)
      → 0 < len
      → len < 2 ^ 31
      → Ends (λ _. ⊥) (Exact len s) (λ _. ⊥) (recv_engine O R (suc fuel) len flag s)
  unfolding recv_engine
  recv_engine_lem fuel len flag s p h =
      let r = O.ssl_read s.engine (to_int len) in
      let (most, count, plain) = ssl_read-Exact len s h in
      elim (Bool-cases (is_positive r.0)) [
        | inl got ↦ rw (got, recv_engine) (exits (most, count, plain, refl, refl))
        | inr none ↦
            rw (none, recv_engine)
              (mono (recv_raw_lem fuel len flag (record s { engine = r.2 }) p h) (λ t b. b)
                (λ (n, bytes) t (most', count', plain', left, cap). (
                  most',
                  count',
                  plain' ∙ ap (λ x. x ++ bytes) (ssl_read_nothing s.engine (to_int len) none),
                  left,
                  cap,
                ))
                (λ t b. b))
      ]

  -- With no leftover and a buffer of `len` bytes, 0 < len < 2^31, `recv` ends within one round of
  -- its loop, on every branch, errors included: a positive result is the number of bytes that were
  -- put in the buffer, at most `len`, any other result goes with no byte, the bytes are exactly the
  -- plaintext that SSL_read gave in the call, and the leftover stays empty at its capacity.
  pub recv-Exact :
      (fuel len : ℕ) (flag : ℤ) (s : SslStream O R)
      → 0 < len
      → len < 2 ^ 31
      → s.leftover ≡ []
      → Ends (λ _. ⊥) (Exact len s) (λ _. ⊥) (recv O R (suc fuel) len flag s)
  unfolding recv
  recv-Exact fuel len flag s p h e =
      rw (e, read_leftover) (recv_engine_lem fuel len flag (record s { leftover = [] }) p h)
