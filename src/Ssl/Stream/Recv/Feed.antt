-- ===== src/Ssl/Stream/Recv/Feed.antt =====
-- What `ssl_stream::recv` hands from the raw stream to OpenSSL.
use kk_proxy.Common.{
  ℕ, suc, ◌^◌, ◌<◌, ◌≡◌, refl, sym, ap, ◌∙◌, ◌⊎◌, inl, inr, true, List, [], ◌++◌, append-nil, arith,
  ℤ, pos_part, is_positive, is_negative, if◌then◌else◌, to_int, lt→ltb, Bool-cases, length, take,
  take_all, length-eq-zero,
}
use kk_proxy.Ssl.OpenSsl.{OpenSsl, IsDocumented}
use kk_proxy.Ssl.RawStream.{RawStream}
use kk_proxy.Ssl.Status.{get_ssl_status}
use kk_proxy.Ssl.Run.{Run, Ends, exits}
use kk_proxy.Ssl.Stream.{SslStream}
use kk_proxy.Ssl.Stream.Recv.{
  Received, decrypt_some, decrypt_loop, recv_raw, recv_engine, recv, read_leftover, wants_io,
}
use kk_proxy.Ssl.Stream.Recv.Sizes.{sub_size_zero}
use kk_proxy.Ssl.Stream.Recv.Exact.{not_positive, status-ok}

-- BIO_s_mem(3): a write to a memory BIO takes the whole buffer or fails. `fed` is all that was written to
-- the read BIO; SSL_read takes from it and writes nothing there.
pub record IsMemoryBio (O : OpenSsl) : Type 0 where
  pub fed : O.Ssl → List ℕ
  pub bio_write-fed :
      (s : O.Ssl) (buf : List ℕ) (n : ℤ)
      → fed (O.bio_write s buf n).1
        ≡ (if is_positive (O.bio_write s buf n).0 then fed s ++ take (pos_part n) buf else fed s)
  pub ssl_read-fed : (s : O.Ssl) (n : ℤ) → fed (O.ssl_read s n).2 ≡ fed s

-- recv(2): a positive result is the number of bytes in the buffer, and any other comes with none. `received`
-- is all that was received so far.
pub record Receives (R : RawStream) : Type 0 where
  pub received : R.State → List ℕ
  pub recv-count :
      (s : R.State) (len : ℕ) (flag : ℤ)
      → length (R.recv s len flag).1 ≡ pos_part (R.recv s len flag).0
  pub received-recv :
      (s : R.State) (len : ℕ) (flag : ℤ)
      → received (R.recv s len flag).2 ≡ received s ++ (R.recv s len flag).1

module _ (O : OpenSsl) (R : RawStream) (D : IsDocumented O) (B : IsMemoryBio O)
    (N : Receives R) where
  open B use {fed}
  open N use {received}

  -- All that was received was handed to OpenSSL, in order.
  abbrev pub Fed : SslStream O R → Type 0
  Fed s = fed s.engine ≡ received s.raw

  abbrev pub FedOr : Received → SslStream O R → Type 0
  FedOr (n, bytes) t = (is_negative n ≡ true) ⊎ Fed t

  decrypt_some-Fed :
      (len : ℕ) (s : SslStream O R)
      → Fed s
      → (again : ℕ → List ℕ → SslStream O R → Run (SslStream O R) Received)
      → Ends (λ _. ⊥) FedOr (λ _. ⊥) (decrypt_some O R len 0 [] s again)
  unfolding decrypt_some
  decrypt_some-Fed len s f again =
      let r = O.ssl_read s.engine (to_int len) in
      let f' = B.ssl_read-fed s.engine (to_int len) ∙ f in
      elim (Bool-cases (is_positive r.0)) [
        | inl got ↦ rw (got, decrypt_some) (rw (status-ok O R D r.2 r.0 got) (exits (inr f')))
        | inr none ↦
            rw (none, decrypt_some)
              (elim (Bool-cases (wants_io (get_ssl_status O r.2 r.0))) [
                | inl want ↦ rw want (exits (inr f'))
                | inr bad ↦ rw bad (exits (inl refl))
              ])
      ]

  decrypt_loop-Fed :
      (fuel len : ℕ) (s : SslStream O R)
      → 0 < len
      → len < 2 ^ 31
      → Fed s
      → Ends (λ _. ⊥) FedOr (λ _. ⊥) (decrypt_loop O R (suc fuel) len 0 [] s)
  unfolding decrypt_loop
  decrypt_loop-Fed fuel len s p h f =
      rw (sub_size_zero len h, decrypt_loop)
        (rw (lt→ltb 0 len p) (
          rw (sub_size_zero len h)
            (decrypt_some-Fed len s f (λ more found t. decrypt_loop O R fuel len more found t))))

  recv_raw-Fed :
      (fuel len : ℕ) (flag : ℤ) (s : SslStream O R)
      → 0 < len
      → len < 2 ^ 31
      → Fed s
      → Ends (λ _. ⊥) FedOr (λ _. ⊥) (recv_raw O R (suc fuel) len flag s)
  unfolding recv_raw
  recv_raw-Fed fuel len flag s p h f =
      let r = R.recv s.raw len flag in
      let w = O.bio_write s.engine r.1 r.0 in
      let all : take (pos_part r.0) r.1 ≡ r.1 =
        take_all (pos_part r.0) r.1 (omega (arith, N.recv-count s.raw len flag)) in
      elim (Bool-cases (is_positive r.0)) [
        | inr none ↦
            let nothing : r.1 ≡ [] =
              length-eq-zero r.1
                (omega (arith, N.recv-count s.raw len flag, not_positive r.0 none)) in
            rw (none, recv_raw)
              (exits (
                inr (
                  sym (
                    N.received-recv s.raw len flag
                    ∙ ap (◌++◌ (received s.raw)) nothing
                    ∙ append-nil (received s.raw)
                    ∙ sym f))))
        | inl came ↦
            rw (came, recv_raw)
              (elim (Bool-cases (is_positive w.0)) [
                | inr full ↦ rw full (exits (inl refl))
                | inl wrote ↦
                    let taken : fed w.1 ≡ fed s.engine ++ take (pos_part r.0) r.1 =
                      B.bio_write-fed s.engine r.1 r.0 ∙ rw (wrote) refl in
                    rw wrote (
                      decrypt_loop-Fed fuel len (record s { raw = r.2; engine = w.1 }) p h
                        (taken
                          ∙ ap (◌++◌ (fed s.engine)) all
                          ∙ ap (λ x. x ++ r.1) f
                          ∙ sym (N.received-recv s.raw len flag)))
              ])
      ]

  -- When `recv` returns no negative result, all that was received was handed to OpenSSL, in order.
  pub recv-Fed :
      (fuel len : ℕ) (flag : ℤ) (s : SslStream O R)
      → 0 < len
      → len < 2 ^ 31
      → s.leftover ≡ []
      → Fed s
      → Ends (λ _. ⊥) FedOr (λ _. ⊥) (recv O R (suc fuel) len flag s)
  unfolding recv recv_engine
  recv-Fed fuel len flag s p h e f =
      let r = O.ssl_read s.engine (to_int len) in
      let f' = B.ssl_read-fed s.engine (to_int len) ∙ f in
      rw (e, read_leftover)
        (elim (Bool-cases (is_positive r.0)) [
          | inl got ↦ rw (got, recv_engine) (exits (inr f'))
          | inr none ↦
              rw (none, recv_engine)
                (recv_raw-Fed fuel len flag (record s { engine = r.2; leftover = [] }) p h f')
        ])
