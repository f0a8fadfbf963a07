-- ===== src/Ssl/Stream/Send/Delivery.antt =====
-- What `ssl_stream::send` hands to OpenSSL and to the raw stream.
use kk_proxy.Common.{
  ℕ, zero, suc, ◌+◌, ◌-◌, ◌^◌, ◌≤◌, ◌<◌, ◌≡◌, refl, sym, ap, ◌∙◌, ◌⊎◌, inl, inr, false, List, [],
  ◌++◌, append_assoc, append-nil, arith, ℤ, pos, pos_part, is_positive, pos_part_positive, to_int,
  to_int_small, not_ltb, ltb, ltb→lt, length-eq-zero, Bool-cases, length, drop, drop_all,
  append-take-drop,
}
use kk_proxy.Ssl.OpenSsl.{OpenSsl, IsDocumented}
use kk_proxy.Ssl.RawStream.{RawStream, SendsFront}
use kk_proxy.Ssl.Run.{Ends, exits, throws, bind, mono}
use kk_proxy.Ssl.Stream.{SslStream}
use kk_proxy.Ssl.Stream.Send.{send_loop, send}
use kk_proxy.Ssl.Stream.Send.Drain.{drain_loop_lem}

module _ (O : OpenSsl) (R : RawStream) (D : IsDocumented O) (F : SendsFront R) where
  open D use {outgoing, produced, accepted}
  open F use {sent}

  -- The ciphertext that OpenSSL produced was sent, behind `pre`, but for what waits in the BIO.
  abbrev pub Flow : List ℕ → SslStream O R → Type 0
  Flow pre s = sent s.raw ++ outgoing s.engine ≡ pre ++ produced s.engine

  -- What was sent is a front of it: nothing is sent twice or out of order.
  abbrev pub Front : List ℕ → SslStream O R → Type 0
  Front pre s = (rest : List ℕ) × (sent s.raw ++ rest ≡ pre ++ produced s.engine)

  -- All of `buf` was taken by SSL_write, and all ciphertext is out.
  abbrev pub Complete : List ℕ → List ℕ → List ℕ → ℤ → SslStream O R → Type 0
  Complete pre plain buf n t =
      (n ≡ pos (length buf))
      × (accepted t.engine ≡ plain ++ buf)
      × Flow pre t
      × ((buf ≡ []) ⊎ (outgoing t.engine ≡ []))

  abbrev pub Outcome : List ℕ → List ℕ → List ℕ → ℕ → List ℕ → ℤ → SslStream O R → Type 0
  Outcome pre plain left cap buf n t =
      (Complete pre plain buf n t ⊎ ((is_positive n ≡ false) × Front pre t))
      × (t.leftover ≡ left)
      × (t.capacity ≡ cap)

  Flow-ssl_write :
      (pre : List ℕ) (s : SslStream O R) (buf : List ℕ) (n : ℤ)
      → Flow pre s
      → let e = (O.ssl_write s.engine buf n).1 in sent s.raw ++ outgoing e ≡ pre ++ produced e
  Flow-ssl_write pre s buf n w =
      let (bytes, o, p) = D.ssl_write-appends s.engine buf n in
      rw (o, p, ← append_assoc (sent s.raw) (outgoing s.engine) bytes, w)
        (append_assoc pre (produced s.engine) bytes)

  module _ (flag : ℤ) (pre plain left : List ℕ) (cap : ℕ) (buf : List ℕ)
      (small : length buf < 2 ^ 31) where
    ssl_write_fits :
        (c : ℕ) (s : SslStream O R)
        → c ≤ length buf
        → c + pos_part (O.ssl_write s.engine (drop c buf) (to_int (length buf - c))).0 ≤ length buf
    ssl_write_fits c s m =
        let small' : to_int (length buf - c) ≡ pos (length buf - c) =
          to_int_small (length buf - c) (omega arith) in
        omega (
          arith,
          D.ssl_write-count s.engine (drop c buf) (to_int (length buf - c)),
          ap pos_part small',
        )

    send_loop_lem :
        (fuel c : ℕ) (s : SslStream O R)
        → c ≤ length buf
        → length buf < c + fuel
        → accepted s.engine ++ drop c buf ≡ plain ++ buf
        → Flow pre s
        → (0 < c → outgoing s.engine ≡ [])
        → s.leftover ≡ left
        → s.capacity ≡ cap
        → Ends
            (λ _. ⊥)
            (Outcome pre plain left cap buf)
            (Front pre)
            (send_loop O R flag fuel buf c s)
    unfolding send_loop
    send_loop_lem zero c s m f a w z l k = absurd (omega arith)
    send_loop_lem (suc fuel) c s m f a w z l k = elim (Bool-cases (ltb c (length buf))) [
      | inr done ↦
          let all : c ≡ length buf = omega (arith, not_ltb c (length buf) done) in
          rw (done, send_loop)
            (exits (
              inl (
                to_int_small c (omega arith) ∙ ap pos all,
                sym (append-nil (accepted s.engine))
                    ∙ ap (◌++◌ (accepted s.engine)) (sym (drop_all c buf (omega arith)))
                    ∙ a,
                w,
                elim (Bool-cases (ltb 0 (length buf))) [
                  | inl some_bytes ↦ inr (z (omega (arith, ltb→lt 0 (length buf) some_bytes)))
                  | inr none ↦ inl (length-eq-zero buf (omega (arith, not_ltb 0 (length buf) none)))
                ],
              ),
              l,
              k,
            ))
      | inl more ↦
          let r = O.ssl_write s.engine (drop c buf) (to_int (length buf - c)) in
          let w' = Flow-ssl_write pre s (drop c buf) (to_int (length buf - c)) w in
          let fits : c + pos_part r.0 ≤ length buf = ssl_write_fits c s m in
          rw (more, send_loop)
            (elim (Bool-cases (is_positive r.0)) [
              | inr refused ↦ rw refused (throws (outgoing r.1, w'))
              | inl took ↦ rw took (
                  bind
                    (mono
                      (drain_loop_lem O R D F flag _ (record s { engine = r.1 })
                        (pre ++ produced r.1) (omega (arith, D.pending r.1)) w')
                      (λ t p. p)
                      (λ n t (stuck, (rest, e), p, q, fr).
                        (inr (stuck, (rest, e ∙ ap (◌++◌ pre) (sym p))), fr.0 ∙ l, fr.1 ∙ k))
                      (λ t b. absurd b))
                    (λ t (e, none, p, q, fr).
                      send_loop_lem fuel (c + pos_part r.0) t fits
                        (omega (arith, pos_part_positive r.0 took))
                        (rw
                          (
                            q,
                            D.ssl_write-accepted s.engine (drop c buf) (to_int (length buf - c)),
                            append_assoc,
                            append-take-drop c (pos_part r.0) buf,
                          )
                          a)
                        (rw (none, append-nil (sent t.raw), p) e) (λ _. none) (fr.0 ∙ l)
                        (fr.1 ∙ k)))
            ])
    ]

  pub send_delivers :
      (flag : ℤ) (pre buf : List ℕ) (s : SslStream O R)
      → length buf < 2 ^ 31
      → Flow pre s
      → Ends
          (λ _. ⊥)
          (Outcome pre (accepted s.engine) s.leftover s.capacity buf)
          (Front pre)
          (send O R flag buf s)
  unfolding send
  send_delivers flag pre buf s small w =
      send_loop_lem flag pre (accepted s.engine) s.leftover s.capacity buf small (length buf + 1) 0
        s (omega arith) (omega arith) refl w (λ h. absurd (omega arith)) refl refl
