-- ===== src/Ssl/Stream/Send/Drain.antt =====
-- The two inner loops of `ssl_stream::send`: all pending ciphertext goes out, in order.
use kk_proxy.Common.{
  ℕ, zero, suc, ◌+◌, ◌-◌, ◌≤◌, ◌<◌, ◌≡◌, ◌≢◌, refl, sym, ap, ◌∙◌, inl, inr, true, false, List, [],
  ◌++◌, append_assoc, append-nil, arith, ℤ, pos, pos_part, is_positive, pos_part_positive, not_ltb,
  ltb, Bool-cases, length, take, drop, take_all, drop_all, length-drop, length-take,
  append-take-drop, length-eq-zero, take-append-drop, lt→ltb, ltb→lt,
}
use kk_proxy.Ssl.OpenSsl.{OpenSsl, IsDocumented}
use kk_proxy.Ssl.RawStream.{RawStream, SendsFront}
use kk_proxy.Ssl.Run.{and_then, Ends, nexts, exits, bind, mono}
use kk_proxy.Ssl.Stream.{SslStream}
use kk_proxy.Ssl.Stream.Send.{raw_send_loop, drain_loop}

module _ (O : OpenSsl) (R : RawStream) (D : IsDocumented O) (F : SendsFront R) (flag : ℤ) where
  open D use {outgoing, produced, accepted}
  open F use {sent}

  -- The two fields that `send` does not use.
  abbrev pub Frame : SslStream O R → SslStream O R → Type 0
  Frame s t = (t.leftover ≡ s.leftover) × (t.capacity ≡ s.capacity)

  abbrev Sent : List ℕ → SslStream O R → SslStream O R → Type 0
  Sent out s t = (sent t.raw ≡ out) × (t.engine ≡ s.engine) × Frame s t

  abbrev Stopped : List ℕ → SslStream O R → ℤ → SslStream O R → Type 0
  Stopped out s n t =
      (is_positive n ≡ false)
      × ((rest : List ℕ) × (sent t.raw ++ rest ≡ out))
      × (t.engine ≡ s.engine)
      × Frame s t

  pub send_step :
      (buf : List ℕ) (b : ℕ) (raw : R.State) (out : List ℕ)
      → b ≤ length buf
      → sent raw ++ drop b buf ≡ out
      → let r = R.send raw (take (length buf - b) (drop b buf)) flag in
        (sent r.1 ++ drop (b + pos_part r.0) buf ≡ out) × (b + pos_part r.0 ≤ length buf)
  send_step buf b raw out m h =
      let rest : take (length buf - b) (drop b buf) ≡ drop b buf =
        take_all (length buf - b) (drop b buf) (omega (arith, length-drop b buf)) in
      rw rest (
        rw (F.sent-send raw (drop b buf) flag, append_assoc, append-take-drop b _ buf) h,
        omega (arith, F.send-count raw (drop b buf) flag, length-drop b buf),
      )

  raw_send_loop_lem :
      (fuel : ℕ) (buf : List ℕ) (b : ℕ) (s : SslStream O R) (out : List ℕ)
      → b ≤ length buf
      → length buf < b + fuel
      → sent s.raw ++ drop b buf ≡ out
      → Ends
          (Sent out s)
          (Stopped out s)
          (λ _. ⊥)
          (raw_send_loop O R flag fuel buf (length buf) b s)
  unfolding raw_send_loop
  raw_send_loop_lem zero buf b s out m f h = absurd (omega arith)
  raw_send_loop_lem (suc fuel) buf b s out m f h = elim (Bool-cases (ltb b (length buf))) [
    | inl more ↦
        rw (more, raw_send_loop)
          (let r = R.send s.raw (take (length buf - b) (drop b buf)) flag in
            let st = send_step buf b s.raw out m h in
            elim (Bool-cases (is_positive r.0)) [
              | inl went ↦ rw went (
                  raw_send_loop_lem fuel buf (b + pos_part r.0) (record s { raw = r.1 }) out st.1
                    (omega (arith, pos_part_positive r.0 went)) st.0)
              | inr stuck ↦
                  rw stuck (exits (stuck, (drop (b + pos_part r.0) buf, st.0), refl, (refl, refl)))
            ])
    | inr done ↦
        rw (done, raw_send_loop)
          (nexts (
            sym (append-nil (sent s.raw))
                ∙ ap (◌++◌ (sent s.raw))
                    (sym (drop_all b buf (omega (arith, not_ltb b (length buf) done))))
                ∙ h,
            refl,
            (refl, refl),
          ))
  ]

  -- Everything that was in the write BIO has gone out, and the rest of the state is as before.
  abbrev pub Drained : List ℕ → SslStream O R → SslStream O R → Type 0
  Drained out s t =
      (sent t.raw ≡ out)
      × (outgoing t.engine ≡ [])
      × (produced t.engine ≡ produced s.engine)
      × (accepted t.engine ≡ accepted s.engine)
      × Frame s t

  abbrev pub Cut : List ℕ → SslStream O R → ℤ → SslStream O R → Type 0
  Cut out s n t =
      (is_positive n ≡ false)
      × ((rest : List ℕ) × (sent t.raw ++ rest ≡ out))
      × (produced t.engine ≡ produced s.engine)
      × (accepted t.engine ≡ accepted s.engine)
      × Frame s t

  -- One read of at most 4096 bytes from a write BIO that holds some.
  pub bio_read_chunk :
      (e : O.Ssl)
      → outgoing e ≢ []
      → let r = O.bio_read e (pos 4096) in
        (is_positive r.0 ≡ true)
        × (pos_part r.0 ≡ length r.1)
        × (r.1 ++ outgoing r.2 ≡ outgoing e)
        × (length (outgoing r.2) < length (outgoing e))
        × (produced r.2 ≡ produced e)
        × (accepted r.2 ≡ accepted e)
  bio_read_chunk e some_left =
      let nonzero : length (outgoing e) ≢ 0 = λ z. some_left (length-eq-zero (outgoing e) z) in
      let got = D.bio_read-bytes e 4096 in
      let left = D.bio_read-outgoing e 4096 in
      rw (D.bio_read-count e 4096 some_left, got, left)
        (
          lt→ltb _ _ (omega (arith, length-take 4096 (outgoing e))),
          refl,
          take-append-drop 4096 (outgoing e),
          omega (arith, length-drop 4096 (outgoing e)),
          D.bio_read-produced e 4096,
          D.bio_read-accepted e 4096,
        )

  drain_round :
      (fuel : ℕ) (s : SslStream O R) (out : List ℕ)
      → length (outgoing s.engine) < suc fuel
      → sent s.raw ++ outgoing s.engine ≡ out
      → outgoing s.engine ≢ []
      → ((t : SslStream O R)
          → length (outgoing t.engine) < fuel
          → sent t.raw ++ outgoing t.engine ≡ out
          → Ends (Drained out t) (Cut out t) (λ _. ⊥) (drain_loop O R flag fuel t))
      → let r = O.bio_read s.engine (pos 4096) in
        let s' : SslStream O R = record s { engine = r.2 } in
        Ends
          (Drained out s)
          (Cut out s)
          (λ _. ⊥)
          (and_then
            (raw_send_loop O R flag (pos_part r.0 + 1) r.1 (pos_part r.0) 0 s')
            (λ t. drain_loop O R flag fuel t))
  drain_round fuel s out f h some_left again =
      let r = O.bio_read s.engine (pos 4096) in
      let (went, count, split, fewer, kept, took) = bio_read_chunk s.engine some_left in
      let whole : (sent s.raw ++ r.1) ++ outgoing r.2 ≡ out =
        append_assoc (sent s.raw) r.1 (outgoing r.2) ∙ ap (◌++◌ (sent s.raw)) split ∙ h in
      rw count (
        bind
          (mono
            (raw_send_loop_lem (length r.1 + 1) r.1 0 (record s { engine = r.2 })
              (sent s.raw ++ r.1) (omega arith) (omega arith) refl)
            (λ t p. p)
            (λ n t (stuck, (rest, e), eng, fr). (
              stuck,
              (
                rest ++ outgoing r.2,
                sym (append_assoc (sent t.raw) rest (outgoing r.2))
                    ∙ ap (λ x. x ++ outgoing r.2) e
                    ∙ whole,
              ),
              ap produced eng ∙ kept,
              ap accepted eng ∙ took,
              fr,
            ))
            (λ t b. b))
          (λ t (e, eng, fr).
            mono (again t (rw eng (omega arith)) (rw (eng, e) whole))
              (λ u (p, q, k, l, g). (
                p,
                q,
                k ∙ ap produced eng ∙ kept,
                l ∙ ap accepted eng ∙ took,
                (g.0 ∙ fr.0, g.1 ∙ fr.1),
              ))
              (λ n u (p, q, k, l, g). (
                p,
                q,
                k ∙ ap produced eng ∙ kept,
                l ∙ ap accepted eng ∙ took,
                (g.0 ∙ fr.0, g.1 ∙ fr.1),
              ))
              (λ u b. b)))

  pub drain_loop_lem :
      (fuel : ℕ) (s : SslStream O R) (out : List ℕ)
      → length (outgoing s.engine) < fuel
      → sent s.raw ++ outgoing s.engine ≡ out
      → Ends (Drained out s) (Cut out s) (λ _. ⊥) (drain_loop O R flag fuel s)
  unfolding drain_loop
  drain_loop_lem zero s out f h = absurd (omega arith)
  drain_loop_lem (suc fuel) s out f h = elim (Bool-cases (ltb 0 (O.bio_pending_write s.engine))) [
    | inl some_left ↦
        let nonempty : outgoing s.engine ≢ [] =
          λ e. absurd (omega (arith, ltb→lt _ _ some_left, D.pending s.engine, ap length e)) in
        rw (some_left, drain_loop)
          (rw (bio_read_chunk s.engine nonempty).0
            (drain_round fuel s out f h nonempty (λ t. drain_loop_lem fuel t out)))
    | inr none_left ↦
        let empty : outgoing s.engine ≡ [] =
          length-eq-zero _ (omega (arith, not_ltb _ _ none_left, D.pending s.engine)) in
        rw (none_left, drain_loop)
          (nexts (
            sym (append-nil _) ∙ ap (◌++◌ (sent s.raw)) (sym empty) ∙ h,
            empty,
            refl,
            refl,
            (refl, refl),
          ))
  ]
