-- ===== src/Ssl/Stream/Handshake/Ending.antt =====
-- When the loops of `ssl_stream::handshake` end.
use kk_proxy.Common.{
  ℕ, zero, suc, ◌+◌, ◌-◌, ◌<◌, ◌≤◌, ◌≡◌, ◌≢◌, refl, sym, ap, ◌∙◌, inl, inr, false, List, [], ◌++◌,
  arith, ℤ, pos, negsuc, pos_part, is_negative, ltb, lt→ltb, ltb→lt, not_ltb, Bool-cases, take,
  drop, length, length-take, length-drop, drop_all, append-nil,
}
use kk_proxy.ErrorCode.{ErrorCode, unexpected}
use kk_proxy.Ssl.OpenSsl.{OpenSsl, IsDocumented}
use kk_proxy.Ssl.RawStream.{RawStream, SendsFront}
use kk_proxy.Ssl.Run.{out_of_fuel, Ends, nexts, exits}
use kk_proxy.Ssl.Stream.{SslStream}
use kk_proxy.Ssl.Stream.Send.Drain.{send_step}
use kk_proxy.Ssl.Stream.Handshake.{Shaken, flush_loop}

module _ (O : OpenSsl) (R : RawStream) where
  -- If the raw stream answers every send by 0, the handshake's write loop runs for ever: no fuel is
  -- enough to send even one byte. (The loop of `send` returns the 0.)
  pub flush_loop_spins :
      ((raw : R.State) (buf : List ℕ) (flag : ℤ) → (R.send raw buf flag).0 ≡ pos 0)
      → (fuel : ℕ) (buf : List ℕ) (res bytes_sent : ℕ) (s : SslStream O R) → bytes_sent < res
      → flush_loop O R fuel buf res bytes_sent s ≡ out_of_fuel
  unfolding flush_loop
  flush_loop_spins silent zero buf res b s h = refl
  flush_loop_spins silent (suc fuel) buf res b s h =
      let r = R.send s.raw (take (res - b) (drop b buf)) (pos 0) in
      let zero_bytes = silent s.raw (take (res - b) (drop b buf)) (pos 0) in
      rw (lt→ltb b res h, flush_loop)
        (rw (ap is_negative zero_bytes) (
          flush_loop_spins silent fuel buf res (b + pos_part r.0) (record s { raw = r.1 })
            (omega (arith, ap pos_part zero_bytes))))

nonzero_pos : (n : ℤ) → n ≢ pos 0 → is_negative n ≡ false → 0 < pos_part n
nonzero_pos (pos zero) h p = absurd (h refl)
nonzero_pos (pos (suc n)) h p = omega arith
nonzero_pos (negsuc n) h p = cc

module _ (O : OpenSsl) (R : RawStream) (D : IsDocumented O) (F : SendsFront R) where
  open F use {sent}

  -- All of `out` was sent, and the engine is as before.
  abbrev pub Flushed : List ℕ → SslStream O R → SslStream O R → Type 0
  Flushed out s t = (sent t.raw ≡ out) × (t.engine ≡ s.engine)

  -- A failed send was reported, and a front of `out` was sent.
  abbrev pub GaveUp : List ℕ → SslStream O R → Shaken → SslStream O R → Type 0
  GaveUp out s n t =
      ((e : ErrorCode) × (n ≡ unexpected e))
      × ((rest : List ℕ) × (sent t.raw ++ rest ≡ out))
      × (t.engine ≡ s.engine)

  flush_from :
      ((raw : R.State) (buf : List ℕ) → buf ≢ [] → (R.send raw buf (pos 0)).0 ≢ pos 0)
      → (fuel : ℕ) (buf : List ℕ) (b : ℕ) (s : SslStream O R) (out : List ℕ) → b ≤ length buf
      → length buf < b + fuel
      → sent s.raw ++ drop b buf ≡ out
      → Ends (Flushed out s) (GaveUp out s) (λ _. ⊥) (flush_loop O R fuel buf (length buf) b s)
  unfolding flush_loop
  flush_from moves zero buf b s out m f h = absurd (omega arith)
  flush_from moves (suc fuel) buf b s out m f h = elim (Bool-cases (ltb b (length buf))) [
    | inr done ↦
        rw (done, flush_loop)
          (nexts (
            sym (append-nil (sent s.raw))
                ∙ ap (◌++◌ (sent s.raw))
                    (sym (drop_all b buf (omega (arith, not_ltb b (length buf) done))))
                ∙ h,
            refl,
          ))
    | inl more ↦
        let chunk = take (length buf - b) (drop b buf) in
        let r = R.send s.raw chunk (pos 0) in
        let st = send_step O R D F (pos 0) buf b s.raw out m h in
        let full : chunk ≢ [] = λ e. absurd (
          omega (
            arith,
            ap length e,
            length-take (length buf - b) (drop b buf),
            length-drop b buf,
            ltb→lt b (length buf) more,
          )) in
        rw (more, flush_loop)
          (elim (Bool-cases (is_negative r.0)) [
            | inl bad ↦ rw bad (exits ((_, refl), (drop (b + pos_part r.0) buf, st.0), refl))
            | inr good ↦
                let went = nonzero_pos r.0 (moves s.raw chunk full) good in
                rw good (
                  flush_from moves fuel buf (b + pos_part r.0) (record s { raw = r.1 }) out st.1
                    (omega arith) st.0)
          ])
  ]

  -- If no send of at least one byte is answered by 0, the write loop of the handshake ends after at most
  -- one round for each byte, and one: all bytes of the buffer were sent, in order, behind what had been
  -- sent, or it returns an error and a front of them was; the engine is left alone.
  pub flush_loop_delivers :
      ((raw : R.State) (buf : List ℕ) → buf ≢ [] → (R.send raw buf (pos 0)).0 ≢ pos 0)
      → (fuel : ℕ) (buf : List ℕ) (s : SslStream O R) → length buf < fuel
      → Ends
          (Flushed (sent s.raw ++ buf) s)
          (GaveUp (sent s.raw ++ buf) s)
          (λ _. ⊥)
          (flush_loop O R fuel buf (length buf) 0 s)
  flush_loop_delivers moves fuel buf s h =
      flush_from moves fuel buf 0 s (sent s.raw ++ buf) (omega arith) (omega arith) refl
