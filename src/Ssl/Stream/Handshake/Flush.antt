-- ===== src/Ssl/Stream/Handshake/Flush.antt =====
-- A handshake that succeeds has sent all that OpenSSL wrote; one that fails sent a front of it.
use kk_proxy.Common.{
  ℕ, zero, suc, ◌+◌, ◌-◌, ◌≤◌, ◌≡◌, refl, sym, ap, ◌∙◌, inl, inr, List, [], ◌∷◌, ◌++◌, append-nil,
  append_assoc, arith, ℤ, pos, pos_part, is_positive, is_negative, ltb, not_ltb, Bool-cases, length,
  take, drop, drop_all,
}
use kk_proxy.ErrorCode.{ok, unexpected}
use kk_proxy.Ssl.OpenSsl.{OpenSsl, IsDocumented, Appends}
use kk_proxy.Ssl.RawStream.{RawStream, SendsFront}
use kk_proxy.Ssl.Status.{SslStatus, want_read, want_write, HandshakeType, client, server}
use kk_proxy.Ssl.Status
use kk_proxy.Ssl.Engine.{perform}
use kk_proxy.Ssl.Engine.Perform.{perform-Appends, perform_lem}
use kk_proxy.Ssl.Run.{Safe, goes_on, returns, runs, Safe-and_then}
use kk_proxy.Ssl.Stream.{SslStream}
use kk_proxy.Ssl.Stream.Send.Drain.{send_step, bio_read_chunk}
use kk_proxy.Ssl.Stream.Send.Delivery.{Flow, Front}
use kk_proxy.Ssl.Stream.Handshake.{
  Shaken, flush_loop, on_want_write, on_want_read, on_error, on_status, handshake_round,
  handshake_loop, handshake,
}

module _ (O : OpenSsl) (R : RawStream) (D : IsDocumented O) (F : SendsFront R) (pre : List ℕ) where
  open D use {outgoing, produced}
  open F use {sent}

  -- What holds when a handshake returns.
  abbrev pub Finished : Shaken → SslStream O R → Type 0
  Finished (ok _) t = (sent t.raw ≡ pre ++ produced t.engine) × (outgoing t.engine ≡ [])
  Finished (unexpected e) t = Front O R D F pre t

  flush_loop-Flow :
      (fuel : ℕ) (buf : List ℕ) (b : ℕ) (s : SslStream O R)
      → b ≤ length buf
      → (sent s.raw ++ drop b buf) ++ outgoing s.engine ≡ pre ++ produced s.engine
      → Safe (Flow O R D F pre) Finished (flush_loop O R fuel buf (length buf) b s)
  unfolding flush_loop
  flush_loop-Flow zero buf b s m h = runs
  flush_loop-Flow (suc fuel) buf b s m h = elim (Bool-cases (ltb b (length buf))) [
    | inr done ↦
        rw (done, flush_loop)
          (goes_on (
            ap (λ x. x ++ outgoing s.engine)
              (sym (append-nil (sent s.raw))
                ∙ ap (◌++◌ (sent s.raw)) (sym (drop_all b buf (omega (arith, not_ltb _ _ done)))))
            ∙ h))
    | inl more ↦
        let r = R.send s.raw (take (length buf - b) (drop b buf)) (pos 0) in
        let (e, m') = send_step O R D F (pos 0) buf b s.raw (sent s.raw ++ drop b buf) m refl in
        rw (more, flush_loop)
          (elim (Bool-cases (is_negative r.0)) [
            | inl bad ↦ rw bad (
                returns (
                  (
                    drop (b + pos_part r.0) buf ++ outgoing s.engine,
                    sym (append_assoc (sent r.1) (drop (b + pos_part r.0) buf) (outgoing s.engine))
                        ∙ ap (λ x. x ++ outgoing s.engine) e
                        ∙ h,
                  )))
            | inr good ↦ rw good (
                flush_loop-Flow fuel buf (b + pos_part r.0) (record s { raw = r.1 }) m'
                  (ap (λ x. x ++ outgoing s.engine) e ∙ h))
          ])
  ]

  on_want_write-Flow :
      (sends : ℕ) (s : SslStream O R) (xs : List ℕ)
      → outgoing s.engine ≡ xs
      → Flow O R D F pre s
      → Safe (Flow O R D F pre) Finished (on_want_write O R sends s)
  unfolding on_want_write
  on_want_write-Flow sends s [] none h =
      let r = O.bio_read s.engine (pos 4096) in
      rw (D.bio_read-empty s.engine 4096 none, on_want_write)
        (returns ((outgoing s.engine, h ∙ ap (◌++◌ pre) (sym (D.bio_read-produced s.engine 4096)))))
  on_want_write-Flow sends s (x ∷ xs) left h =
      let r = O.bio_read s.engine (pos 4096) in
      let (got, count, split, fewer, kept, took) =
        bio_read_chunk O R D F (pos 0) s.engine (λ e. cc) in
      rw (got, on_want_write)
        (rw count (
          flush_loop-Flow sends r.1 0 (record s { engine = r.2 }) (omega arith)
            (append_assoc (sent s.raw) r.1 (outgoing r.2)
              ∙ ap (◌++◌ (sent s.raw)) split
              ∙ h
              ∙ ap (◌++◌ pre) (sym kept))))

  on_want_read-Flow :
      (s : SslStream O R)
      → Flow O R D F pre s
      → Safe (Flow O R D F pre) Finished (on_want_read O R s)
  unfolding on_want_read
  on_want_read-Flow s h =
      let r = R.recv s.raw 4096 (pos 4096) in
      let w = O.bio_write s.engine r.1 r.0 in
      let (o, p) = D.bio_write-keeps s.engine r.1 r.0 in
      let quiet = F.sent-recv s.raw 4096 (pos 4096) in
      let h₁ : Flow O R D F pre (record s { raw = r.2 }) =
        ap (λ x. x ++ outgoing s.engine) quiet ∙ h in
      let h₂ : Flow O R D F pre (record s { raw = r.2; engine = w.1 }) =
        ap (◌++◌ (sent r.2)) o ∙ h₁ ∙ ap (◌++◌ pre) (sym p) in
      elim (Bool-cases (is_negative r.0)) [
        | inl bad ↦ rw (bad, on_want_read) (returns ((outgoing s.engine, h₁)))
        | inr good ↦
            rw (good, on_want_read)
              (elim (Bool-cases (is_positive r.0)) [
                | inr eof ↦ rw eof (returns ((outgoing s.engine, h₁)))
                | inl came ↦ rw came (elim (Bool-cases (is_positive w.0)) [
                  | inr full ↦ rw full (returns ((outgoing w.1, h₂)))
                  | inl wrote ↦ rw wrote (goes_on h₂)
                ])
              ])
      ]

  on_error-Flow :
      (s : SslStream O R) → Flow O R D F pre s → Safe (Flow O R D F pre) Finished (on_error O R s)
  unfolding on_error
  on_error-Flow s h =
      let (o₁, p₁) = D.err_get_error-keeps s.engine in
      let (o₂, p₂) = D.err_print_errors-keeps (O.err_get_error s.engine).1 in
      returns ((outgoing s.engine, h ∙ ap (◌++◌ pre) (sym (p₂ ∙ p₁))))

  on_status-Flow :
      (sends : ℕ) (status : SslStatus) (s : SslStream O R)
      → (status ≡ Status.ok → outgoing s.engine ≡ [])
      → Flow O R D F pre s
      → Safe (Flow O R D F pre) Finished (on_status O R sends status s)
  unfolding on_status
  on_status-Flow sends Status.ok s done h =
      returns
        (sym (append-nil (sent s.raw)) ∙ ap (◌++◌ (sent s.raw)) (sym (done refl)) ∙ h, done refl)
  on_status-Flow sends Status.error s done h = on_error-Flow s h
  on_status-Flow sends Status.error_syscall s done h = on_error-Flow s h
  on_status-Flow sends want_read s done h = on_want_read-Flow s h
  on_status-Flow sends want_write s done h = on_want_write-Flow sends s (outgoing s.engine) refl h

  Flow-Appends :
      (s : SslStream O R) (e : O.Ssl)
      → Appends outgoing produced s.engine e
      → Flow O R D F pre s
      → Flow O R D F pre (record s { engine = e })
  Flow-Appends s e (bytes, o, p) h =
      rw (o, p, ← append_assoc (sent s.raw) (outgoing s.engine) bytes, h)
        (append_assoc pre (produced s.engine) bytes)

  module _ (op : O.Ssl → ℤ × O.Ssl)
      (appends : (e : O.Ssl) → Appends outgoing produced e (op e).1) where
    handshake_round-Flow :
        (sends : ℕ) (s : SslStream O R)
        → Flow O R D F pre s
        → Safe (Flow O R D F pre) Finished (handshake_round O R op sends s)
    unfolding handshake_round
    handshake_round-Flow sends s h =
        let p = perform O op s.engine in
        on_status-Flow sends p.0 (record s { engine = p.1 })
          (λ e. ((perform_lem O D op s.engine).0.0 e).1)
          (Flow-Appends s p.1 (perform-Appends O D op s.engine (appends s.engine)) h)

    handshake_loop-Flow :
        (rounds sends : ℕ) (s : SslStream O R)
        → Flow O R D F pre s
        → Safe (λ _. ⊥) Finished (handshake_loop O R rounds op sends s)
    unfolding handshake_loop
    handshake_loop-Flow zero sends s h = runs
    handshake_loop-Flow (suc rounds) sends s h =
        Safe-and_then (handshake_round-Flow sends s h) (λ t f. handshake_loop-Flow rounds sends t f)

  keeps-Appends :
      (s e : O.Ssl)
      → (outgoing e ≡ outgoing s) × (produced e ≡ produced s)
      → Appends outgoing produced s e
  keeps-Appends s e (o, p) =
      ([], o ∙ sym (append-nil (outgoing s)), p ∙ sym (append-nil (produced s)))

  -- Of a stream whose ciphertext so far was sent, behind `pre`, or waits in the write BIO (`Flow`):
  -- whenever a handshake of either side returns, after any number of rounds, what was sent is a
  -- front of the ciphertext that OpenSSL produced, in order; when it returns success, all of it was
  -- sent and nothing waits in the write BIO.
  pub handshake_flushes :
      (rounds sends : ℕ) (side : HandshakeType) (s : SslStream O R)
      → Flow O R D F pre s
      → Safe (λ _. ⊥) Finished (handshake O R rounds sends side s)
  unfolding handshake
  handshake_flushes rounds sends client s h =
      handshake_loop-Flow O.ssl_connect D.ssl_connect-appends rounds sends
        (record s { engine = O.set_connect_state s.engine })
        (Flow-Appends s (O.set_connect_state s.engine)
          (keeps-Appends s.engine _ (D.set_connect_state-keeps s.engine)) h)
  handshake_flushes rounds sends server s h =
      handshake_loop-Flow O.ssl_accept D.ssl_accept-appends rounds sends
        (record s { engine = O.set_accept_state s.engine })
        (Flow-Appends s (O.set_accept_state s.engine)
          (keeps-Appends s.engine _ (D.set_accept_state-keeps s.engine)) h)
