-- ===== src/Ssl/Stream/Transfer/Laws.antt =====
-- What is read at the one end is what was written at the other.
use kk_proxy.Common.{
  ℕ, ◌<◌, ◌≡◌, refl, sym, ap, ◌∙◌, inl, inr, some, List, [], ◌∷◌, ◌++◌, append-nil, append_assoc,
  some-injective, subst, Option-cases, lt→ltb, ltb, arith, ℤ, pos, is_positive, is_negative, eq_ℤ,
  eq_ℤ→eq, Bool-cases, length,
}
use kk_proxy.Ssl.OpenSsl.{OpenSsl, IsDocumented}
use kk_proxy.Ssl.RawStream.{RawStream, SendsFront}
use kk_proxy.Ssl.Run.{Run, next, exit, thrown, out_of_fuel, Ends, exits}
use kk_proxy.Ssl.Stream.{SslStream}
use kk_proxy.Ssl.Stream.Send.{send}
use kk_proxy.Ssl.Stream.Send.Delivery.{Flow, Complete, Outcome, Front, send_delivers}
use kk_proxy.Ssl.Stream.Recv.{Received, recv}
use kk_proxy.Ssl.Stream.Recv.Exact.{Exact, recv-Exact}
use kk_proxy.Ssl.Stream.Recv.Feed.{IsMemoryBio, Receives, Fed, FedOr, recv-Fed}
use kk_proxy.Ssl.Stream.Transfer.{sent_all, got, send_all, recv_all, concat, Sizes, Buffers}

is_positive_pos : (n : ℕ) → is_positive (pos n) ≡ ltb 0 n
is_positive_pos n = ground arith

exit_inv :
    {S A : Type 0} {P : S → Type 0} {Q : A → S → Type 0} {T : S → Type 0} {n : A} {s : S}
    → Ends P Q T (exit n s)
    → Q n s
exit_inv (exits q) = q

module _ (O : OpenSsl) (R : RawStream) (D : IsDocumented O) where
  open D use {accepted, decrypted, produced}

  module _ (F : SendsFront R) where
    sent_all-Complete :
        (plain left : List ℕ) (cap : ℕ) (buf : List ℕ) (r : Run (SslStream O R) ℤ)
        (t : SslStream O R)
        → 0 < length buf
        → Ends (λ _. ⊥) (Outcome O R D F [] plain left cap buf) (Front O R D F []) r
        → sent_all O R (length buf) r ≡ some t
        → Complete O R D F [] plain buf (pos (length buf)) t
    sent_all-Complete plain left cap buf (exit n s) t p e h =
        elim (Bool-cases (eq_ℤ n (pos (length buf)))) [
          | inr other ↦ cc (rw (other) at h)
          | inl all ↦
              let n' : n ≡ pos (length buf) = eq_ℤ→eq n (pos (length buf)) all in
              let s' : s ≡ t = some-injective _ _ (rw (all) at h) in
              elim ((exit_inv e).0) [
                | inl (_, took, flow, out) ↦
                    subst (λ x. Complete O R D F [] plain buf (pos (length buf)) x) s'
                      (refl, took, flow, out)
                | inr (refused, front) ↦ absurd (
                    cc (
                      lt→ltb 0 (length buf) p,
                      sym refused ∙ ap is_positive n',
                      is_positive_pos (length buf),
                    ))
              ]
        ]
    sent_all-Complete plain left cap buf (next s) t p e h = cc
    sent_all-Complete plain left cap buf (thrown w s) t p e h = cc
    sent_all-Complete plain left cap buf out_of_fuel t p e h = cc

    send_all_lem :
        (bufs : List (List ℕ)) (a a' : SslStream O R)
        → Buffers bufs
        → Flow O R D F [] a
        → send_all O R bufs a ≡ some a'
        → Flow O R D F [] a' × (accepted a'.engine ≡ accepted a.engine ++ concat bufs)
    unfolding send_all
    send_all_lem [] a a' sizes flow h =
        let same : a ≡ a' = some-injective _ _ h in
        subst (λ x. Flow O R D F [] x × (accepted x.engine ≡ accepted a.engine ++ [])) same
          (flow, sym (append-nil (accepted a.engine)))
    send_all_lem (buf ∷ bufs) a a' (some_bytes, small, sizes) flow h =
        elim (Option-cases (sent_all O R (length buf) (send O R (pos 0) buf a))) [
          | inl failed ↦ cc (rw (failed, send_all) at h)
          | inr (t, done) ↦
              let (_, took, flow', _) =
                sent_all-Complete (accepted a.engine) a.leftover a.capacity buf
                  (send O R (pos 0) buf a) t some_bytes
                  (send_delivers O R D F (pos 0) [] buf a small flow) done in
              let (flow'', all) = send_all_lem bufs t a' sizes flow' (rw (done, send_all) at h) in
              (
                flow'',
                all
                    ∙ ap (λ x. x ++ concat bufs) took
                    ∙ append_assoc (accepted a.engine) buf (concat bufs),
              )
        ]

  module _ (B : IsMemoryBio O) (N : Receives R) where
    -- What a call of `recv` that did not fail has done.
    abbrev Gave : SslStream O R → List ℕ × SslStream O R → Type 0
    Gave b (bytes, t) =
        (decrypted t.engine ≡ decrypted b.engine ++ bytes)
        × (t.leftover ≡ b.leftover)
        × Fed O R D B N t

    got-Gave :
        (len : ℕ) (b : SslStream O R) (r : Run (SslStream O R) Received)
        (p : List ℕ × SslStream O R)
        → Ends (λ _. ⊥) (Exact O R D len b) (λ _. ⊥) r
        → Ends (λ _. ⊥) (FedOr O R D B N) (λ _. ⊥) r
        → got O R r ≡ some p
        → Gave b p
    got-Gave len b (exit (n, xs) s) p e f h = elim (Bool-cases (is_negative n)) [
      | inl failed ↦ cc (rw (failed) at h)
      | inr fine ↦
          let same : (xs, s) ≡ p = some-injective _ _ (rw (fine) at h) in
          let (_, _, plain, left, _) = exit_inv e in
          elim (exit_inv f) [
            | inl failed ↦ absurd (cc (fine, failed))
            | inr fed ↦ subst (Gave b) same (plain, left, fed)
          ]
    ]
    got-Gave len b (next s) p e f h = cc
    got-Gave len b (thrown w s) p e f h = cc
    got-Gave len b out_of_fuel p e f h = cc

    recv_all_lem :
        (lens : List ℕ) (b : SslStream O R) (p : List ℕ × SslStream O R)
        → Sizes lens
        → b.leftover ≡ []
        → Fed O R D B N b
        → recv_all O R lens b ≡ some p
        → Gave b p
    unfolding recv_all
    recv_all_lem [] b p sizes empty fed h =
        subst (Gave b) (some-injective _ _ h) (sym (append-nil (decrypted b.engine)), refl, fed)
    recv_all_lem (len ∷ lens) b p (some_room, small, sizes) empty fed h =
        elim (Option-cases (got O R (recv O R 1 len (pos 0) b))) [
          | inl failed ↦ cc (rw (failed, recv_all) at h)
          | inr ((bytes, t), gave) ↦
              let (plain, left, fed') =
                got-Gave len b (recv O R 1 len (pos 0) b) (bytes, t)
                  (recv-Exact O R D 0 len (pos 0) b some_room small empty)
                  (recv-Fed O R D B N 0 len (pos 0) b some_room small empty fed) gave in
              elim (Option-cases (recv_all O R lens t)) [
                | inl failed ↦ cc (rw (gave, failed, recv_all) at h)
                | inr ((more, u), rest) ↦
                    let (plain', left', fed'') =
                      recv_all_lem lens t (more, u) sizes (left ∙ empty) fed' rest in
                    let same : (bytes ++ more, u) ≡ p =
                      some-injective _ _ (rw (gave, rest, recv_all) at h) in
                    subst (Gave b) same (
                      plain'
                          ∙ ap (λ x. x ++ more) plain
                          ∙ append_assoc (decrypted b.engine) bytes more,
                      left' ∙ left,
                      fed'',
                    )
              ]
        ]

    module _ (F : SendsFront R) where
      -- One side writes buffers of at least one and less than 2^31 bytes by `send`, and none of the calls
      -- fails; the other side calls `recv` with such sizes of the buffer, and none of those calls fails. At
      -- the start all ciphertext that the writer produced was sent or waits in its BIO, all that the reader
      -- received was fed, no data has passed yet, and the reader has no leftover. If the network gives
      -- no other bytes than those that were sent, in order, and if TLS keeps the data in order (as long as the
      -- ciphertext that the reader was fed is a front of what the writer produced, the plaintext that it
      -- gave is a front of what the writer accepted), then all that the calls of `recv` gave together, in
      -- order, is a front of all the buffers together.
      pub recv_all-send_all :
          (bufs : List (List ℕ)) (lens : List ℕ) (a a' b b' : SslStream O R)
          → (bytes on_the_way : List ℕ) → Buffers bufs
          → Sizes lens
          → Flow O R D F [] a
          → accepted a.engine ≡ []
          → Fed O R D B N b
          → decrypted b.engine ≡ []
          → b.leftover ≡ []
          → send_all O R bufs a ≡ some a'
          → recv_all O R lens b ≡ some (bytes, b')
          → N.received b'.raw ++ on_the_way ≡ F.sent a'.raw
          → ((r : List ℕ)
              → B.fed b'.engine ++ r ≡ produced a'.engine
              → (r' : List ℕ) × (decrypted b'.engine ++ r' ≡ accepted a'.engine))
          → (rest : List ℕ) × (bytes ++ rest ≡ concat bufs)
      recv_all-send_all bufs lens a a' b b' bytes way filled sized flow new fed new' empty wrote
            read network tls =
          let (flow', took) = send_all_lem F bufs a a' filled flow wrote in
          let (plain, _, fed') = recv_all_lem lens b (bytes, b') sized empty fed read in
          let ahead : B.fed b'.engine ++ (way ++ D.outgoing a'.engine) ≡ produced a'.engine =
            sym (append_assoc (B.fed b'.engine) way (D.outgoing a'.engine))
            ∙ ap (λ x. (x ++ way) ++ D.outgoing a'.engine) fed'
            ∙ ap (λ x. x ++ D.outgoing a'.engine) network
            ∙ flow' in
          let (rest, front) = tls (way ++ D.outgoing a'.engine) ahead in
          (
            rest,
            ap (λ x. x ++ rest) (sym (plain ∙ ap (λ x. x ++ bytes) new'))
                ∙ front
                ∙ took
                ∙ ap (λ x. x ++ concat bufs) new,
          )
