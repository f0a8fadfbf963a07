-- ===== src/Ssl/Engine/Perform.antt =====
-- What `ssl_engine::perform` reports, and what it does to the write BIO.
use kk_proxy.Common.{
  ℕ, ◌≡◌, ◌↔◌, ◌⊎◌, inl, inr, Bool-cases, not_ltb, refl, sym, ap, ◌∙◌, true, [], arith, ℤ,
  is_positive, length, length-eq-zero, ltb,
}
use kk_proxy.Ssl.OpenSsl.{OpenSsl, IsDocumented, SslError, Appends}
use kk_proxy.Ssl.Status.{SslStatus, want_write, status_of}
use kk_proxy.Ssl.Status
use kk_proxy.Ssl.Engine.{perform, perform_status}

status_of-ok : (e : SslError) → status_of e ≡ Status.ok → e ≡ SslError.none
status_of-ok SslError.none h = refl
status_of-ok SslError.want_read h = cc
status_of-ok SslError.want_write h = cc
status_of-ok SslError.syscall h = cc
status_of-ok (SslError.other code) h = cc

module _ (O : OpenSsl) (D : IsDocumented O) where
  open D use {outgoing, produced}

  perform_status-ok :
      (s : O.Ssl) (result : ℤ) (e : SslError) (pending : ℕ)
      → perform_status O s result e pending ≡ Status.ok
      → (pending ≡ 0) × (is_positive result ≡ true)
  perform_status-ok s result SslError.syscall pending h = ground arith
  perform_status-ok s result e pending h =
      ground (arith, status_of-ok (O.get_error s result), D.get_error-none s result)

  perform_status-zero :
      (s : O.Ssl) (result : ℤ) (e : SslError)
      → e ≡ SslError.none
      → is_positive result ≡ true
      → perform_status O s result e 0 ≡ Status.ok
  perform_status-zero s result SslError.syscall h p = cc
  perform_status-zero s result e h p = ap status_of ((D.get_error-none s result).1 p)

  perform_status-pending :
      (s : O.Ssl) (result : ℤ) (e : SslError) (pending : ℕ)
      → ltb 0 pending ≡ true
      → perform_status O s result e pending ≡ want_write
  perform_status-pending s result SslError.syscall pending h = rw h
  perform_status-pending s result e pending h = rw h

  module _ (op : O.Ssl → ℤ × O.Ssl) (s : O.Ssl) where
    outgoing-perform : outgoing (perform O op s).1 ≡ outgoing (O.err_get_error (op s).1).1
    unfolding perform
    outgoing-perform = (D.err_print_errors-keeps (O.err_get_error (op s).1).1).0

    pending-perform :
        O.bio_pending_write (O.err_get_error (op s).1).1 ≡ length (outgoing (perform O op s).1)
    unfolding perform
    pending-perform = D.pending (O.err_get_error (op s).1).1 ∙ ap length (sym outgoing-perform)

    -- Reading and printing the error queue leaves the output of the operation as it was.
    pub perform-Appends :
        Appends outgoing produced s (op s).1 → Appends outgoing produced s (perform O op s).1
    unfolding perform
    perform-Appends (bytes, o, p) =
        let (o₁, p₁) = D.err_get_error-keeps (op s).1 in
        let (o₂, p₂) = D.err_print_errors-keeps (O.err_get_error (op s).1).1 in
        (bytes, o₂ ∙ o₁ ∙ o, p₂ ∙ p₁ ∙ p)

    -- `perform` reports `ok` exactly when the operation succeeded and left no output that waits to
    -- be sent; when output waits it reports `want_write`, also if the operation failed.
    pub perform_lem :
        (((perform O op s).0 ≡ Status.ok)
          ↔ ((is_positive (op s).0 ≡ true) × (outgoing (perform O op s).1 ≡ [])))
        × ((outgoing (perform O op s).1 ≡ []) ⊎ ((perform O op s).0 ≡ want_write))
    unfolding perform
    perform_lem =
        let s₁ = (op s).1 in
        let s₂ = (O.err_get_error s₁).1 in
        let s₃ = O.err_print_errors s₂ in
        let e = O.get_error s₁ (op s).0 in
        (
          (
            (λ h.
                let (z, p) = perform_status-ok s₃ (op s).0 e (O.bio_pending_write s₂) h in
                (p, length-eq-zero (outgoing s₃) (omega (arith, pending-perform)))),
            (λ (p, o).
                let z : O.bio_pending_write s₂ ≡ 0 = omega (arith, pending-perform, ap length o) in
                rw z (perform_status-zero s₃ (op s).0 e ((D.get_error-none s₁ (op s).0).1 p) p)),
          ),
          elim (Bool-cases (ltb 0 (O.bio_pending_write s₂))) [
            | inl full ↦ inr (perform_status-pending s₃ (op s).0 e (O.bio_pending_write s₂) full)
            | inr none ↦ inl (
                length-eq-zero (outgoing s₃)
                  (omega (arith, pending-perform, not_ltb 0 (O.bio_pending_write s₂) none)))
          ],
        )
