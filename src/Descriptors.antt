-- ===== src/Descriptors.antt =====
-- Descriptors of the kernel, close(2) as a parameter, and how often a descriptor was closed.
use kk_proxy.Common.{
  ℕ, ◌+◌, ◌≤◌, ◌≡◌, inl, inr, false, List, ◌∷◌, ℤ, pos, arith, eq_ℤ, eq_ℤ→eq, Bool-cases,
  if◌then◌else◌,
}
use kk_proxy.Objects.{holders}

-- `::close`, on a state of the kernel.
abbrev pub Close : Type 0 → Type 0
Close K = ℤ → K → ℤ × K

-- A record of the calls: `closed` are the descriptors of those with result 0, and `failed` those of the
-- others. Linux releases the descriptor in either case, but for one that was not open: a call that comes
-- after a failed one may hit a descriptor that was opened since.
pub record IsClose (K : Type 0) (sys_close : Close K) : Type 0 where
  pub closed : K → List ℤ
  pub failed : K → List ℤ
  pub close-ok :
      (fd : ℤ) (k : K)
      → (sys_close fd k).0 ≡ pos 0
      → (closed (sys_close fd k).1 ≡ fd ∷ closed k) × (failed (sys_close fd k).1 ≡ failed k)
  pub close-failed :
      (fd : ℤ) (k : K)
      → eq_ℤ (sys_close fd k).0 (pos 0) ≡ false
      → (closed (sys_close fd k).1 ≡ closed k) × (failed (sys_close fd k).1 ≡ fd ∷ failed k)

-- 1 for the descriptor `p`, else 0.
abbrev pub is_fd : ℕ → ℤ → ℕ
is_fd p fd = if eq_ℤ fd (pos p) then 1 else 0

module _ {K : Type 0} {sys_close : Close K} (C : IsClose K sys_close) (p : ℕ) where
  -- how often `::close` was called for `p` with result 0, and with another
  abbrev pub successes : K → ℕ
  successes k = holders (is_fd p) (C.closed k)

  abbrev pub failures : K → ℕ
  failures k = holders (is_fd p) (C.failed k)

  -- how often it was called for `p`
  abbrev pub closings : K → ℕ
  closings k = successes k + failures k

  pub successes-sys_close :
      (fd : ℤ) (k : K) → successes (sys_close fd k).1 ≤ is_fd p fd + successes k
  successes-sys_close fd k = elim (Bool-cases (eq_ℤ (sys_close fd k).0 (pos 0))) [
    | inl e ↦ rw ((C.close-ok fd k (eq_ℤ→eq _ _ e)).0) (omega arith)
    | inr e ↦ rw ((C.close-failed fd k e).0) (omega arith)
  ]

  pub closings-sys_close : (fd : ℤ) (k : K) → closings (sys_close fd k).1 ≤ is_fd p fd + closings k
  closings-sys_close fd k = elim (Bool-cases (eq_ℤ (sys_close fd k).0 (pos 0))) [
    | inl e ↦ let (s, f) = C.close-ok fd k (eq_ℤ→eq _ _ e) in rw (s, f) (omega arith)
    | inr e ↦ let (s, f) = C.close-failed fd k e in rw (s, f) (omega arith)
  ]
