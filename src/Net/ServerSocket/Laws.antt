-- ===== src/Net/ServerSocket/Laws.antt =====
-- What `bind` does on each branch, and who closes a server's descriptor.
use kk_proxy.Common.{
  ℕ, ◌+◌, ◌≤◌, ◌≡◌, refl, ◌⊎◌, inl, inr, true, false, [], ◌∷◌, ◌++◌, negate, is_positive,
  is_negative, arith, Bool-cases, take, if◌then◌else◌,
}
use kk_proxy.ErrorCode.{ok, make_sys_error}
use kk_proxy.Descriptors.{Close, IsClose, is_fd, closings, closings-sys_close}
use kk_proxy.Objects.{IsOwner}
use kk_proxy.Net.Address.{htons}
use kk_proxy.Net.ServerSocket.{
  ServerSocket, Calls, close_fd, destroy, server_class, any_address, bind,
}

module _ {K : Type 0} (C : Calls K) where
  -- `bind` ends in one of three ways. When `setsockopt` fails, its own result is the error's code and
  -- `::bind` is not called. Else `::bind` is called with AF_INET, the port in network order and the
  -- address 0.0.0.0, whatever was bound before, and no byte is written outside of the address; when it
  -- fails the code is -errno, and otherwise the result is success.
  pub bind_lem :
      (port : ℕ) (s : ServerSocket) (k : K)
      → let (r, t, k') = bind C port s k in
        let (opt, k₁) = C.setsockopt s.fd k in
        let (ret, k₂) = C.sys_bind s.fd t.addr k₁ in
        ((is_negative opt ≡ true) × (r ≡ make_sys_error opt) × (t ≡ s) × (k' ≡ k₁))
        ⊎ ((is_negative opt ≡ false)
            × (take 8 t.addr.bytes ≡ 2 ∷ 0 ∷ (htons port ++ (0 ∷ 0 ∷ 0 ∷ 0 ∷ [])))
            × (t.addr.overrun ≡ s.addr.overrun)
            × (t.fd ≡ s.fd)
            × (k' ≡ k₂)
            × (r ≡ (if is_negative ret then make_sys_error (negate (C.errno k₂)) else ok tt)))
  unfolding bind
  bind_lem port s k = elim (Bool-cases (is_negative (C.setsockopt s.fd k).0)) [
    | inl bad ↦ rw (bad, bind) (inl (refl, refl, refl, refl))
    | inr good ↦
        let t = record s { addr = any_address port s.addr } in
        rw (good, bind)
          (elim (Bool-cases (is_negative (C.sys_bind s.fd t.addr (C.setsockopt s.fd k).1).0)) [
            | inl e ↦ rw (e) (inr (refl, refl, omega arith, refl, refl, rw e refl))
            | inr e ↦ rw (e) (inr (refl, refl, omega arith, refl, refl, rw e refl))
          ])
  ]

module _ {K : Type 0} {sys_close : Close K} (C : IsClose K sys_close) (p : ℕ) where
  abbrev pub held : ServerSocket → ℕ
  held s = is_fd p s.fd

  closings-close_fd :
      (s : ServerSocket) (k : K)
      → (if is_positive s.fd then 0 else held s) + closings C p (close_fd sys_close s k)
        ≤ held s + closings C p k
  closings-close_fd s k = elim (Bool-cases (is_positive s.fd)) [
    | inl e ↦ rw (e) (omega (arith, closings-sys_close C p s.fd k))
    | inr e ↦ rw (e) (omega arith)
  ]

  destroy_owner :
      (s : ServerSocket) (k : K)
      → let (t, k') = destroy sys_close s k in held t + closings C p k' ≤ held s + closings C p k
  destroy_owner s k = elim (Bool-cases (is_positive s.fd)) [
    | inl e ↦ rw (e) (omega (arith, closings-sys_close C p s.fd k))
    | inr e ↦ rw (e) (omega arith)
  ]

  -- A server socket's descriptor has one owner.
  pub server-IsOwner : IsOwner (server_class sys_close) held (closings C p)
  server-IsOwner = record {
    move_owner = λ s. omega arith;
    assign_owner = λ s t k. omega (arith, closings-close_fd s k);
    call_owner = λ x s k. destroy_owner s k;
  }
