-- ===== src/Net/Socket/Ownership.antt =====
-- How often `::close` is called for a descriptor, whatever a program does with its sockets.
use kk_proxy.Common.{
  ℕ, ◌+◌, ◌≤◌, inl, inr, List, pos, arith, is_positive, eq_ℤ, eq_ℤ→eq, Bool-cases,
}
use kk_proxy.Descriptors.{Close, IsClose, is_fd, successes, failures, closings, successes-sys_close}
use kk_proxy.Objects.{IsOwner, Step, steps, creations}
use kk_proxy.Objects.Laws.{total, total-plus}
use kk_proxy.Objects.Laws
use kk_proxy.Net.Socket.{Socket, close, move_assign, Call, closing, destroying, call, socket_class}

module _ {P K : Type 0} (sys_close : Close K) (C : IsClose K sys_close) (p : ℕ) where
  abbrev pub held : Socket P → ℕ
  held s = is_fd p s.fd

  close_owner :
      (s : Socket P) (k : K)
      → let (ret, t, k') = close sys_close s k in
        held t + successes C p k' ≤ held s + successes C p k
  unfolding close
  close_owner s k = elim (Bool-cases (is_positive s.fd)) [
    | inr e ↦ rw (e, close) (omega arith)
    | inl e ↦
        rw (e, close)
          (elim (Bool-cases (eq_ℤ (sys_close s.fd k).0 (pos 0))) [
            | inl f ↦ rw f (rw ((C.close-ok s.fd k (eq_ℤ→eq _ _ f)).0) (omega arith))
            | inr f ↦ rw f (rw ((C.close-failed s.fd k f).0) (omega arith))
          ])
  ]

  move_assign_owner :
      (s t : Socket P) (k : K)
      → let (new, left, k') = move_assign sys_close s t k in
        held new + held left + successes C p k' ≤ held s + held t + successes C p k
  unfolding move_assign
  move_assign_owner s t k = elim (Bool-cases (is_positive s.fd)) [
    | inr e ↦ rw (e, move_assign) (omega arith)
    | inl e ↦ rw (e, move_assign) (omega (arith, successes-sys_close C p s.fd k))
  ]

  call_owner :
      (x : Call) (s : Socket P) (k : K)
      → let (t, k') = call sys_close x s k in held t + successes C p k' ≤ held s + successes C p k
  call_owner closing s k = close_owner s k
  call_owner destroying s k = close_owner s k

  pub socket-IsOwner : IsOwner (socket_class sys_close) held (successes C p)
  socket-IsOwner = record {
    move_owner = λ s. omega arith;
    assign_owner = move_assign_owner;
    call_owner = call_owner;
  }

  -- Whatever a program does with its sockets (opens, moves, assigns, closes or destroys them, in any
  -- order), the sockets that hold a descriptor and the calls of `::close` for it are together never more
  -- than at the start, and the times that it was opened and that such a call failed since. So if
  -- no call fails it is closed at most once for each time it was opened.
  pub total-steps :
      (as' : List (Step (Socket P) Call)) (st : List (Socket P) × K)
      → let st' = steps (socket_class sys_close) as' st in
        total held (closings C p) st' + failures C p st.1
        ≤ total held (closings C p) st + creations held as' + failures C p st'.1
  total-steps as' st =
      let st' = steps (socket_class sys_close) as' st in
      omega (
        arith,
        Laws.total-steps (socket_class sys_close) held (successes C p) socket-IsOwner as' st,
        total-plus held (successes C p) (failures C p) st,
        total-plus held (successes C p) (failures C p) st',
      )
