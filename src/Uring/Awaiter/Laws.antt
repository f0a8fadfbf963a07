-- ===== src/Uring/Awaiter/Laws.antt =====
-- What a whole `co_await` returns: with a full submission queue, and for each result of the kernel.
use kk_proxy.Common.{
  suc, ltb, if◌then◌else◌, Option-cases, ℕ, ◌≡◌, refl, ◌⊎◌, inl, inr, none, some, ℤ, pos, negsuc,
}
use kk_proxy.ErrorCode.{system, Result, ok, unexpected}
use kk_proxy.Uring.Request.{Request}
use kk_proxy.Uring.Awaiter.{
  BaseUringAwaiter, Ring, no_entry, base_uring_awaiter, co_await_on, plain_resume, connect_resume,
  read_resume, timeout_resume, socket_accept_resume,
}

abbrev pub sys_error : {T : Type 0} → ℤ → Result T
sys_error c = unexpected (record { value = c; category = system })

-- What the awaiters make of a result of the kernel, but those that return it as it is.
abbrev pub Answered : {Sqe : Type 0} → ℤ → BaseUringAwaiter Sqe → Type 0
Answered (negsuc n) a =
    (connect_resume a ≡ sys_error (negsuc n))
    × (socket_accept_resume a ≡ sys_error (negsuc n))
    × (read_resume a ≡ sys_error (pos (suc n)))
Answered (pos n) a =
    (connect_resume a ≡ ok (pos n))
    × (socket_accept_resume a ≡ (if ltb 0 n then ok (pos n) else sys_error (pos n)))
    × (read_resume a ≡ ok (pos n))

module _ {Sqe R : Type 0} (L : Ring Sqe R) (f : Request) (h : ℕ) (r : ℤ) (ring : R) where
  -- The awaiter and the ring behind the whole `co_await`, when there is no entry and when there is one.
  abbrev pub ready : BaseUringAwaiter Sqe × R
  ready = (record { sqe = none; handle = none; result = no_entry }, (L.get_sqe ring).1)

  abbrev pub awaited : Sqe → BaseUringAwaiter Sqe × R
  awaited q = (
    record { sqe = some q; handle = some h; result = r },
    L.submit (L.prepare f q (L.set_data q (L.get_sqe ring).1)),
  )

  pub co_await_on-none : (L.get_sqe ring).0 ≡ none → co_await_on L f h r ring ≡ ready
  unfolding base_uring_awaiter co_await_on
  co_await_on-none e = rw (e, base_uring_awaiter, co_await_on) refl

  pub co_await_on-some :
      (q : Sqe) → (L.get_sqe ring).0 ≡ some q → co_await_on L f h r ring ≡ awaited q
  unfolding base_uring_awaiter co_await_on
  co_await_on-some q e = rw (e, base_uring_awaiter, co_await_on) refl

  -- Whatever the kernel would return, a `co_await` ends in one of three ways. With a full submission
  -- queue it submits nothing: `send`, `recv`, `accept`, `write` and `link_timeout` return -10086,
  -- `connect` and the accept of a socket the system error -10086, and `read` and `timeout` the
  -- system error 10086. Else it prepares and submits the entry once. A negative result of the kernel
  -- becomes the system error of the same sign from `connect` and the accept of a socket, and of the
  -- opposite sign from `read`; `send` and its like return it as it is. Any other result is
  -- returned, but the accept of a socket makes the system error 0 of the descriptor 0.
  pub co_await_on_lem :
      let t = co_await_on L f h r ring in
      (((L.get_sqe ring).0 ≡ none)
        × (t.1 ≡ (L.get_sqe ring).1)
        × (plain_resume t.0 ≡ negsuc 10085)
        × (connect_resume t.0 ≡ sys_error (negsuc 10085))
        × (socket_accept_resume t.0 ≡ sys_error (negsuc 10085))
        × (read_resume t.0 ≡ sys_error (pos 10086))
        × (timeout_resume t.0 ≡ sys_error (pos 10086)))
      ⊎ ((q : Sqe) × ((L.get_sqe ring).0 ≡ some q)
          × (t.1 ≡ L.submit (L.prepare f q (L.set_data q (L.get_sqe ring).1)))
          × (plain_resume t.0 ≡ r)
          × Answered r t.0)
  unfolding connect_resume socket_accept_resume read_resume timeout_resume
  co_await_on_lem = elim (Option-cases (L.get_sqe ring).0) [
    | inl e ↦ rw (co_await_on-none e) (inl (e, refl, refl, refl, refl, refl, refl))
    | inr (q, e) ↦ rw (co_await_on-some q e) (inr (q, e, refl, refl, signs r q))
  ]
    where
      signs :
          (r : ℤ) (q : Sqe)
          → let a : BaseUringAwaiter Sqe = record { sqe = some q; handle = some h; result = r } in
            Answered r a
      signs (pos n) q = (refl, refl, refl)
      signs (negsuc n) q = (refl, refl, refl)
