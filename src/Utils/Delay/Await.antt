-- ===== src/Utils/Delay/Await.antt =====
-- `delay` of kkp/kkp-core/include/kkp/utils.hpp as it is awaited, with the awaiter `timeout` of
-- kkp/kkp-core/include/kkp/uring/awaiter/timeout.hpp. The kernel's clock is a parameter.
use kk_proxy.Common.{
  ℕ, ◌<◌, ◌+◌, ◌*◌, ◌≤◌, ◌≡◌, refl, ◌⊎◌, inl, inr, Bool-cases, Option-cases, true, false, Option,
  none, some, arith, ℤ, pos, negsuc, pos_part, is_negative, ◌==◌, if◌then◌else◌,
}
use kk_proxy.ErrorCode.{Result, ok}
use kk_proxy.Coro.Task.{Memory}
use kk_proxy.Coro.Handle.{this_context}
use kk_proxy.Uring.Loop.{etime}
use kk_proxy.Uring.Request.{Request, prep_timeout}
use kk_proxy.Uring.Awaiter.{Ring, base_uring_awaiter, await_ready, await_suspend, timeout_resume}
use kk_proxy.Uring.Awaiter.Kinds.{timeout}
use kk_proxy.Uring.Awaiter.Laws.{sys_error}
use kk_proxy.Utils.Delay.{Timespec, delay_timespec, is_valid, delay_timespec_lem}

-- The timespecs in the memory, by their addresses.
abbrev pub Timers : Type 0
Timers = ℕ → Option Timespec

-- A submitted timeout: the kernel reads the timespec at the address in the entry.
pub record Clock (K : Type 0) : Type 0 where
  pub expire : Request → Timers → K → ℤ × K

abbrev pub nanoseconds : Timespec → ℕ
nanoseconds t = pos_part t.tv_sec * 1000000000 + pos_part t.tv_nsec

-- A timeout that counts no completions, with IORING_TIMEOUT_ETIME_SUCCESS (32) as its only flag and so
-- relative: it ends with -ETIME, and not before its time, which `now` gives in nanoseconds; one with a
-- negative part is refused with -EINVAL. Of nanoseconds of a second or more nothing is said.
pub record IsClock {K : Type 0} (T : Clock K) : Type 0 where
  pub now : K → ℕ
  pub expire-valid :
      (ts : ℕ) (m : Timers) (t : Timespec) (k : K)
      → m ts ≡ some t
      → is_valid t ≡ true
      → pos_part t.tv_nsec < 1000000000
      → let (r, k') = T.expire (prep_timeout ts 0 32) m k in
        (r ≡ etime) × (now k + nanoseconds t ≤ now k')
  pub expire-refused :
      (ts : ℕ) (m : Timers) (t : Timespec) (k : K)
      → m ts ≡ some t
      → is_valid t ≡ false
      → (T.expire (prep_timeout ts 0 32) m k).0 ≡ negsuc 21

negative_refused : (mills : ℤ) → is_negative mills ≡ true → is_valid (delay_timespec mills) ≡ false
negative_refused mills neg = elim (Bool-cases (is_valid (delay_timespec mills))) [
  | inr v ↦ v
  | inl v ↦ cc ((delay_timespec_lem mills).2.0 v)
]

module _ {Sqe R K : Type 0} (L : Ring Sqe R) (T : Clock K) (h ts : ℕ) where
  -- The memory with the awaiter's copy.
  abbrev pub copied : Timespec → Timers
  copied t x = if x == ts then some t else none

  -- A `timeout` whose `ts_` is at the address `ts`: the entry gets the address first, then the timespec is
  -- copied there, and the entry is submitted when the coroutine `h` has suspended.
  unfoldable pub co_await_timeout : Timespec → (count flags : ℕ) → R → K → Result (Unit {0}) × R × K
  unfolding base_uring_awaiter await_suspend timeout
  co_await_timeout t count flags ring k =
      let w = timeout {Sqe = Sqe} ts count flags in
      let (a, ring) = base_uring_awaiter L w.request ring in
      if await_ready a
      then (w.await_resume a, ring, k)
      else (let (b, ring') = await_suspend L h a ring in
          let (r, k') = T.expire w.request (copied t) k in
          (w.await_resume (record b { result = r }), ring', k'))

  -- `delay(ring, ts)`: 32 is IORING_TIMEOUT_ETIME_SUCCESS.
  unfoldable pub delay_for : Timespec → R → K → Result (Unit {0}) × R × K
  unfolding co_await_timeout
  delay_for t ring k = co_await_timeout t 0 32 ring k

  -- `delay(ring, mills)`
  unfoldable pub delay : ℤ → R → K → Result (Unit {0}) × R × K
  unfolding delay_for
  delay mills ring k = delay_for (delay_timespec mills) ring k

  -- The coroutines `delay(ts)` and `delay(mills)`: the context of the coroutine gives the ring, and a null
  -- context is undefined.
  abbrev pub on_context : {A : Type 0} → Option (Option ℕ × Option ℕ) → A → Option A
  on_context (some (some context, _)) x = some x
  on_context _ x = none

  unfoldable pub delay_task_for :
      {V : Type 0} → (caller : ℕ) → Memory V → Timespec → R → K → Option (Result (Unit {0}) × R × K)
  unfolding this_context delay_for
  delay_task_for caller m t ring k = on_context (this_context caller m) (delay_for t ring k)

  unfoldable pub delay_task :
      {V : Type 0} → (caller : ℕ) → Memory V → ℤ → R → K → Option (Result (Unit {0}) × R × K)
  unfolding this_context delay
  delay_task caller m mills ring k = on_context (this_context caller m) (delay mills ring k)

  module _ (I : IsClock T) where
    open I use {now}

    delay-none :
        (mills : ℤ) (ring : R) (k : K)
        → (L.get_sqe ring).0 ≡ none
        → delay mills ring k ≡ (sys_error (pos 10086), (L.get_sqe ring).1, k)
    unfolding delay delay_for co_await_timeout base_uring_awaiter timeout timeout_resume
    delay-none mills ring k e = rw (e, base_uring_awaiter, co_await_timeout, delay_for, delay) refl

    delay-some :
        (mills : ℤ) (ring : R) (k : K) (q : Sqe)
        → (L.get_sqe ring).0 ≡ some q
        → let (t, ring', k') = delay mills ring k in
          let (r, k'') = T.expire (prep_timeout ts 0 32) (copied (delay_timespec mills)) k in
          (t ≡ timeout_resume (record { sqe = some q; handle = some h; result = r })) × (k' ≡ k'')
    unfolding delay delay_for co_await_timeout base_uring_awaiter timeout
    delay-some mills ring k q e =
        rw (e, base_uring_awaiter, co_await_timeout, delay_for, delay) (refl, refl)

    at_ts : (t : Timespec) → copied t ts ≡ some t
    at_ts t = ground arith

    -- A `delay` of any number of milliseconds that is awaited ends in one of three ways. With a full
    -- submission queue it does not wait, and gives the system error 10086. Else, a delay that is not
    -- negative succeeds, and no earlier than after that many milliseconds; a negative one gives the
    -- system error EINVAL.
    pub delay_lem :
        (mills : ℤ) (ring : R) (k : K)
        → let (t, ring', k') = delay mills ring k in
          (((L.get_sqe ring).0 ≡ none) × (t ≡ sys_error (pos 10086)) × (k' ≡ k))
          ⊎ ((is_negative mills ≡ false)
              × (t ≡ ok tt)
              × (now k + pos_part mills * 1000000 ≤ now k'))
          ⊎ ((is_negative mills ≡ true) × (t ≡ sys_error (pos 22)))
    unfolding timeout_resume
    delay_lem mills ring k = elim (Option-cases (L.get_sqe ring).0) [
      | inl e ↦ rw (delay-none mills ring k e) (inl (e, refl, refl))
      | inr (q, e) ↦
          let (f, g) = delay-some mills ring k q e in
          let t = delay_timespec mills in
          elim (Bool-cases (is_negative mills)) [
            | inr late ↦
                let (r, w) =
                  I.expire-valid ts (copied t) t k (at_ts t) ((delay_timespec_lem mills).2.1 late)
                    (delay_timespec_lem mills).3 in
                inr (
                  inl (late, rw (f, r) refl, rw g (omega (arith, w, (delay_timespec_lem mills).0))))
            | inl neg ↦ inr (
                inr (
                  neg,
                  rw (f, I.expire-refused ts (copied t) t k (at_ts t) (negative_refused mills neg))
                      refl,
                ))
          ]
    ]
