-- ===== src/Uring/Awaiter.antt =====
-- `base_uring_awaiter` of kkp/kkp-core/include/kkp/uring/base_uring_awaiter.hpp, what the awaiters of
-- kkp/kkp-core/include/kkp/uring/awaiter/ return, and `socket_accept_awaiter` of
-- kkp/kkp-core/include/kkp/net/socket.hpp. The calls of liburing are parameters.
pub mod Laws
pub mod Kinds
use kk_proxy.Common.{
  ℕ, Bool, true, false, Option, none, some, ℤ, pos, negsuc, negate, is_negative, is_positive, eq_ℤ,
  if◌then◌else◌,
}
use kk_proxy.ErrorCode.{Category, system, ErrorCode, Result, ok, unexpected, make_sys_error}
use kk_proxy.Uring.Loop.{etime}
use kk_proxy.Uring.Request.{Request}

-- `handle` and `result` are the fields of `data_`.
pub record BaseUringAwaiter (Sqe : Type 0) : Type 0 where
  pub sqe : Option Sqe
  pub handle : Option ℕ
  pub result : ℤ

-- `io_uring_get_sqe`; `io_uring_sqe_set_data` with the address of `data_`, then the call `f` with its
-- arguments, which prepares the entry; and `io_uring_submit`, whose result the code does not read.
pub record Ring (Sqe R : Type 0) : Type 0 where
  pub get_sqe : R → Option Sqe × R
  pub set_data : Sqe → R → R
  pub prepare : Request → Sqe → R → R
  pub submit : R → R

-- -10086
abbrev pub no_entry : ℤ
no_entry = negsuc 10085

module _ {Sqe R : Type 0} (L : Ring Sqe R) where
  unfoldable pub base_uring_awaiter : Request → R → BaseUringAwaiter Sqe × R
  base_uring_awaiter f ring =
      let (q, ring) = L.get_sqe ring in
      elim q [
        | some sqe ↦ (
          record { sqe = some sqe; handle = none; result = pos 0 },
          L.prepare f sqe (L.set_data sqe ring),
        )
        | none ↦ (record { sqe = none; handle = none; result = no_entry }, ring)
      ]

  unfoldable pub await_suspend : ℕ → BaseUringAwaiter Sqe → R → BaseUringAwaiter Sqe × R
  await_suspend h a ring = (record a { handle = some h }, L.submit ring)

-- The move constructor. `data_` gets a new address, but the entry keeps the old one.
abbrev pub move_construct :
    {Sqe : Type 0} → BaseUringAwaiter Sqe → BaseUringAwaiter Sqe × BaseUringAwaiter Sqe
move_construct other = (other, record other { sqe = none; handle = none })

abbrev pub await_ready : {Sqe : Type 0} → BaseUringAwaiter Sqe → Bool
await_ready a = elim a.sqe [ none ↦ true | some sqe ↦ false ]

-- The `int` of `send`, `recv`, `accept`, `write` and `link_timeout`.
abbrev pub plain_resume : {Sqe : Type 0} → BaseUringAwaiter Sqe → ℤ
plain_resume a = a.result

unfoldable pub connect_resume : {Sqe : Type 0} → BaseUringAwaiter Sqe → Result ℤ
connect_resume a = let res = a.result in if is_negative res then make_sys_error res else ok res

-- Both branches of the test for -10086 give the same error.
unfoldable pub read_resume : {Sqe : Type 0} → BaseUringAwaiter Sqe → Result ℤ
read_resume a =
    let res = a.result in
    if is_negative res
    then unexpected (record { value = negate res; category = system })
    else ok res

unfoldable pub timeout_resume : {Sqe : Type 0} → BaseUringAwaiter Sqe → Result (Unit {0})
timeout_resume a =
    let res = a.result in
    if eq_ℤ res etime then ok tt else unexpected (record { value = negate res; category = system })

-- The descriptor of the new `socket`, where there is one.
unfoldable pub socket_accept_resume : {Sqe : Type 0} → BaseUringAwaiter Sqe → Result ℤ
socket_accept_resume a =
    let ret = plain_resume a in if is_positive ret then ok ret else make_sys_error ret

-- A whole `co_await` of the awaiter that the call `f` prepares: at once when the awaiter is ready, else
-- suspended with the handle `h` until the loop has stored the result `r` of the completion.
unfoldable pub co_await_on :
    {Sqe R : Type 0} → Ring Sqe R → Request → ℕ → ℤ → R → BaseUringAwaiter Sqe × R
unfolding base_uring_awaiter await_suspend
co_await_on L f h r ring =
    let (a, ring) = base_uring_awaiter L f ring in
    if await_ready a
    then (a, ring)
    else let (a, ring) = await_suspend L h a ring in (record a { result = r }, ring)
