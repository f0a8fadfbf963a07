-- ===== src/Net/ServerSocket.antt =====
-- `server_socket` of kkp/kkp-core/include/kkp/net/socket.hpp. The system calls are parameters, on a
-- state `K` of the kernel; `addr_`, a `sockaddr_in`, is given by its bytes.
pub mod Laws
use kk_proxy.Common.{
  ℕ, Option, none, some, List, [], ◌∷◌, ℤ, pos, negsuc, is_positive, is_negative, negate, eq_ℤ,
  if◌then◌else◌,
}
use kk_proxy.ErrorCode.{Result, ok, make_sys_error}
use kk_proxy.Descriptors.{Close}
use kk_proxy.Objects.{Class}
use kk_proxy.Net.Address.{Address, address, write_at, htons}

pub record ServerSocket : Type 0 where
  pub ring : Option ℕ
  pub fd : ℤ
  pub addr : Address

-- `::socket(AF_INET, SOCK_STREAM, 0)`, `setsockopt` with SO_REUSEADDR, `::bind` and `::listen`, each
-- with its result, and `errno` as the last call left it.
pub record Calls (K : Type 0) : Type 0 where
  pub sys_socket : K → ℤ × K
  pub setsockopt : ℤ → K → ℤ × K
  pub sys_bind : ℤ → Address → K → ℤ × K
  pub sys_listen : ℤ → ℤ → K → ℤ × K
  pub errno : K → ℤ

-- The move constructor.
abbrev pub move_construct : ServerSocket → ServerSocket × ServerSocket
move_construct other = (
  record { ring = other.ring; fd = other.fd; addr = other.addr },
  record other { ring = none; fd = negsuc 0 },
)

module _ {K : Type 0} (sys_close : Close K) where
  -- if (fd_ > 0): the result of `::close` is not looked at.
  abbrev pub close_fd : ServerSocket → K → K
  close_fd s k = if is_positive s.fd then (sys_close s.fd k).1 else k

  -- ~server_socket
  abbrev pub destroy : ServerSocket → K → ServerSocket × K
  destroy s k = (if is_positive s.fd then record s { fd = negsuc 0 } else s, close_fd s k)

  abbrev pub move_assign : ServerSocket → ServerSocket → K → ServerSocket × ServerSocket × K
  move_assign this other k = let (new, left) = move_construct other in (new, left, close_fd this k)

  abbrev pub server_class : Class ServerSocket K (Unit {0})
  server_class = record { move = move_construct; assign = move_assign; call = λ x s k. destroy s k }

-- `addr_` as `bind` fills it: AF_INET, the port, 0.0.0.0
abbrev pub any_address : ℕ → Address → Address
any_address port a =
    write_at 4 (0 ∷ 0 ∷ 0 ∷ 0 ∷ []) (write_at 2 (htons port) (write_at 0 (2 ∷ 0 ∷ []) a))

module _ {K : Type 0} (C : Calls K) where
  -- `none`: the constructor throws.
  unfoldable pub server_socket : Option ℕ → K → Option ServerSocket × K
  server_socket ring k =
      let (fd, k) = C.sys_socket k in
      (
        if eq_ℤ fd (negsuc 0) then none else some (record { ring = ring; fd = fd; addr = address }),
        k,
      )

  unfoldable pub bind : ℕ → ServerSocket → K → Result (Unit {0}) × ServerSocket × K
  bind port s k =
      let (opt, k₁) = C.setsockopt s.fd k in
      if is_negative opt
      then (make_sys_error opt, s, k₁)
      else (let t = record s { addr = any_address port s.addr } in
          let (ret, k₂) = C.sys_bind s.fd t.addr k₁ in
          if is_negative ret then (make_sys_error (negate (C.errno k₂)), t, k₂) else (ok tt, t, k₂))

  unfoldable pub listen : ℤ → ServerSocket → K → Result (Unit {0}) × K
  listen backlog s k =
      let (ret, k') = C.sys_listen s.fd backlog k in
      (if is_negative ret then make_sys_error ret else ok tt, k')
