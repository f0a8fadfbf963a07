-- ===== src/Net/Socket.antt =====
-- `socket` of kkp/kkp-core/include/kkp/net/socket.hpp: who owns its descriptor. `P` is the type
-- `endpoint`.
pub mod Ownership
pub mod Io
use kk_proxy.Common.{
  ℕ, Bool, true, false, Option, none, some, List, [], ◌∷◌, ◌++◌, ℤ, pos, negsuc, is_positive, eq_ℤ,
  if◌then◌else◌, ◌==◌, get_elem?, set,
}
use kk_proxy.Descriptors.{Close}
use kk_proxy.Objects.{Class}

-- `ring` is `none` for a null pointer.
pub record Socket (P : Type 0) : Type 0 where
  pub ring : Option ℕ
  pub fd : ℤ
  pub peer : P

-- `open`, with what `::socket` returned: -1 stays in the object when it failed.
abbrev pub opened : {P : Type 0} → Option ℕ → ℤ → P → Socket P
opened ring fd peer = record { ring = ring; fd = fd; peer = peer }

-- The move constructor: the new object, and what is left of the other.
abbrev pub move_construct : {P : Type 0} → Socket P → Socket P × Socket P
move_construct other = (
  record { ring = other.ring; fd = other.fd; peer = other.peer },
  record other { ring = none; fd = negsuc 0 },
)

-- getsockopt: its result and the value of SO_ERROR
unfoldable pub is_alive : {P : Type 0} → (ℤ → ℤ × ℤ) → Socket P → Bool
is_alive getsockopt s =
    if is_positive s.fd
    then (let (ret, optval) = getsockopt s.fd in
        if eq_ℤ ret (pos 0) then eq_ℤ optval (pos 0) else false)
    else false

-- The member functions that may end the ownership.
pub data Call : Type 0 where
  closing destroying : Call

module _ {P K : Type 0} (sys_close : Close K) where
  unfoldable pub close : Socket P → K → Bool × Socket P × K
  close s k = elim (is_positive s.fd) [
    | false ↦ (false, s, k)
    | true ↦
        let (ret, k') = sys_close s.fd k in
        elim (eq_ℤ ret (pos 0)) [
          | true ↦ (true, record s { fd = negsuc 0 }, k')
          | false ↦ (false, s, k')
        ]
  ]

  -- ~socket
  abbrev pub destroy : Socket P → K → Socket P × K
  destroy s k = let (ret, t, k') = close s k in (t, k')

  -- The move assignment of another object: `this`, the other, and the kernel. Unlike `close` it does
  -- not look at the result of `::close`.
  unfoldable pub move_assign : Socket P → Socket P → K → Socket P × Socket P × K
  move_assign this other k =
      let k' : K = if is_positive this.fd then (sys_close this.fd k).1 else k in
      let (new, left) = move_construct other in (new, left, k')

  abbrev pub call : Call → Socket P → K → Socket P × K
  call closing s k = let (ret, t, k') = close s k in (t, k')
  call destroying s k = destroy s k

  abbrev pub socket_class : Class (Socket P) K Call
  socket_class = record { move = move_construct; assign = move_assign; call = call }
