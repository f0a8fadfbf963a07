-- ===== src/Net/Socket/Io.antt =====
-- `connect`, `send` and `recv` of `socket`, `socket_accept_awaiter` and `accept` of `server_socket`, in
-- kkp/kkp-core/include/kkp/net/socket.hpp: which awaiter each makes.
use kk_proxy.Common.{ℕ, ℤ, pos}
use kk_proxy.ErrorCode.{Result}
use kk_proxy.Uring.Request.{Span}
use kk_proxy.Uring.Awaiter.{socket_accept_resume}
use kk_proxy.Uring.Awaiter.Kinds.{Awaiter}
use kk_proxy.Uring.Awaiter.Kinds
use kk_proxy.Net.Socket.{Socket}
use kk_proxy.Net.ServerSocket.{ServerSocket}

module _ {Sqe P : Type 0} where
  -- `addr` is the address of the `sockaddr` in `peer_`, and 16 is the size of a `sockaddr`.
  unfoldable pub connect : (addr : ℕ) → Socket P → Awaiter Sqe (Result ℤ)
  connect addr s = Kinds.connect s.fd addr 16

  unfoldable pub send : Span → (flag : ℤ) → Socket P → Awaiter Sqe ℤ
  send buf flag s = Kinds.send s.fd buf.data_ptr buf.size flag

  unfoldable pub recv : Span → (flag : ℤ) → Socket P → Awaiter Sqe ℤ
  recv buf flag s = Kinds.recv s.fd buf.data_ptr buf.size flag

module _ {Sqe : Type 0} where
  -- `addr` and `addrlen` are the addresses of the awaiter's own `addr_` and `addrlen_`.
  unfoldable pub socket_accept_awaiter : (fd flags : ℤ) (addr addrlen : ℕ) → Awaiter Sqe (Result ℤ)
  unfolding Kinds.accept
  socket_accept_awaiter fd flags addr addrlen =
      let base : Awaiter Sqe ℤ = Kinds.accept fd addr addrlen flags in
      record { request = base.request; await_resume = socket_accept_resume }

  unfoldable pub accept : (addr addrlen : ℕ) → ServerSocket → Awaiter Sqe (Result ℤ)
  accept addr addrlen s = socket_accept_awaiter s.fd (pos 0) addr addrlen
