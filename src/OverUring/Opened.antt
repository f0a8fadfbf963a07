-- ===== src/OverUring/Opened.antt =====
-- The coroutines `open` of kkp/kkp-core/include/kkp/net/socket.hpp and `of` of
-- kkp/kkp-core/include/kkp/fs/file.hpp: the context of the coroutine gives the ring.
use kk_proxy.Common.{ℕ, Option, none, some, ℤ}
use kk_proxy.Coro.Task.{Memory}
use kk_proxy.Coro.Handle.{this_context}
use kk_proxy.Net.Socket.{Socket, opened}
use kk_proxy.Net.ServerSocket.{ServerSocket, Calls, server_socket}
use kk_proxy.Fs.File.{File, file}

-- `context->ring()`, which is a member of the context; a null context is undefined.
abbrev pub ring_of : (ring : ℕ → ℕ) → Option (Option ℕ × Option ℕ) → Option ℕ
ring_of ring (some (some context, _)) = some (ring context)
ring_of ring _ = none

-- A result with the state, where there is one.
abbrev pub with_ring : {T K : Type 0} → Option ℕ → K → (ℕ → K → T × K) → Option T × K
with_ring none k make = (none, k)
with_ring (some r) k make = let (t, k') = make r k in (some t, k')

module _ {V K : Type 0} (ring : ℕ → ℕ) (caller : ℕ) (m : Memory V) where
  -- `::socket(AF_INET, SOCK_STREAM, 0)` may fail with -1, which the code does not look at. The form with no
  -- `peer` has a default one.
  unfoldable pub open_socket :
      {P : Type 0} → (sys_socket : K → ℤ × K) → (peer : P) → K → Option (Socket P) × K
  unfolding this_context
  open_socket sys_socket peer k =
      with_ring (ring_of ring (this_context caller m)) k
        (λ r k. let (fd, k') = sys_socket k in (opened (some r) fd peer, k'))

  -- `none` inside: the constructor throws.
  unfoldable pub open_server : Calls K → K → Option (Option ServerSocket) × K
  unfolding this_context
  open_server C k =
      with_ring (ring_of ring (this_context caller m)) k (λ r k. server_socket C (some r) k)

  -- `sys_open` is `open` with the path and the flag.
  unfoldable pub of_file : (sys_open : K → ℤ × K) → K → Option File × K
  unfolding this_context
  of_file sys_open k =
      with_ring (ring_of ring (this_context caller m)) k
        (λ r k. let (fd, k') = sys_open k in (file (some r) fd, k'))
