-- ===== src/OverUring/RawSocket.antt =====
-- `socket` of kkp/kkp-core/include/kkp/net/socket.hpp as the stream below an `ssl_stream`: the concept
-- `kk_stream` of kkp/kkp-core/include/kkp/kkp_traits.hpp, with each call awaited on io_uring.
use kk_proxy.Common.{
  ℕ, zero, suc, ◌≤◌, ◌≡◌, refl, sym, ◌∙◌, inl, inr, Bool, List, [], ◌∷◌, ◌++◌, append-nil, arith,
  ◌⊎◌, ℤ, negsuc, pos_part, ◌==◌, if◌then◌else◌, length, take,
}
use kk_proxy.Descriptors.{Close}
use kk_proxy.Uring.Request.{Span, prep_send}
use kk_proxy.Uring.Awaiter.{Ring}
use kk_proxy.Uring.Awaiter.Kinds
use kk_proxy.Uring.Kernel.{Memory, bytes, Kernel, IsDocumented, World, co_await}
use kk_proxy.Net.Socket.{Socket, is_alive, close}
use kk_proxy.Net.Socket.Io
use kk_proxy.Ssl.RawStream.{RawStream, SendsFront}
use kk_proxy.OverUring.Confined.{co_await-cases}

-- The memory with these bytes from an address on.
abbrev pub store : ℕ → List ℕ → Memory → Memory
store buf [] m a = m a
store buf (x ∷ xs) m a = if a == buf then x else store (suc buf) xs m a

bytes_ext :
    (m m' : Memory) (n buf : ℕ) → ((a : ℕ) → buf ≤ a → m a ≡ m' a) → bytes m buf n ≡ bytes m' buf n
bytes_ext m m' zero buf h = refl
bytes_ext m m' (suc n) buf h =
    rw (h buf (omega arith), bytes_ext m m' n (suc buf) (λ a l. h a (omega arith))) refl

pub bytes-store : (xs : List ℕ) (buf : ℕ) (m : Memory) → bytes (store buf xs m) buf (length xs) ≡ xs
bytes-store [] buf m = refl
bytes-store (x ∷ xs) buf m = rw (here, rest ∙ bytes-store xs (suc buf) m) refl
  where
    here : store buf (x ∷ xs) m buf ≡ x
    here = ground arith

    rest :
        bytes (store buf (x ∷ xs) m) (suc buf) (length xs)
        ≡ bytes (store (suc buf) xs m) (suc buf) (length xs)
    rest = bytes_ext _ _ (length xs) (suc buf) (λ a l. ground arith)

-- What the kernel has of sockets besides its entries: getsockopt and close(2).
pub record Calls (K : Type 0) : Type 0 where
  pub getsockopt : K → ℤ → ℤ × ℤ
  pub sys_close : Close K

pub record RawSocket (R K P : Type 0) : Type 0 where
  pub sock : Socket P
  pub world : World R K

module _ {Sqe R K : Type 0} (P : Type 0) (L : Ring Sqe R) (N : Kernel K) (C : Calls K)
    (h buf_ptr : ℕ) where
  abbrev pub span : ℕ → Span
  span size = record { data_ptr = buf_ptr; size = size }

  -- The caller's bytes are at `buf_ptr`, and the received ones come there.
  abbrev pub send : RawSocket R K P → List ℕ → ℤ → ℤ × RawSocket R K P
  send s buf flag =
      let (n, world) =
        co_await L N h (Io.send (span (length buf)) flag s.sock)
          (record s.world { memory = store buf_ptr buf s.world.memory }) in
      (n, record s { world = world })

  abbrev pub recv : RawSocket R K P → ℕ → ℤ → ℤ × List ℕ × RawSocket R K P
  recv s len flag =
      let (n, world) = co_await L N h (Io.recv (span len) flag s.sock) s.world in
      (n, bytes world.memory buf_ptr (pos_part n), record s { world = world })

  abbrev pub close_socket : RawSocket R K P → Bool × RawSocket R K P
  close_socket s =
      let (done, sock, k) = close C.sys_close s.sock s.world.kernel in
      (done, record { sock = sock; world = record s.world { kernel = k } })

  abbrev pub raw_socket : RawStream
  raw_socket = record {
    State = RawSocket R K P;
    send = send;
    recv = recv;
    is_alive = λ s. is_alive (C.getsockopt s.world.kernel) s.sock;
    close = close_socket;
  }

module _ {Sqe R K : Type 0} (P : Type 0) (L : Ring Sqe R) (N : Kernel K) (C : Calls K)
    (h buf_ptr : ℕ) (D : IsDocumented N) where
  -- What was sent on the descriptor of the socket.
  abbrev pub sent : RawSocket R K P → List ℕ
  sent s = D.sent s.sock.fd s.world.kernel

  send-cases :
      (s : RawSocket R K P) (buf : List ℕ) (flag : ℤ)
      → let m = store buf_ptr buf s.world.memory in
        let (r, m', k) =
          N.perform (prep_send s.sock.fd buf_ptr (length buf) flag) m s.world.kernel in
        let (n, t) = send P L N C h buf_ptr s buf flag in
        ((n ≡ negsuc 10085) × (sent t ≡ sent s)) ⊎ ((n ≡ r) × (sent t ≡ D.sent s.sock.fd k))
  unfolding Io.send Kinds.send
  send-cases s buf flag =
      elim (co_await-cases L N h (Io.send (span P L N C h buf_ptr (length buf)) flag s.sock)
        (record s.world { memory = store buf_ptr buf s.world.memory })) [
          | inl e ↦ inl (rw e (refl, refl))
          | inr (q, e) ↦ inr (rw e (refl, refl))
        ]

  pub send-count :
      (s : RawSocket R K P) (buf : List ℕ) (flag : ℤ)
      → pos_part (send P L N C h buf_ptr s buf flag).0 ≤ length buf
  send-count s buf flag = elim (send-cases s buf flag) [
    | inl (e, _) ↦ rw e (omega arith)
    | inr (e, _) ↦ rw e (D.send-count s.sock.fd buf_ptr (length buf) flag _ _)
  ]

  pub sent-send :
      (s : RawSocket R K P) (buf : List ℕ) (flag : ℤ)
      → let (n, t) = send P L N C h buf_ptr s buf flag in sent t ≡ sent s ++ take (pos_part n) buf
  sent-send s buf flag = elim (send-cases s buf flag) [
    | inl (e, f) ↦ rw (e, f) (sym (append-nil _))
    | inr (e, f) ↦
        rw (e, f)
          (D.sent-send s.sock.fd buf_ptr (length buf) flag _ s.world.kernel
            ∙ rw (bytes-store buf buf_ptr s.world.memory) refl)
  ]

  pub sent-recv :
      (s : RawSocket R K P) (len : ℕ) (flag : ℤ)
      → sent (recv P L N C h buf_ptr s len flag).2 ≡ sent s
  unfolding Io.recv Kinds.recv
  sent-recv s len flag =
      elim (co_await-cases L N h (Io.recv (span P L N C h buf_ptr len) flag s.sock) s.world) [
        | inl e ↦ rw e refl
        | inr (q, e) ↦ rw e (D.sent-recv s.sock.fd buf_ptr len flag _ _)
      ]

  abbrev pub raw_socket-SendsFront : SendsFront (raw_socket P L N C h buf_ptr)
  raw_socket-SendsFront = record {
    sent = sent;
    send-count = send-count;
    sent-send = sent-send;
    sent-recv = sent-recv;
  }
