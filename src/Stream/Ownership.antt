-- ===== src/Stream/Ownership.antt =====
-- Who owns the descriptor under a `stream`, plain or with TLS: kkp/kkp-core/include/kkp/stream.hpp.
use kk_proxy.Common.{ℕ, ◌+◌, ◌≤◌, Bool, List, arith}
use kk_proxy.Descriptors.{Close, IsClose, is_fd, successes, failures, closings}
use kk_proxy.Objects.{Class, IsOwner, Step, steps, creations}
use kk_proxy.Objects.Laws.{total, total-plus}
use kk_proxy.Objects.Laws
use kk_proxy.Net.Socket.{Socket, Call, closing, destroying}
use kk_proxy.Net.Socket
use kk_proxy.Net.Socket.Ownership.{socket-IsOwner}
use kk_proxy.Ssl.Engine.Ownership.{Alloc}
use kk_proxy.Ssl.Stream.Ownership.{SslStream}
use kk_proxy.Ssl.Stream.Ownership

-- `stream_`, the variant. It holds an alternative at any time, since no move throws.
pub data BaseStream (P : Type 0) : Type 0 where
  plain : Socket P → BaseStream P
  tls : SslStream P → BaseStream P

-- The move constructor.
abbrev pub move_construct : {P : Type 0} → BaseStream P → BaseStream P × BaseStream P
move_construct (plain s) = let (new, left) = Socket.move_construct s in (plain new, plain left)
move_construct (tls s) = let (new, left) = Ownership.move_construct s in (tls new, tls left)

-- how often `::close` was called for the descriptor with result 0, with another, and at all
abbrev pub released : {K M : Type 0} {sys_close : Close K} → IsClose K sys_close → ℕ → K × M → ℕ
released C p (k, m) = successes C p k

abbrev pub refused : {K M : Type 0} {sys_close : Close K} → IsClose K sys_close → ℕ → K × M → ℕ
refused C p (k, m) = failures C p k

abbrev pub close_calls : {K M : Type 0} {sys_close : Close K} → IsClose K sys_close → ℕ → K × M → ℕ
close_calls C p (k, m) = closings C p k

module _ {P K M : Type 0} (sys_close : Close K) (A : Alloc M) where
  abbrev pub destroy : BaseStream P → K × M → BaseStream P × (K × M)
  destroy (plain s) (k, m) = let (t, k') = Socket.destroy sys_close s k in (plain t, (k', m))
  destroy (tls s) st = let (t, st') = Ownership.destroy sys_close A s st in (tls t, st')

  -- The alternative of `this` is destroyed, and that of the other is moved in.
  abbrev pub replace : BaseStream P → BaseStream P → K × M → BaseStream P × BaseStream P × (K × M)
  replace this other st =
      let (gone, st') = destroy this st in
      let (new, left) = move_construct other in (new, left, st')

  -- The move assignment of a variant: the same alternative is assigned. A stream that is
  -- assigned to itself stays as it is, since each alternative tests for that.
  abbrev pub move_assign :
      BaseStream P → BaseStream P → K × M → BaseStream P × BaseStream P × (K × M)
  move_assign (plain s) (plain t) (k, m) =
      let (new, left, k') = Socket.move_assign sys_close s t k in (plain new, plain left, (k', m))
  move_assign (tls s) (tls t) st =
      let (new, left, st') = Ownership.move_assign sys_close A s t st in (tls new, tls left, st')
  move_assign (plain s) (tls t) st = replace (plain s) (tls t) st
  move_assign (tls s) (plain t) st = replace (tls s) (plain t) st

  abbrev pub close : BaseStream P → K × M → Bool × BaseStream P × (K × M)
  close (plain s) (k, m) =
      let (done, t, k') = Socket.close sys_close s k in (done, plain t, (k', m))
  close (tls s) st = let (done, t, st') = Ownership.close sys_close A s st in (done, tls t, st')

  abbrev pub call : Call → BaseStream P → K × M → BaseStream P × (K × M)
  call closing s st = let (done, t, st') = close s st in (t, st')
  call destroying s st = destroy s st

  abbrev pub stream_class : Class (BaseStream P) (K × M) Call
  stream_class = record { move = move_construct; assign = move_assign; call = call }

  module _ (C : IsClose K sys_close) (p : ℕ) where
    abbrev pub held : BaseStream P → ℕ
    held (plain s) = is_fd p s.fd
    held (tls s) = is_fd p s.raw_stream.fd

    move_owner : (s : BaseStream P) → held (move_construct s).0 + held (move_construct s).1 ≤ held s
    move_owner (plain s) = omega arith
    move_owner (tls s) = omega arith

    call_owner :
        (x : Call) (s : BaseStream P) (st : K × M)
        → held (call x s st).0 + released C p (call x s st).1 ≤ held s + released C p st
    call_owner closing (plain s) (k, m) = (socket-IsOwner sys_close C p).call_owner closing s k
    call_owner closing (tls s) (k, m) =
        (socket-IsOwner sys_close C p).call_owner closing s.raw_stream k
    call_owner destroying (plain s) (k, m) =
        (socket-IsOwner sys_close C p).call_owner destroying s k
    call_owner destroying (tls s) (k, m) =
        (socket-IsOwner sys_close C p).call_owner destroying s.raw_stream k

    assign_owner :
        (s t : BaseStream P) (st : K × M)
        → held (move_assign s t st).0
            + held (move_assign s t st).1
            + released C p (move_assign s t st).2
          ≤ held s + held t + released C p st
    assign_owner (plain s) (plain t) (k, m) = (socket-IsOwner sys_close C p).assign_owner s t k
    assign_owner (tls s) (tls t) (k, m) =
        (socket-IsOwner sys_close C p).assign_owner s.raw_stream t.raw_stream k
    assign_owner (plain s) (tls t) st =
        omega (arith, call_owner destroying (plain s) st, move_owner (tls t))
    assign_owner (tls s) (plain t) st =
        omega (arith, call_owner destroying (tls s) st, move_owner (plain t))

    stream-IsOwner : IsOwner stream_class held (released C p)
    stream-IsOwner = record {
      move_owner = move_owner;
      assign_owner = assign_owner;
      call_owner = call_owner;
    }

    -- Whatever a program does with its streams, plain ones and those with TLS (makes, moves, assigns,
    -- closes or destroys them, also one kind over the other), the streams that hold a descriptor and the
    -- calls of `::close` for it are together never more than at the start, and the streams that were made
    -- of it and the times that such a call failed since.
    pub stream_total :
        (as' : List (Step (BaseStream P) Call)) (st : List (BaseStream P) × (K × M))
        → let st' = steps stream_class as' st in
          total held (close_calls C p) st' + refused C p st.1
          ≤ total held (close_calls C p) st + creations held as' + refused C p st'.1
    stream_total as' st =
        let st' = steps stream_class as' st in
        omega (
          arith,
          Laws.total-steps stream_class held (released C p) stream-IsOwner as' st,
          total-plus held (released C p) (refused C p) st,
          total-plus held (released C p) (refused C p) st',
        )
