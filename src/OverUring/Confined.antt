-- ===== src/OverUring/Confined.antt =====
-- What a whole `co_await` of an operation of a socket or of a file does to the memory of the program.
use kk_proxy.Common.{
  ℕ, ◌+◌, ◌≤◌, ◌≡◌, refl, ◌⊎◌, inl, inr, none, some, arith, ℤ, pos, negsuc, pos_part, Option-cases,
}
use kk_proxy.ErrorCode.{Result, ok, unexpected}
use kk_proxy.Uring.Request.{
  Request, prep_accept, prep_connect, prep_link_timeout, prep_read, prep_recv, prep_send,
  prep_timeout, prep_write, Span, to_unsigned,
}
use kk_proxy.Uring.Awaiter.{
  BaseUringAwaiter, Ring, no_entry, base_uring_awaiter, plain_resume, read_resume,
}
use kk_proxy.Uring.Awaiter.Kinds.{Awaiter}
use kk_proxy.Uring.Awaiter.Kinds
use kk_proxy.Uring.Kernel.{Memory, IsOutside, Kernel, IsDocumented, World, co_await}
use kk_proxy.Net.Socket.{Socket}
use kk_proxy.Net.Socket.Io
use kk_proxy.Fs.File.{File}
use kk_proxy.Fs.File.Io as FileIo
use kk_proxy.OverUring.Bounds.{IsWithin, IsLength, to_unsigned-to_int}

to_unsigned_le : (len : ℤ) (size : ℕ) → IsLength len size → to_unsigned 32 len ≤ size
unfolding to_unsigned
to_unsigned_le (pos n) size h = omega arith
to_unsigned_le (negsuc n) size h = elim h [ ]

-- how many bytes a result counts
abbrev pub value_part : Result ℤ → ℕ
value_part (ok n) = pos_part n
value_part (unexpected e) = 0

module _ {Sqe R K T : Type 0} (L : Ring Sqe R) (N : Kernel K) (h : ℕ) (w : Awaiter Sqe T)
    (s : World R K) where
  -- What the `co_await` gives and leaves, when there is no entry and when there is one.
  abbrev pub not_submitted : T × World R K
  not_submitted = (
    w.await_resume (record { sqe = none; handle = none; result = no_entry }),
    record s { ring = (L.get_sqe s.ring).1 },
  )

  abbrev pub submitted : Sqe → T × World R K
  submitted q =
      let (r, m, k) = N.perform w.request s.memory s.kernel in
      (
        w.await_resume (record { sqe = some q; handle = some h; result = r }),
        record {
          ring = L.submit (L.prepare w.request q (L.set_data q (L.get_sqe s.ring).1));
          memory = m;
          kernel = k;
        },
      )

  pub co_await-cases :
      (co_await L N h w s ≡ not_submitted) ⊎ ((q : Sqe) × (co_await L N h w s ≡ submitted q))
  unfolding co_await base_uring_awaiter
  co_await-cases = elim (Option-cases (L.get_sqe s.ring).0) [
    | inl e ↦ inl (rw (e, base_uring_awaiter, co_await) refl)
    | inr (q, e) ↦ inr (q, rw (e, base_uring_awaiter, co_await) refl)
  ]

-- A result that counts at most the bytes of the buffer, and no change of the memory outside of it.
abbrev pub IsConfined : {R K T : Type 0} → (T → ℕ) → Span → World R K → T × World R K → Type 0
IsConfined count b s (t, s') =
    (count t ≤ b.size) × ((a : ℕ) → IsOutside b.data_ptr b.size a → s'.memory a ≡ s.memory a)

module _ {K : Type 0} (N : Kernel K) (D : IsDocumented N) (b : Span) where
  -- Outside of the buffer is outside of what a request has of it.
  outside :
      (buf n a : ℕ)
      → b.data_ptr ≤ buf
      → buf + n ≤ b.data_ptr + b.size
      → IsOutside b.data_ptr b.size a
      → IsOutside buf n a
  outside buf n a p q (inl x) = inl (omega arith)
  outside buf n a p q (inr x) = inr (omega arith)

  pub perform-IsWithin :
      (f : Request) (m : Memory) (k : K)
      → IsWithin b f
      → (pos_part (N.perform f m k).0 ≤ b.size)
        × ((a : ℕ) → IsOutside b.data_ptr b.size a → (N.perform f m k).1 a ≡ m a)
  perform-IsWithin (prep_read fd buf n off) m k (p, q) = (
    omega (arith, D.read-count fd buf n off m k),
    λ a o. D.read-memory fd buf n off m k a (outside buf n a p q o),
  )
  perform-IsWithin (prep_recv fd buf n flags) m k (p, q) = (
    omega (arith, D.recv-count fd buf n flags m k),
    λ a o. D.recv-memory fd buf n flags m k a (outside buf n a p q o),
  )
  perform-IsWithin (prep_send fd buf n flags) m k (p, q) =
      (omega (arith, D.send-count fd buf n flags m k), λ a o. D.send-memory fd buf n flags m k a)
  perform-IsWithin (prep_write fd buf n off) m k (p, q) =
      (omega (arith, D.write-count fd buf n off m k), λ a o. D.write-memory fd buf n off m k a)
  perform-IsWithin (prep_accept fd addr addrlen flags) m k w = elim w [ ]
  perform-IsWithin (prep_connect fd addr addrlen) m k w = elim w [ ]
  perform-IsWithin (prep_link_timeout ts flags) m k w = elim w [ ]
  perform-IsWithin (prep_timeout ts count flags) m k w = elim w [ ]

module _ {Sqe R K : Type 0} (L : Ring Sqe R) (N : Kernel K) (D : IsDocumented N) (h : ℕ) (b : Span)
    (s : World R K) where
  co_await-IsConfined :
      {T : Type 0} (count : T → ℕ) (w : Awaiter Sqe T)
      → ((a : BaseUringAwaiter Sqe) → count (w.await_resume a) ≤ pos_part a.result)
      → IsWithin b w.request
      → IsConfined count b s (co_await L N h w s)
  co_await-IsConfined count w counts within = elim (co_await-cases L N h w s) [
    | inl e ↦ rw e (
      omega (arith, counts (record { sqe = none; handle = none; result = no_entry })),
      λ a o. refl,
    )
    | inr (q, e) ↦
        let (p, o) = perform-IsWithin N D b w.request s.memory s.kernel within in
        rw e (
          omega (
            arith,
            p,
            counts (record {
              sqe = some q;
              handle = some h;
              result = (N.perform w.request s.memory s.kernel).0;
            }),
          ),
          o,
        )
  ]

value_part-read_resume :
    {Sqe : Type 0} (a : BaseUringAwaiter Sqe) → value_part (read_resume a) ≤ pos_part a.result
unfolding read_resume
value_part-read_resume a = ground arith

module _ {Sqe R K P : Type 0} (L : Ring Sqe R) (N : Kernel K) (D : IsDocumented N) (h : ℕ)
    (b : Span) (s : World R K) where
  -- Whatever the kernel answers, and also with a full submission queue: a whole `co_await` of `send` or
  -- `recv` of a socket, of `read(buf)` of a file with a buffer of any size, or of `read` or `write` with a
  -- length from 0 up to the size gives a result that counts at most the bytes of the buffer, and
  -- leaves all memory outside of the buffer as it was.
  pub io-IsConfined :
      (sock : Socket P) (f : File) (flag len off : ℤ)
      → IsLength len b.size
      → IsConfined pos_part b s (co_await L N h (Io.send b flag sock) s)
        × IsConfined pos_part b s (co_await L N h (Io.recv b flag sock) s)
        × IsConfined value_part b s (co_await L N h (FileIo.read_all b f) s)
        × IsConfined value_part b s (co_await L N h (FileIo.read b len off f) s)
        × IsConfined pos_part b s (co_await L N h (FileIo.write b len off f) s)
  unfolding Io.send Io.recv FileIo.read_all FileIo.read FileIo.write Kinds.send Kinds.recv
      Kinds.read Kinds.write
  io-IsConfined sock f flag len off i = (
    co_await-IsConfined L N D h b s pos_part _ plain (omega arith, omega arith),
    co_await-IsConfined L N D h b s pos_part _ plain (omega arith, omega arith),
    co_await-IsConfined L N D h b s value_part _ value_part-read_resume
        (omega arith, omega (arith, to_unsigned-to_int b.size)),
    co_await-IsConfined L N D h b s value_part _ value_part-read_resume
        (omega arith, omega (arith, to_unsigned_le len b.size i)),
    co_await-IsConfined L N D h b s pos_part _ plain
        (omega arith, omega (arith, to_unsigned_le len b.size i)),
  )
    where
      plain : (a : BaseUringAwaiter Sqe) → pos_part (plain_resume a) ≤ pos_part a.result
      plain a = omega arith
