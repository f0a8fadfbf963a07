-- ===== src/Uring/Kernel.antt =====
-- A `co_await` with the kernel behind the ring. The kernel is a parameter: it takes a submitted
-- entry, reads and writes the memory of the program, and gives the result of the completion.
use kk_proxy.Common.{
  ℕ, zero, suc, ◌+◌, ◌≤◌, ◌<◌, ◌≡◌, ◌⊎◌, List, [], ◌∷◌, ◌++◌, ℤ, pos_part, take, if◌then◌else◌,
}
use kk_proxy.Uring.Request.{Request, prep_read, prep_recv, prep_send, prep_write}
use kk_proxy.Uring.Awaiter.{Ring, base_uring_awaiter, await_ready, await_suspend}
use kk_proxy.Uring.Awaiter.Kinds.{Awaiter}

-- A byte for each address.
abbrev pub Memory : Type 0
Memory = ℕ → ℕ

-- the `n` bytes from an address on
abbrev pub bytes : Memory → ℕ → ℕ → List ℕ
bytes m buf zero = []
bytes m buf (suc n) = m buf ∷ bytes m (suc buf) n

-- An address that is not one of the `n` from `buf` on.
abbrev pub IsOutside : (buf n a : ℕ) → Type 0
IsOutside buf n a = (a < buf) ⊎ (buf + n ≤ a)

pub record Kernel (K : Type 0) : Type 0 where
  pub perform : Request → Memory → K → ℤ × Memory × K

-- recv(2), send(2), read(2) and write(2): a positive result counts bytes, and is not above the length.
-- `recv` and `read` write to no other memory than the buffer, and `send` and `write` write to none.
-- `send` sends as many bytes of the buffer, from its front, as it returns, and `recv` sends nothing.
-- `sent` is all that was sent so far on a descriptor.
pub record IsDocumented {K : Type 0} (N : Kernel K) : Type 0 where
  pub sent : ℤ → K → List ℕ
  pub send-count :
      (fd : ℤ) (buf len : ℕ) (flags : ℤ) (m : Memory) (k : K)
      → pos_part (N.perform (prep_send fd buf len flags) m k).0 ≤ len
  pub send-memory :
      (fd : ℤ) (buf len : ℕ) (flags : ℤ) (m : Memory) (k : K) (a : ℕ)
      → (N.perform (prep_send fd buf len flags) m k).1 a ≡ m a
  pub sent-send :
      (fd : ℤ) (buf len : ℕ) (flags : ℤ) (m : Memory) (k : K)
      → let (r, m', k') = N.perform (prep_send fd buf len flags) m k in
        sent fd k' ≡ sent fd k ++ take (pos_part r) (bytes m buf len)
  pub recv-count :
      (fd : ℤ) (buf len : ℕ) (flags : ℤ) (m : Memory) (k : K)
      → pos_part (N.perform (prep_recv fd buf len flags) m k).0 ≤ len
  pub recv-memory :
      (fd : ℤ) (buf len : ℕ) (flags : ℤ) (m : Memory) (k : K) (a : ℕ)
      → IsOutside buf len a
      → (N.perform (prep_recv fd buf len flags) m k).1 a ≡ m a
  pub sent-recv :
      (fd : ℤ) (buf len : ℕ) (flags : ℤ) (m : Memory) (k : K)
      → sent fd (N.perform (prep_recv fd buf len flags) m k).2 ≡ sent fd k
  pub read-count :
      (fd : ℤ) (buf nbytes offset : ℕ) (m : Memory) (k : K)
      → pos_part (N.perform (prep_read fd buf nbytes offset) m k).0 ≤ nbytes
  pub read-memory :
      (fd : ℤ) (buf nbytes offset : ℕ) (m : Memory) (k : K) (a : ℕ)
      → IsOutside buf nbytes a
      → (N.perform (prep_read fd buf nbytes offset) m k).1 a ≡ m a
  pub write-count :
      (fd : ℤ) (buf nbytes offset : ℕ) (m : Memory) (k : K)
      → pos_part (N.perform (prep_write fd buf nbytes offset) m k).0 ≤ nbytes
  pub write-memory :
      (fd : ℤ) (buf nbytes offset : ℕ) (m : Memory) (k : K) (a : ℕ)
      → (N.perform (prep_write fd buf nbytes offset) m k).1 a ≡ m a

-- The ring, the memory and the kernel.
pub record World (R K : Type 0) : Type 0 where
  pub ring : R
  pub memory : Memory
  pub kernel : K

-- The coroutine `h` awaits: when there is no entry the awaiter is ready at once and the kernel sees
-- nothing of it.
unfoldable pub co_await :
    {Sqe R K T : Type 0} → Ring Sqe R → Kernel K → ℕ → Awaiter Sqe T → World R K → T × World R K
unfolding base_uring_awaiter await_suspend
co_await L N h w s =
    let (a, ring) = base_uring_awaiter L w.request s.ring in
    if await_ready a
    then (w.await_resume a, record s { ring = ring })
    else (let (b, ring') = await_suspend L h a ring in
        let (r, m, k) = N.perform w.request s.memory s.kernel in
        (w.await_resume (record b { result = r }), record { ring = ring'; memory = m; kernel = k }))
