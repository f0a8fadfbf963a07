-- ===== src/OverUring/Bounds.antt =====
-- What the operations of a socket and of a file ask the kernel to read or write: which bytes of memory.
use kk_proxy.Common.{ℕ, ◌+◌, ◌%◌, ◌^◌, ◌≤◌, ◌<◌, ◌≡◌, ◌↔◌, arith, ℤ, pos, negsuc, to_int}
use kk_proxy.Uring.Request.{Request, prep_read, prep_recv, prep_send, prep_write, Span, to_unsigned}
use kk_proxy.Uring.Awaiter.Kinds
use kk_proxy.Net.Socket.{Socket}
use kk_proxy.Net.Socket.Io
use kk_proxy.Fs.File.{File}
use kk_proxy.Fs.File.Io as FileIo

-- The bytes of a request lie in the span.
abbrev pub IsWithin : Span → Request → Type 0
IsWithin b (prep_read fd buf nbytes offset) =
    (b.data_ptr ≤ buf) × (buf + nbytes ≤ b.data_ptr + b.size)
IsWithin b (prep_recv fd buf len flags) = (b.data_ptr ≤ buf) × (buf + len ≤ b.data_ptr + b.size)
IsWithin b (prep_send fd buf len flags) = (b.data_ptr ≤ buf) × (buf + len ≤ b.data_ptr + b.size)
IsWithin b (prep_write fd buf nbytes offset) =
    (b.data_ptr ≤ buf) × (buf + nbytes ≤ b.data_ptr + b.size)
IsWithin b _ = ⊥

-- A value of a 32-bit `int`.
abbrev pub IsInt : ℤ → Type 0
IsInt (pos n) = n < 2 ^ 31
IsInt (negsuc n) = n < 2 ^ 31

-- A length from 0 up to the size.
abbrev pub IsLength : ℤ → ℕ → Type 0
IsLength (pos n) size = n ≤ size
IsLength (negsuc n) size = ⊥

-- A size that goes through an `int` to an `unsigned` is what is left of it in 32 bits.
pub to_unsigned-to_int : (n : ℕ) → to_unsigned 32 (to_int n) ≡ n % 2 ^ 32
unfolding to_unsigned to_int
to_unsigned-to_int n = ground arith

pub mod_le : (n : ℕ) → n % 2 ^ 32 ≤ n
mod_le n = omega arith

to_unsigned-IsLength :
    (len : ℤ) (size : ℕ)
    → IsInt len
    → size < 2 ^ 31
    → (to_unsigned 32 len ≤ size) ↔ IsLength len size
unfolding to_unsigned
to_unsigned-IsLength (pos n) size i small = ((λ h. omega arith), (λ h. omega arith))
to_unsigned-IsLength (negsuc n) size i small = ((λ h. omega arith), (λ h. elim h [ ]))

le-within : (start n size : ℕ) → (n ≤ size) ↔ ((start ≤ start) × (start + n ≤ start + size))
le-within start n size = ((λ h. (omega arith, omega arith)), (λ (p, q). omega arith))

module _ (Sqe : Type 0) {P : Type 0} (b : Span) (s : Socket P) (f : File) where
  -- For a buffer of less than 2^31 bytes and a `len` of the type `int`: `send` and `recv` of a socket and
  -- `read(buf)` of a file ask for bytes of the buffer only, while `read(buf, len)` and `write(buf, len)`
  -- do so exactly when `len` is not negative and not above the size: they do not look at the size.
  pub io-IsWithin :
      (flag len off : ℤ)
      → b.size < 2 ^ 31
      → IsInt len
      → IsWithin b (Io.send {Sqe = Sqe} b flag s).request
        × IsWithin b (Io.recv {Sqe = Sqe} b flag s).request
        × IsWithin b (FileIo.read_all {Sqe = Sqe} b f).request
        × (IsWithin b (FileIo.read {Sqe = Sqe} b len off f).request ↔ IsLength len b.size)
        × (IsWithin b (FileIo.write {Sqe = Sqe} b len off f).request ↔ IsLength len b.size)
  unfolding Io.send Io.recv FileIo.read_all FileIo.read FileIo.write Kinds.send Kinds.recv
      Kinds.read Kinds.write
  io-IsWithin flag len off small i = (
    (omega arith, omega arith),
    (omega arith, omega arith),
    (omega arith, omega (arith, to_unsigned-to_int b.size)),
    iff,
    iff,
  )
    where
      iff :
          ((b.data_ptr ≤ b.data_ptr) × (b.data_ptr + to_unsigned 32 len ≤ b.data_ptr + b.size))
          ↔ IsLength len b.size
      iff =
          let (p, q) = to_unsigned-IsLength len b.size i small in
          ((λ (x, y). p (omega (arith, y))), (λ l. (omega arith, omega (arith, q l))))
