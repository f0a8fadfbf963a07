-- ===== src/Uring/Request.antt =====
-- The calls of liburing with which the awaiters of kkp/kkp-core/include/kkp/uring/awaiter/ prepare
-- their entries, with the arguments that they get, and the conversions of C on the way to them.
use kk_proxy.Common.{ℕ, suc, ◌-◌, ◌%◌, ◌^◌, ℤ, pos, negsuc}

-- Addresses are numbers. `unsigned` has 32 bits and `__u64` has 64.
pub data Request : Type 0 where
  prep_accept : (fd : ℤ) (addr addrlen : ℕ) (flags : ℤ) → Request
  prep_connect : (fd : ℤ) (addr addrlen : ℕ) → Request
  prep_link_timeout : (ts flags : ℕ) → Request
  prep_read : (fd : ℤ) (buf nbytes offset : ℕ) → Request
  prep_recv : (fd : ℤ) (buf len : ℕ) (flags : ℤ) → Request
  prep_send : (fd : ℤ) (buf len : ℕ) (flags : ℤ) → Request
  prep_timeout : (ts count flags : ℕ) → Request
  prep_write : (fd : ℤ) (buf nbytes offset : ℕ) → Request

-- The conversion of an `int` to an unsigned type of `w` bits.
unfoldable pub to_unsigned : (w : ℕ) → ℤ → ℕ
to_unsigned w (pos n) = n % 2 ^ w
to_unsigned w (negsuc n) = (2 ^ w - suc n % 2 ^ w) % 2 ^ w

-- `std::span<uint8_t>`
pub record Span : Type 0 where
  pub data_ptr : ℕ
  pub size : ℕ
