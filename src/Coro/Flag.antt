-- ===== src/Coro/Flag.antt =====
-- The flag word of a task promise: `namespace flag` of kkp/kkp-core/include/kkp/coro/coro_base.hpp.
-- A word is a number below 2^64; `~daemon` is an `int`, widened to 64 bits by its sign.
pub mod Laws
use Prim.Native.Nat.{bit_and, bit_or}
use kk_proxy.Common.{ℕ, ◌-◌, ◌^◌, Bool, not, ◌==◌, if◌then◌else◌}

-- 1 << 0
abbrev pub daemon : ℕ
daemon = 1

-- 1 << 1
abbrev pub sub_job : ℕ
sub_job = 2

unfoldable pub is_daemon : ℕ → Bool
is_daemon flag = not (bit_and flag daemon == 0)

unfoldable pub set_daemon : ℕ → Bool → ℕ
set_daemon flag value = if value then bit_or flag daemon else bit_and flag (2 ^ 64 - 1 - daemon)

pub is_sub_job : ℕ → Bool
is_sub_job flag = not (bit_and flag sub_job == 0)

-- The second branch has no `~` in the source.
pub set_sub_job : ℕ → Bool → ℕ
set_sub_job flag value = if value then bit_or flag sub_job else bit_and flag sub_job
