-- ===== src/Coro/Flag/Laws.antt =====
-- What the setters of coro_base.hpp do to each bit of the word.
use Prim.Native.Nat.{bit_and, bit_or}
use kk_proxy.Common.{ℕ, ◌+◌, ◌-◌, ◌*◌, ◌/◌, ◌%◌, ◌^◌, ◌<◌, ◌≡◌, Bool, true, false, arith}
use kk_proxy.Common.Bits.{bit_and_step, bit_or_step, bit_and-zero, bit_or-zero, bit_and-ones}
use kk_proxy.Coro.Flag.{is_daemon, set_daemon, is_sub_job, set_sub_job}

bit_and-one : (a : ℕ) → bit_and a 1 ≡ a % 2
bit_and-one a = omega (arith, bit_and_step a 1, bit_and-zero (a / 2))

bit_and-two : (a : ℕ) → bit_and a 2 ≡ a / 2 % 2 * 2
bit_and-two a = omega (arith, bit_and_step a 2, bit_and-one (a / 2))

bit_or-one : (a : ℕ) → bit_or a 1 ≡ a / 2 * 2 + 1
bit_or-one a = omega (arith, bit_or_step a 1, bit_or-zero (a / 2))

bit_or-two : (a : ℕ) → bit_or a 2 ≡ a / 2 / 2 * 4 + 2 + a % 2
bit_or-two a = omega (arith, bit_or_step a 2, bit_or-one (a / 2))

bit_and_clear : (a : ℕ) → a < 2 ^ 64 → bit_and a (2 ^ 64 - 1 - 1) ≡ a / 2 * 2
bit_and_clear a h =
    omega (arith, bit_and_step a (2 ^ 64 - 1 - 1), bit_and-ones 63 (a / 2) (omega arith))

ruleset masks = (arith, bit_and-one, bit_and-two, bit_or-one, bit_or-two, bit_and_clear)

-- `set_daemon` makes `is_daemon` answer its argument, keeps the other 63 bits of the word, and
-- with them `is_sub_job`, for every word of 64 bits.
pub set_daemon_lem :
    (flag : ℕ) (value : Bool)
    → flag < 2 ^ 64
    → (is_daemon (set_daemon flag value) ≡ value)
      × (set_daemon flag value / 2 ≡ flag / 2)
      × (is_sub_job (set_daemon flag value) ≡ is_sub_job flag)
      × (set_daemon flag value < 2 ^ 64)
unfolding is_daemon set_daemon is_sub_job
set_daemon_lem flag true h = grind masks
set_daemon_lem flag false h = grind masks

-- `set_sub_job flag true` sets bit 1 and keeps bit 0 and the bits above.
set_sub_job-true :
    (flag : ℕ)
    → flag < 2 ^ 64
    → (is_sub_job (set_sub_job flag true) ≡ true)
      × (is_daemon (set_sub_job flag true) ≡ is_daemon flag)
      × (set_sub_job flag true / 4 ≡ flag / 4)
      × (set_sub_job flag true < 2 ^ 64)
unfolding is_daemon set_sub_job is_sub_job
set_sub_job-true flag h = grind masks

-- `set_sub_job flag false` never clears bit 1: the flag reads as before. It clears all other bits
-- instead, so that a daemon task is no daemon afterwards.
set_sub_job-false :
    (flag : ℕ)
    → (is_sub_job (set_sub_job flag false) ≡ is_sub_job flag)
      × (is_daemon (set_sub_job flag false) ≡ false)
      × (set_sub_job flag false / 4 ≡ 0)
unfolding is_daemon set_sub_job is_sub_job
set_sub_job-false flag = grind masks

-- For every word of 64 bits. `set_daemon` makes `is_daemon` answer its argument and keeps the other 63
-- bits, and with them `is_sub_job`. `set_sub_job flag true` sets bit 1 and keeps bit 0 and the bits
-- above. `set_sub_job flag false` does not clear bit 1, the flag reads as before; it clears all other
-- bits instead, so that a daemon task is no daemon afterwards.
pub flag_setters :
    (flag : ℕ) (value : Bool)
    → flag < 2 ^ 64
    → ((is_daemon (set_daemon flag value) ≡ value)
        × (set_daemon flag value / 2 ≡ flag / 2)
        × (is_sub_job (set_daemon flag value) ≡ is_sub_job flag))
      × ((is_sub_job (set_sub_job flag true) ≡ true)
          × (is_daemon (set_sub_job flag true) ≡ is_daemon flag)
          × (set_sub_job flag true / 4 ≡ flag / 4))
      × ((is_sub_job (set_sub_job flag false) ≡ is_sub_job flag)
          × (is_daemon (set_sub_job flag false) ≡ false)
          × (set_sub_job flag false / 4 ≡ 0))
flag_setters flag value h =
    let (answers, others, sub_job, d) = set_daemon_lem flag value h in
    let (sets, keeps, above, s) = set_sub_job-true flag h in
    ((answers, others, sub_job), (sets, keeps, above), set_sub_job-false flag)
