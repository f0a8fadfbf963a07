-- ===== src/Utils/Delay.antt =====
-- `delay` of kkp/kkp-core/include/kkp/utils.hpp: milliseconds as a `__kernel_timespec`.
pub mod Await
use kk_proxy.Common.{
  ℕ, suc, ◌+◌, ◌*◌, ◌/◌, ◌%◌, ◌<◌, ◌≡◌, refl, ◌↔◌, Bool, true, false, ◌&&◌, arith, ℤ, pos, negsuc,
  negate, pos_part, neg_part, is_negative, ltb, lt→ltb, not, zero,
}

-- `/` and `%` of C on a `long`: towards zero, with the sign of the left operand.
abbrev pub c_div : ℤ → ℕ → ℤ
c_div (pos n) d = pos (n / d)
c_div (negsuc n) d = negate (pos (suc n / d))

abbrev pub c_mod : ℤ → ℕ → ℤ
c_mod (pos n) d = pos (n % d)
c_mod (negsuc n) d = negate (pos (suc n % d))

-- times a constant
abbrev pub scale : ℤ → ℕ → ℤ
scale (pos n) d = pos (n * d)
scale (negsuc n) d = negate (pos (suc n * d))

pub record Timespec : Type 0 where
  pub tv_sec : ℤ
  pub tv_nsec : ℤ

unfoldable pub delay_timespec : ℤ → Timespec
delay_timespec mills = record {
  tv_sec = c_div mills 1000;
  tv_nsec = scale (c_mod mills 1000) 1000000;
}

-- Neither part is negative; the kernel refuses a timeout with a negative part.
abbrev pub is_valid : Timespec → Bool
is_valid t = not (is_negative t.tv_sec) && not (is_negative t.tv_nsec)

-- the parts of `negate (pos n)`
negate_parts : (n : ℕ) → (pos_part (negate (pos n)) ≡ 0) × (neg_part (negate (pos n)) ≡ n)
negate_parts n = ground arith

is_negative-negate : (n : ℕ) → is_negative (negate (pos n)) ≡ ltb 0 n
is_negative-negate n = ground arith

scale-negate : (n d : ℕ) → 0 < d → scale (negate (pos n)) d ≡ negate (pos (n * d))
scale-negate zero d h = let none : 0 * d ≡ 0 = omega arith in rw none refl
scale-negate (suc n) d h = refl

not_valid :
    (sec nsec : ℕ)
    → 0 < sec + nsec
    → is_valid (record { tv_sec = negate (pos sec); tv_nsec = negate (pos nsec) }) ≡ false
not_valid sec nsec h = ground (arith, is_negative-negate sec, is_negative-negate nsec)

-- The timespec of a delay is worth as many milliseconds as were asked for, of either sign: the seconds
-- and the nanoseconds have no other sign than the delay, and no part of a millisecond is lost. It is
-- one without a negative part exactly when the delay is not negative, and its nanoseconds are less than
-- a second.
pub delay_timespec_lem :
    (mills : ℤ)
    → let t = delay_timespec mills in
      (pos_part t.tv_sec * 1000000000 + pos_part t.tv_nsec ≡ pos_part mills * 1000000)
      × (neg_part t.tv_sec * 1000000000 + neg_part t.tv_nsec ≡ neg_part mills * 1000000)
      × ((is_valid t ≡ true) ↔ (is_negative mills ≡ false))
      × (pos_part t.tv_nsec < 1000000000)
unfolding delay_timespec
delay_timespec_lem (pos n) = (omega arith, refl, ((λ h. refl), (λ h. refl)), omega arith)
delay_timespec_lem (negsuc n) =
    let (p, q) = negate_parts (suc n / 1000) in
    let (p', q') = negate_parts (suc n % 1000 * 1000000) in
    rw (scale-negate (suc n % 1000) 1000000 (omega arith)) (
      omega (arith, p, p'),
      omega (arith, q, q'),
      ((λ h. cc (not_valid (suc n / 1000) (suc n % 1000 * 1000000) (omega arith))), (λ h. cc)),
      omega (arith, p'),
    )
