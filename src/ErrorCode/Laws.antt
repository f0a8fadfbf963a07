-- ===== src/ErrorCode/Laws.antt =====
-- The texts of error codes, and which category a code goes to.
use kk_proxy.Common.{
  ℕ, zero, suc, ◌+◌, ◌-◌, ◌*◌, ◌/◌, ◌%◌, ◌≤◌, ◌<◌, ◌≡◌, refl, sym, ap, ◌∙◌, ◌⊎◌, inl, inr, List, [],
  ◌∷◌, ◌++◌, arith, ℤ, pos, negsuc, eq_ℤ, eq_ℤ→eq, ltb, Bool-cases, drop, get_or,
}
use kk_proxy.ErrorCode.{
  digits_below, decimal, bytes, unknown_prefix, message, message_in, e_task_finish, e_task_cancel,
}

abbrev rest_of : List ℕ → List ℕ
rest_of = drop 1

abbrev byte_at : ℕ → List ℕ → ℕ
byte_at i bytes = get_or bytes i 0

abbrev negative : ℕ → ℤ
negative zero = pos 0
negative (suc n) = negsuc n

-- The number that decimal digits stand for, behind those that were read.
value_of : ℕ → List ℕ → ℕ
value_of acc [] = acc
value_of acc (c ∷ cs) = value_of (acc * 10 + (c - b'0')) cs

-- What `digits_below` puts in front of `acc` continues any number read before it.
digits_below_value :
    (fuel n : ℕ) (acc : List ℕ) → n < fuel → value_of 0 (digits_below fuel n acc) ≡ value_of n acc
unfolding value_of digits_below
digits_below_value zero n acc h = absurd (omega arith)
digits_below_value (suc fuel) n acc h = elim (Bool-cases (ltb n 10)) [
  | inl one ↦ rw (one, digits_below) (ap (λ k. value_of k acc) (ground arith))
  | inr more ↦
      rw (more, digits_below)
        (digits_below_value fuel (n / 10) ((b'0' + n % 10) ∷ acc) (ground arith)
          ∙ ap (λ k. value_of k acc) (omega arith))
]

-- The first digit is one, and no minus sign.
digits_below_head :
    (fuel n : ℕ) (acc : List ℕ)
    → n < fuel
    → (d : ℕ) × (ds : List ℕ) × (digits_below fuel n acc ≡ d ∷ ds) × (b'0' ≤ d)
unfolding digits_below
digits_below_head zero n acc h = absurd (omega arith)
digits_below_head (suc fuel) n acc h = elim (Bool-cases (ltb n 10)) [
  | inl one ↦ rw (one, digits_below) (b'0' + n % 10, acc, refl, omega arith)
  | inr more ↦
      rw (more, digits_below)
        (digits_below_head fuel (n / 10) ((b'0' + n % 10) ∷ acc) (ground arith))
]

decimal_injective : (a b : ℤ) → decimal a ≡ decimal b → a ≡ b
unfolding decimal value_of
decimal_injective (pos m) (pos n) h = ap pos (
    sym (digits_below_value (suc m) m [] (omega arith))
    ∙ ap (value_of 0) h
    ∙ digits_below_value (suc n) n [] (omega arith))
decimal_injective (negsuc m) (negsuc n) h = ap negative (
    sym (digits_below_value (suc (suc m)) (suc m) [] (omega arith))
    ∙ ap (λ ds. value_of 0 (rest_of ds)) h
    ∙ digits_below_value (suc (suc n)) (suc n) [] (omega arith))
decimal_injective (pos m) (negsuc n) h =
    let (d, ds, e, p) = digits_below_head (suc m) m [] (omega arith) in
    absurd (omega (arith, ap (byte_at 0) (sym e ∙ h)))
decimal_injective (negsuc m) (pos n) h =
    let (d, ds, e, p) = digits_below_head (suc n) n [] (omega arith) in
    absurd (omega (arith, ap (byte_at 0) (h ∙ e)))

message_cases :
    (ev : ℤ)
    → ((ev ≡ e_task_finish) × (message ev ≡ bytes "Task finish"))
      ⊎ ((ev ≡ e_task_cancel) × (message ev ≡ bytes "Task cancel"))
      ⊎ (message ev ≡ unknown_prefix ++ decimal ev)
unfolding message
message_cases ev = elim (Bool-cases (eq_ℤ e_task_finish ev)) [
  | inl e ↦ inl (sym (eq_ℤ→eq e_task_finish ev e), rw (e, message_in))
  | inr n ↦ elim (Bool-cases (eq_ℤ e_task_cancel ev)) [
    | inl e ↦ inr (inl (sym (eq_ℤ→eq e_task_cancel ev e), rw (n, message_in) (rw (e, message_in))))
    | inr m ↦ inr (inr (rw (n, message_in) (rw (m, message_in))))
  ]
]

unknown_prefix_cancel :
    (a b : ℤ) → unknown_prefix ++ decimal a ≡ unknown_prefix ++ decimal b → a ≡ b
unknown_prefix_cancel a b h = decimal_injective a b (ap (drop 20) h)

-- Two different error codes never print the same message, known or unknown, of either sign.
pub message_injective : (a b : ℤ) → message a ≡ message b → a ≡ b
message_injective a b h = elim (message_cases a) [
  | inl (e, p) ↦ elim (message_cases b) [
    | inl (f, q) ↦ e ∙ sym f
    | inr (inl (f, q)) ↦ absurd (omega (arith, ap (byte_at 5) (sym p ∙ h ∙ q)))
    | inr (inr q) ↦ absurd (omega (arith, ap (byte_at 0) (sym p ∙ h ∙ q)))
  ]
  | inr (inl (e, p)) ↦ elim (message_cases b) [
    | inl (f, q) ↦ absurd (omega (arith, ap (byte_at 5) (sym p ∙ h ∙ q)))
    | inr (inl (f, q)) ↦ e ∙ sym f
    | inr (inr q) ↦ absurd (omega (arith, ap (byte_at 0) (sym p ∙ h ∙ q)))
  ]
  | inr (inr p) ↦ elim (message_cases b) [
    | inl (f, q) ↦ absurd (omega (arith, ap (byte_at 0) (sym p ∙ h ∙ q)))
    | inr (inl (f, q)) ↦ absurd (omega (arith, ap (byte_at 0) (sym p ∙ h ∙ q)))
    | inr (inr q) ↦ unknown_prefix_cancel a b (sym p ∙ h ∙ q)
  ]
]
