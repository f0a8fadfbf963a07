-- ===== src/Http/Headers/Ranges.antt =====
-- `equal_range` of a sorted map: where the entries of a key stand.
use kk_proxy.Common.{
  ℕ, ◌≡◌, refl, ap, ◌∙◌, inl, inr, true, false, List, [], ◌∷◌, ◌++◌, arith, Bool-cases,
}
use kk_proxy.Http.Headers.{HeaderMap, split_lower, split_upper, equal_range, EqualRange}
use kk_proxy.Http.Headers.Order.{less, less_trans, less_total}

-- A predicate of every key.
abbrev pub Keys : (List ℕ → Type 0) → HeaderMap → Type 0
Keys P [] = Unit
Keys P ((k, v) ∷ m) = P k × Keys P m

-- No key is less than one before it.
abbrev pub IsSorted : HeaderMap → Type 0
IsSorted [] = Unit
IsSorted ((k, v) ∷ m) = Keys (λ j. less j k ≡ false) m × IsSorted m

pub Keys-append : (P : List ℕ → Type 0) (m n : HeaderMap) → Keys P m → Keys P n → Keys P (m ++ n)
Keys-append P [] n p q = q
Keys-append P ((k, v) ∷ m) n p q = (p.0, Keys-append P m n p.1 q)

pub Keys-map :
    (P Q : List ℕ → Type 0) (m : HeaderMap) → ((k : List ℕ) → P k → Q k) → Keys P m → Keys Q m
Keys-map P Q [] f p = tt
Keys-map P Q ((k, v) ∷ m) f p = (f k p.0, Keys-map P Q m f p.1)

-- less k name, name ≤ j give k < j; and so on
pub less_le_trans : (a b c : List ℕ) → less a b ≡ true → less c b ≡ false → less a c ≡ true
less_le_trans a b c p q = elim (Bool-cases (less a c)) [
  | inl h ↦ h
  | inr h ↦ elim (Bool-cases (less b c)) [
    | inl g ↦ less_trans a b c p g
    | inr g ↦ rw (← less_total b c g q) p
  ]
]

pub split_lower_append :
    (name : List ℕ) (m : HeaderMap) → (split_lower name m).0 ++ (split_lower name m).1 ≡ m
unfolding split_lower
split_lower_append name [] = refl
split_lower_append name ((k, v) ∷ m) = ground (arith, split_lower_append name m)

pub split_upper_append :
    (name : List ℕ) (m : HeaderMap) → (split_upper name m).0 ++ (split_upper name m).1 ≡ m
unfolding split_upper
split_upper_append name [] = refl
split_upper_append name ((k, v) ∷ m) = ground (arith, split_upper_append name m)

pub split_lower_before :
    (name : List ℕ) (m : HeaderMap) → Keys (λ k. less k name ≡ true) (split_lower name m).0
unfolding split_lower
split_lower_before name [] = tt
split_lower_before name ((k, v) ∷ m) = ground (arith, split_lower_before name m)

pub split_upper_before :
    (name : List ℕ) (m : HeaderMap) → Keys (λ k. less name k ≡ false) (split_upper name m).0
unfolding split_upper
split_upper_before name [] = tt
split_upper_before name ((k, v) ∷ m) = ground (arith, split_upper_before name m)

not_below : (name k j : List ℕ) → less k name ≡ false → less j k ≡ false → less j name ≡ false
not_below name k j p q = elim (Bool-cases (less j name)) [
  | inr h ↦ h
  | inl h ↦ ground (arith, less_le_trans j name k h p)
]

pub split_lower_after :
    (name : List ℕ) (m : HeaderMap)
    → IsSorted m
    → Keys (λ k. less k name ≡ false) (split_lower name m).1 × IsSorted (split_lower name m).1
unfolding split_lower
split_lower_after name [] s = (tt, tt)
split_lower_after name ((k, v) ∷ m) s = elim (Bool-cases (less k name)) [
  | inl h ↦ rw h (split_lower_after name m s.1)
  | inr h ↦ rw h (
    (
      h,
      Keys-map (λ j. less j k ≡ false) (λ j. less j name ≡ false) m (λ j q. not_below name k j h q)
          s.0,
    ),
    s,
  )
]

pub split_upper_after :
    (name : List ℕ) (m : HeaderMap)
    → IsSorted m
    → Keys (λ k. less name k ≡ true) (split_upper name m).1
unfolding split_upper
split_upper_after name [] s = tt
split_upper_after name ((k, v) ∷ m) s = elim (Bool-cases (less name k)) [
  | inl h ↦ rw h (
    h,
    Keys-map (λ j. less j k ≡ false) (λ j. less name j ≡ true) m (λ j q. less_le_trans name k j h q)
        s.0,
  )
  | inr h ↦ rw h (split_upper_after name m s.1)
]

Keys-front : (P : List ℕ → Type 0) (m n : HeaderMap) → Keys P (m ++ n) → Keys P m
Keys-front P [] n p = tt
Keys-front P ((k, v) ∷ m) n p = (p.0, Keys-front P m n p.1)

Keys-both :
    (P Q S : List ℕ → Type 0) (m : HeaderMap)
    → ((k : List ℕ) → P k → Q k → S k)
    → Keys P m
    → Keys Q m
    → Keys S m
Keys-both P Q S [] f p q = tt
Keys-both P Q S ((k, v) ∷ m) f p q = (f k p.0 q.0, Keys-both P Q S m f p.1 q.1)

-- The range is cut out of the map, and holds the entries of the key, and no others.
pub record IsRange (name : List ℕ) (m : HeaderMap) (r : EqualRange) : Type 0 where
  pub whole : r.before ++ (r.range ++ r.after) ≡ m
  pub below : Keys (λ k. less k name ≡ true) r.before
  pub equal : Keys (λ k. k ≡ name) r.range
  pub above : Keys (λ k. less name k ≡ true) r.after

pub equal_range-IsRange :
    (name : List ℕ) (m : HeaderMap) → IsSorted m → IsRange name m (equal_range name m)
unfolding equal_range
equal_range-IsRange name m s =
    let lower = split_lower name m in
    let upper = split_upper name lower.1 in
    let (atleast, sorted) = split_lower_after name m s in
    let whole = split_upper_append name lower.1 in
    record {
      whole = ap (◌++◌ lower.0) whole ∙ split_lower_append name m;
      below = split_lower_before name m;
      equal =
          Keys-both (λ k. less name k ≡ false) (λ k. less k name ≡ false) (λ k. k ≡ name) upper.0
            (λ k p q. less_total k name q p) (split_upper_before name lower.1)
            (Keys-front (λ k. less k name ≡ false) upper.0 upper.1 (rw whole atleast));
      above = split_upper_after name lower.1 sorted;
    }
