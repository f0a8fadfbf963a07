-- ===== src/Objects/Laws.antt =====
-- What a class that never makes a second owner gives for whole programs.
use kk_proxy.Common.{
  ℕ, zero, suc, ◌+◌, ◌≤◌, ◌≡◌, ◌∙◌, inl, inr, some, List, [], ◌∷◌, ◌++◌, arith, ◌==◌, Bool-cases,
  Option-cases, get_elem?, set, get_elem?-set_ne,
}
use kk_proxy.Objects.{
  Class, IsOwner, Step, created, moved, assigned, called, move_at, assign_at, call_at, step, steps,
  holders, creations,
}

module _ {A : Type 0} (held : A → ℕ) where
  pub holders-append :
      (xs : List A) (y : A) → holders held (xs ++ (y ∷ [])) ≡ holders held xs + held y
  holders-append [] y = omega arith
  holders-append (x ∷ xs) y = omega (arith, holders-append xs y)

  pub holders-set :
      (xs : List A) (i : ℕ) (x y : A)
      → get_elem? xs i ≡ some x
      → holders held (set xs i y) + held x ≡ holders held xs + held y
  holders-set [] i x y h = cc
  holders-set (z ∷ xs) zero x y h = ground arith
  holders-set (z ∷ xs) (suc i) x y h = omega (arith, holders-set xs i x y h)

  creations-cons :
      {X : Type 0} (a : Step A X) (as' : List (Step A X))
      → creations held (a ∷ as') ≡ creations held (a ∷ []) + creations held as'
  creations-cons (created a) as' = omega arith
  creations-cons (moved i) as' = omega arith
  creations-cons (assigned i j) as' = omega arith
  creations-cons (called x i) as' = omega arith

-- the objects that hold the resource, and how often it was given back
abbrev pub total : {A K : Type 0} → (A → ℕ) → (K → ℕ) → List A × K → ℕ
total held released (xs, k) = holders held xs + released k

-- The two parts of what was given back.
pub total-plus :
    {A K : Type 0} (held : A → ℕ) (f g : K → ℕ) (st : List A × K)
    → total held (λ k. f k + g k) st ≡ total held f st + g st.1
total-plus held f g (xs, k) = omega arith

module _ {A K X : Type 0} (C : Class A K X) (held : A → ℕ) (released : K → ℕ)
    (L : IsOwner C held released) where
  module _ (xs : List A) (k : K) where
    total-move_at :
        (i : ℕ)
        → total held released (move_at C i (get_elem? xs i) (xs, k)) ≤ total held released (xs, k)
    total-move_at i = elim (Option-cases (get_elem? xs i)) [
      | inl e ↦ rw (e) (omega arith)
      | inr (a, e) ↦
          let (new, left) = C.move a in
          rw (e) (
            omega (
              arith,
              L.move_owner a,
              holders-append held (set xs i left) new,
              holders-set held xs i a left e,
            ))
    ]

    total-call_at :
        (x : X) (i : ℕ)
        → total held released (call_at C x i (get_elem? xs i) (xs, k)) ≤ total held released (xs, k)
    total-call_at x i = elim (Option-cases (get_elem? xs i)) [
      | inl e ↦ rw (e) (omega arith)
      | inr (a, e) ↦
          rw (e) (omega (arith, L.call_owner x a k, holders-set held xs i a (C.call x a k).0 e))
    ]

    total-assign_at :
        (i j : ℕ)
        → total held released (assign_at C i j (get_elem? xs i) (get_elem? xs j) (xs, k))
          ≤ total held released (xs, k)
    total-assign_at i j = elim (Option-cases (get_elem? xs i)) [
      | inl e ↦ rw (e) (omega arith)
      | inr (a, e) ↦ rw (e) (elim (Option-cases (get_elem? xs j)) [
        | inl f ↦ rw (f) (omega arith)
        | inr (b, f) ↦ rw (f) (elim (Bool-cases (i == j)) [
          | inl same ↦ rw (same) (omega arith)
          | inr apart ↦
              let (new, left, k') = C.assign a b k in
              let f' : get_elem? (set xs i new) j ≡ some b =
                get_elem?-set_ne xs new (λ q. ground (arith)) ∙ f in
              rw (apart) (
                omega (
                  arith,
                  L.assign_owner a b k,
                  holders-set held xs i a new e,
                  holders-set held (set xs i new) j b left f',
                ))
        ])
      ])
    ]

    total-step :
        (a : Step A X)
        → total held released (step C a (xs, k))
          ≤ total held released (xs, k) + creations held (a ∷ [])
    unfolding step
    total-step (created a) = omega (arith, holders-append held xs a)
    total-step (moved i) = omega (arith, total-move_at i)
    total-step (assigned i j) = omega (arith, total-assign_at i j)
    total-step (called x i) = omega (arith, total-call_at x i)

  -- No sequence of steps makes a second owner, or gives the resource back twice.
  pub total-steps :
      (as' : List (Step A X)) (st : List A × K)
      → total held released (steps C as' st) ≤ total held released st + creations held as'
  unfolding steps
  total-steps [] st = omega arith
  total-steps (a ∷ as') (xs, k) =
      omega
        (arith, total-steps as' (step C a (xs, k)), total-step xs k a, creations-cons held a as')
