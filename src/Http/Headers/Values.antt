-- ===== src/Http/Headers/Values.antt =====
-- The map seen as a list of values for each name, and the values behind `emplace` and in a range.
use kk_proxy.Common.{
  ℕ, ◌≡◌, refl, sym, ap, ◌∙◌, inl, inr, Bool, true, false, List, [], ◌∷◌, ◌++◌, map, append-nil,
  arith, Bool-cases, not, ◌&&◌, if◌then◌else◌,
}
use kk_proxy.Http.Headers.{HeaderMap, HeaderValue, split_upper, equal_range, emplace}
use kk_proxy.Http.Headers.Order.{less, less_irrefl, less_total}
use kk_proxy.Http.Headers.Ranges.{Keys, IsSorted, Keys-map, less_le_trans, equal_range-IsRange}

-- Neither text is less than the other.
abbrev pub same : List ℕ → List ℕ → Bool
same a b = not (less a b) && not (less b a)

-- The values that stand under a name, in order.
abbrev pub values : List ℕ → HeaderMap → List HeaderValue
values name [] = []
values name ((k, v) ∷ m) = if same name k then v ∷ values name m else values name m

pub values-append :
    (name : List ℕ) (m n : HeaderMap) → values name (m ++ n) ≡ values name m ++ values name n
values-append name [] n = refl
values-append name ((k, v) ∷ m) n = ground (arith, values-append name m n)

pub same_refl : (a : List ℕ) → same a a ≡ true
same_refl a = ground (arith, less_irrefl a)

pub same_eq : (a b : List ℕ) → same a b ≡ true → a ≡ b
same_eq a b h = ground (arith, less_total a b)

-- No entry of another name counts.
pub values_absent :
    (name : List ℕ) (m : HeaderMap) → Keys (λ k. same name k ≡ false) m → values name m ≡ []
values_absent name [] p = refl
values_absent name ((k, v) ∷ m) p = ground (arith, values_absent name m p.1)

less-same : (a b : List ℕ) → less a b ≡ true → same a b ≡ false
less-same a b h = rw h

greater-same : (a b : List ℕ) → less b a ≡ true → same a b ≡ false
greater-same a b h = ground arith

-- All the values of a range of one key, or none of them.
pub values_equal :
    (name other : List ℕ) (m : HeaderMap)
    → Keys (λ k. k ≡ other) m
    → values name m ≡ (if same name other then map (λ (_, v). v) m else [])
values_equal name other [] p = ground arith
values_equal name other ((k, v) ∷ m) p = rw p.0 (ground (arith, values_equal name other m p.1))

-- A range splits the values of every name: below and above it stand those of other names.
pub values_cut :
    (name other : List ℕ) (before range after : HeaderMap)
    → Keys (λ k. less k name ≡ true) before
    → Keys (λ k. less name k ≡ true) after
    → same other name ≡ true
    → values other (before ++ (range ++ after)) ≡ values other range
values_cut name other before range after below above e = rw (same_eq other name e) (
    values-append name before (range ++ after)
    ∙ rw
        (values_absent name before (
          Keys-map (λ k. less k name ≡ true) (λ k. same name k ≡ false) before (greater-same name)
            below))
        (values-append name range after
          ∙ rw
              (values_absent name after (
                Keys-map (λ k. less name k ≡ true) (λ k. same name k ≡ false) after (less-same name)
                  above))
              (append-nil (values name range))))

-- The values of a name are those of its range.
pub values_range :
    (name : List ℕ) (m : HeaderMap)
    → IsSorted m
    → values name m ≡ map (λ (_, v). v) (equal_range name m).range
values_range name m s =
    let r = equal_range name m in
    let cut = equal_range-IsRange name m s in
    ap (values name) (sym cut.whole)
    ∙ values_cut name name r.before r.range r.after cut.below cut.above (same_refl name)
    ∙ values_equal name name r.range cut.equal
    ∙ rw (same_refl name)

pub emplace-cons :
    (name k : List ℕ) (v w : HeaderValue) (m : HeaderMap)
    → emplace name v ((k, w) ∷ m)
      ≡ (if less name k then (name, v) ∷ (k, w) ∷ m else (k, w) ∷ emplace name v m)
unfolding emplace split_upper
emplace-cons name k v w m = ground arith

-- Entries of a sorted map behind a greater key are of other names.
values_greater :
    (name other k : List ℕ) (w : HeaderValue) (m : HeaderMap)
    → IsSorted ((k, w) ∷ m)
    → less name k ≡ true
    → same other name ≡ true
    → values other ((k, w) ∷ m) ≡ []
values_greater name other k w m s h e =
    ap (λ n. values n ((k, w) ∷ m)) (same_eq other name e)
    ∙ values_absent name ((k, w) ∷ m) (
      less-same name k h,
      Keys-map (λ j. less j k ≡ false) (λ j. same name j ≡ false) m
          (λ j q. less-same name j (less_le_trans name k j h q)) s.0,
    )

-- The emplaced value goes behind the others of its name.
pub values-emplace :
    (name other : List ℕ) (v : HeaderValue) (m : HeaderMap)
    → IsSorted m
    → values other (emplace name v m)
      ≡ (if same other name then values other m ++ (v ∷ []) else values other m)
values-emplace name other v [] s = unfold emplace split_upper in refl
values-emplace name other v ((k, w) ∷ m) s = elim (Bool-cases (less name k)) [
  | inl h ↦ elim (Bool-cases (same other name)) [
    | inl e ↦
        rw (emplace-cons name k v w m) (rw h (rw e (rw (values_greater name other k w m s h e))))
    | inr n ↦ rw (emplace-cons name k v w m) (rw h (rw n))
  ]
  | inr h ↦
      rw (emplace-cons name k v w m) (rw h (ground (arith, values-emplace name other v m s.1)))
]
