-- ===== src/Http/Headers/Laws.antt =====
-- What `add`, `set` and `get` do, in terms of the values of each name.
use kk_proxy.Common.{
  ℕ, ◌≡◌, refl, sym, ap, ◌∙◌, ◌⊎◌, ◌≢◌, inl, inr, Bool, true, false, List, [], ◌∷◌, ◌++◌, map,
  arith, Bool-cases, if◌then◌else◌,
}
use kk_proxy.Http.Headers.{
  HeaderMap, HeaderValue, split_upper, equal_range, EqualRange, emplace, assign_range, add, set,
  get,
}
use kk_proxy.Http.Headers.Order.{less, less_irrefl, less_trans}
use kk_proxy.Http.Headers.Ranges.{
  Keys, IsSorted, Keys-map, less_le_trans, IsRange, equal_range-IsRange,
}
use kk_proxy.Http.Headers.Values.{
  same, values, values-append, same_eq, same_refl, values_equal, values_range, values_cut,
  values-emplace, emplace-cons,
}
use kk_proxy.Http.Headers.Revalue.{
  keys, IsSorted-keys, revalue, Keys-revalue, keys-assign_range, values-revalue,
}

-- A name is not less than a greater one.
less_asym : (a b : List ℕ) → less a b ≡ true → less b a ≡ false
less_asym a b h = elim (Bool-cases (less b a)) [
  | inr n ↦ n
  | inl p ↦ ground (arith, less_trans a b a h p, less_irrefl a)
]

Keys-emplace :
    (P : List ℕ → Type 0) (name : List ℕ) (v : HeaderValue) (m : HeaderMap)
    → P name
    → Keys P m
    → Keys P (emplace name v m)
Keys-emplace P name v [] p q = unfold emplace split_upper in (p, tt)
Keys-emplace P name v ((k, w) ∷ m) p q = elim (Bool-cases (less name k)) [
  | inl h ↦ rw (emplace-cons name k v w m) (rw h (p, q))
  | inr h ↦ rw (emplace-cons name k v w m) (rw h (q.0, Keys-emplace P name v m p q.1))
]

emplace-IsSorted :
    (name : List ℕ) (v : HeaderValue) (m : HeaderMap) → IsSorted m → IsSorted (emplace name v m)
emplace-IsSorted name v [] s = unfold emplace split_upper in (tt, tt)
emplace-IsSorted name v ((k, w) ∷ m) s = elim (Bool-cases (less name k)) [
  | inl h ↦ rw (emplace-cons name k v w m) (
      rw h (
        (
          less_asym name k h,
          Keys-map (λ j. less j k ≡ false) (λ j. less j name ≡ false) m
              (λ j q. less_asym name j (less_le_trans name k j h q)) s.0,
        ),
        s,
      ))
  | inr h ↦
      rw (emplace-cons name k v w m)
        (rw h (Keys-emplace (λ j. less j k ≡ false) name v m h s.0, emplace-IsSorted name v m s.1))
]

-- All values of a name replaced by one, or one new value.
abbrev pub replaced : HeaderValue → List HeaderValue → List HeaderValue
replaced v [] = v ∷ []
replaced v (w ∷ ws) = map (λ _. v) (w ∷ ws)

abbrev pub first_value : List HeaderValue → List ℕ
first_value [] = []
first_value (v ∷ vs) = v.value

abbrev pub header_value : List ℕ → Bool → HeaderValue
header_value value sensitive = record { value = value; sensitive = sensitive }

-- `get` gives the first value of the name, or the empty text if there is none.
pub get_lem :
    (name : List ℕ) (m : HeaderMap) → IsSorted m → get name m ≡ first_value (values name m)
unfolding get
get_lem name m s = rw (values_range name m s) (get_first (equal_range name m).range)
  where
    get_first :
        (range : HeaderMap)
        → elim range [ [] ↦ [] | (_, v) ∷ _ ↦ v.value ] ≡ first_value (map (λ (_, v). v) range)
    get_first [] = refl
    get_first ((k, v) ∷ range) = refl

set_cases :
    (name value : List ℕ) (sensitive : Bool) (m : HeaderMap) (range : HeaderMap)
    → (equal_range name m).range ≡ range
    → ((range ≡ []) × (set name value sensitive m ≡ emplace name (header_value value sensitive) m))
      ⊎ ((range ≢ [])
          × (set name value sensitive m
              ≡ assign_range (header_value value sensitive) (equal_range name m)))
unfolding set
set_cases name value sensitive m [] e = inl (refl, rw (e, set))
set_cases name value sensitive m (x ∷ range) e =
    let r = equal_range name m in
    let v = header_value value sensitive in
    inr (λ h. cc, rw (e, set) (ap (λ x. r.before ++ (map (λ (k, _). (k, v)) x ++ r.after)) e))

-- `add` puts its value behind the other values of the name, leaves the values of every other name as
-- they were, and the map sorted.
pub add_lem :
    (name other value : List ℕ) (sensitive : Bool) (m : HeaderMap)
    → IsSorted m
    → IsSorted (add name value sensitive m)
      × (values other (add name value sensitive m) ≡ (
          if same other name
          then values other m ++ (header_value value sensitive ∷ [])
          else values other m))
unfolding add
add_lem name other value sensitive m s = (
  emplace-IsSorted name (header_value value sensitive) m s,
  values-emplace name other (header_value value sensitive) m s,
)

module _ (name : List ℕ) (v : HeaderValue) (m : HeaderMap) (s : IsSorted m) where
  abbrev found : EqualRange
  found = equal_range name m

  cut : IsRange name m (equal_range name m)
  cut = equal_range-IsRange name m s

  assign_range-IsSorted : IsSorted (assign_range v found)
  assign_range-IsSorted =
      IsSorted-keys m (assign_range v found)
        (ap keys (sym cut.whole) ∙ sym (keys-assign_range v found)) s

  assign_range_same : values name (assign_range v found) ≡ map (λ _. v) (values name m)
  unfolding assign_range revalue
  assign_range_same =
      values_cut name name found.before (revalue v found.range) found.after cut.below cut.above
        (same_refl name)
      ∙ values-revalue name v found.range cut.equal
      ∙ ap (map (λ _. v)) (sym (values_range name m s))

  -- Where the middle has nothing of a name, it does not count.
  values_middle :
      (other : List ℕ) (before middle after : HeaderMap)
      → values other middle ≡ []
      → values other (before ++ (middle ++ after)) ≡ values other before ++ values other after
  values_middle other before middle after e =
      values-append other before (middle ++ after)
      ∙ ap (◌++◌ (values other before))
          (values-append other middle after ∙ ap (λ x. x ++ values other after) e)

  assign_range_other :
      (other : List ℕ)
      → same other name ≡ false
      → values other (assign_range v found) ≡ values other m
  unfolding assign_range revalue
  assign_range_other other n =
      values_middle other found.before (revalue v found.range) found.after (
        values_equal other name (revalue v found.range)
          (Keys-revalue (λ k. k ≡ name) v found.range cut.equal)
        ∙ rw n)
      ∙ sym (
          values_middle other found.before found.range found.after
            (values_equal other name found.range cut.equal ∙ rw n))
      ∙ ap (values other) cut.whole

replaced_some :
    (v : HeaderValue) (ws : List HeaderValue) → ws ≢ [] → map (λ _. v) ws ≡ replaced v ws
replaced_some v [] h = absurd (h refl)
replaced_some v (w ∷ ws) h = refl

map_values_some :
    (range : HeaderMap) → range ≢ [] → ◌≢◌ {A = List HeaderValue} (map (λ (_, v). v) range) []
map_values_some [] h = absurd (h refl)
map_values_some ((k, v) ∷ range) h = λ e. cc

module _ (name value : List ℕ) (sensitive : Bool) (m : HeaderMap) (s : IsSorted m) where
  abbrev new_value : HeaderValue
  new_value = header_value value sensitive

  set-IsSorted : IsSorted (set name value sensitive m)
  set-IsSorted = elim (set_cases name value sensitive m (equal_range name m).range refl) [
    | inl (_, e) ↦ rw e (emplace-IsSorted name new_value m s)
    | inr (_, e) ↦ rw e (assign_range-IsSorted name new_value m s)
  ]

  set_same : values name (set name value sensitive m) ≡ replaced new_value (values name m)
  set_same = elim (set_cases name value sensitive m (equal_range name m).range refl) [
    | inl (none, e) ↦
        let no_values : values name m ≡ [] = values_range name m s ∙ ap (map (λ (_, v). v)) none in
        ap (values name) e
        ∙ values-emplace name name new_value m s
        ∙ rw (same_refl name) (rw no_values)
    | inr (some_left, e) ↦
        ap (values name) e
        ∙ assign_range_same name new_value m s
        ∙ replaced_some new_value (values name m) (λ z.
          map_values_some (equal_range name m).range some_left (sym (values_range name m s) ∙ z))
  ]

  set_other :
      (other : List ℕ)
      → same other name ≡ false
      → values other (set name value sensitive m) ≡ values other m
  set_other other n = elim (set_cases name value sensitive m (equal_range name m).range refl) [
    | inl (_, e) ↦ ap (values other) e ∙ values-emplace name other new_value m s ∙ rw n
    | inr (_, e) ↦ ap (values other) e ∙ assign_range_other name new_value m s other n
  ]

first_replaced : (v : HeaderValue) (ws : List HeaderValue) → first_value (replaced v ws) ≡ v.value
first_replaced v [] = refl
first_replaced v (w ∷ ws) = refl

-- `set` overwrites every value of the name, or makes the first one; it leaves the values of every
-- other name as they were, and the map sorted.
pub set_lem :
    (name other value : List ℕ) (sensitive : Bool) (m : HeaderMap)
    → IsSorted m
    → IsSorted (set name value sensitive m)
      × (values other (set name value sensitive m) ≡ (
          if same other name
          then replaced (header_value value sensitive) (values other m)
          else values other m))
set_lem name other value sensitive m s =
    let v = header_value value sensitive in
    (
      set-IsSorted name value sensitive m s,
      elim (Bool-cases (same other name)) [
        | inl e ↦
            let p = same_eq other name e in
            rw e (
              ap (λ n. values n (set name value sensitive m)) p
              ∙ set_same name value sensitive m s
              ∙ ap (λ n. replaced v (values n m)) (sym p))
        | inr n ↦ rw n (set_other name value sensitive m s other n)
      ],
    )

-- After `set` of a name, `get` of it gives the new value, and `get` of another name what it gave.
pub get-set :
    (name other value : List ℕ) (sensitive : Bool) (m : HeaderMap)
    → IsSorted m
    → get other (set name value sensitive m) ≡ (if same other name then value else get other m)
get-set name other value sensitive m s =
    let (sorted, e) = set_lem name other value sensitive m s in
    get_lem other (set name value sensitive m) sorted
    ∙ ap first_value e
    ∙ ground
        (arith, first_replaced (header_value value sensitive) (values other m), get_lem other m s)
