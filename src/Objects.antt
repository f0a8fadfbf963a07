-- ===== src/Objects.antt =====
-- Objects that own a resource: what a program does with a set of objects of one class, and an
-- interface for the class. The objects live in a list and are named by their place in it; a place is
-- never used again. The classes are `socket`, `server_socket`, `file` and `task` of
-- kkp/kkp-core/include/kkp/.
pub mod Laws
use kk_proxy.Common.{
  ℕ, ◌+◌, ◌≤◌, Option, none, some, List, [], ◌∷◌, ◌++◌, if◌then◌else◌, ◌==◌, get_elem?, set,
}

-- A class `A` with its move constructor (the new object, and what is left of the other), its move
-- assignment of another object (`this`, the other) and its other member functions `X`, the destructor
-- among them. `K` is what they act on.
pub record Class (A K X : Type 0) : Type 0 where
  pub move : A → A × A
  pub assign : A → A → K → A × A × K
  pub call : X → A → K → A × K

-- What a program does with its objects.
pub data Step (A X : Type 0) : Type 0 where
  created : A → Step A X
  moved : ℕ → Step A X
  assigned : (this other : ℕ) → Step A X
  called : X → ℕ → Step A X

module _ {A K X : Type 0} (C : Class A K X) where
  abbrev pub move_at : ℕ → Option A → List A × K → List A × K
  move_at i none st = st
  move_at i (some a) (xs, k) = let (new, left) = C.move a in (set xs i left ++ (new ∷ []), k)

  -- if (this != &other)
  abbrev pub assign_at : ℕ → ℕ → Option A → Option A → List A × K → List A × K
  assign_at i j (some a) (some b) (xs, k) =
      let (new, left, k') = C.assign a b k in
      if i == j then (xs, k) else (set (set xs i new) j left, k')
  assign_at i j _ _ st = st

  abbrev pub call_at : X → ℕ → Option A → List A × K → List A × K
  call_at x i none st = st
  call_at x i (some a) (xs, k) = let (a', k') = C.call x a k in (set xs i a', k')

  unfoldable pub step : Step A X → List A × K → List A × K
  step (created a) (xs, k) = (xs ++ (a ∷ []), k)
  step (moved i) (xs, k) = move_at i (get_elem? xs i) (xs, k)
  step (assigned i j) (xs, k) = assign_at i j (get_elem? xs i) (get_elem? xs j) (xs, k)
  step (called x i) (xs, k) = call_at x i (get_elem? xs i) (xs, k)

  unfoldable pub steps : List (Step A X) → List A × K → List A × K
  unfolding step
  steps [] st = st
  steps (a ∷ as') st = steps as' (step a st)

-- how often the objects hold a resource, all together
abbrev pub holders : {A : Type 0} → (A → ℕ) → List A → ℕ
holders held [] = 0
holders held (x ∷ xs) = held x + holders held xs

-- how often the objects that a program creates bring a resource
abbrev pub creations : {A X : Type 0} → (A → ℕ) → List (Step A X) → ℕ
creations held [] = 0
creations held (created a ∷ as') = held a + creations held as'
creations held (_ ∷ as') = creations held as'

-- A class that never makes a second owner: `held` says how often an object holds the resource, and
-- `released` how often it was given back.
pub record IsOwner {A K X : Type 0} (C : Class A K X) (held : A → ℕ) (released : K → ℕ)
    : Type 0 where
  pub move_owner : (a : A) → held (C.move a).0 + held (C.move a).1 ≤ held a
  pub assign_owner :
      (a b : A) (k : K)
      → held (C.assign a b k).0 + held (C.assign a b k).1 + released (C.assign a b k).2
        ≤ held a + held b + released k
  pub call_owner :
      (x : X) (a : A) (k : K)
      → held (C.call x a k).0 + released (C.call x a k).1 ≤ held a + released k
