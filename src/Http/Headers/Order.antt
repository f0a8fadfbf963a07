-- ===== src/Http/Headers/Order.antt =====
-- `std::less<std::string>`: the order of texts by their bytes.
use kk_proxy.Common.{ℕ, ◌≡◌, refl, Bool, true, false, ◌&&◌, ◌||◌, List, [], ◌∷◌, arith, ltb, ◌==◌}

unfoldable pub less : List ℕ → List ℕ → Bool
less xs [] = false
less [] (y ∷ ys) = true
less (x ∷ xs) (y ∷ ys) = ltb x y || (x == y && less xs ys)

pub less_irrefl : (xs : List ℕ) → less xs xs ≡ false
unfolding less
less_irrefl [] = refl
less_irrefl (x ∷ xs) = ground (arith, less_irrefl xs)

pub less_trans : (xs ys zs : List ℕ) → less xs ys ≡ true → less ys zs ≡ true → less xs zs ≡ true
unfolding less
less_trans xs [] zs p q = cc
less_trans xs (y ∷ ys) [] p q = cc
less_trans [] (y ∷ ys) (z ∷ zs) p q = refl
less_trans (x ∷ xs) (y ∷ ys) (z ∷ zs) p q = ground (arith, less_trans xs ys zs)

-- Texts of which neither is less are equal.
pub less_total : (xs ys : List ℕ) → less xs ys ≡ false → less ys xs ≡ false → xs ≡ ys
unfolding less
less_total [] [] p q = refl
less_total [] (y ∷ ys) p q = cc
less_total (x ∷ xs) [] p q = cc
less_total (x ∷ xs) (y ∷ ys) p q = ground (arith, less_total xs ys)
