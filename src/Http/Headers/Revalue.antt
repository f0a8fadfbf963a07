-- ===== src/Http/Headers/Revalue.antt =====
-- `assign_range`, which gives the entries of a range a new value: keys and values of its result.
use kk_proxy.Common.{ℕ, ◌≡◌, refl, sym, ap, ◌∙◌, false, List, [], ◌∷◌, ◌++◌, map, map-append}
use kk_proxy.Http.Headers.{HeaderMap, HeaderValue, EqualRange, assign_range}
use kk_proxy.Http.Headers.Order.{less}
use kk_proxy.Http.Headers.Ranges.{Keys, IsSorted}
use kk_proxy.Http.Headers.Values.{values, same_refl}

abbrev pub keys : HeaderMap → List (List ℕ)
keys = map (λ (k, _). k)

-- The keys alone decide whether a map is sorted.
pub Keys-keys : (P : List ℕ → Type 0) (m n : HeaderMap) → keys m ≡ keys n → Keys P m → Keys P n
Keys-keys P [] [] e p = tt
Keys-keys P [] (b ∷ n) e p = cc
Keys-keys P (a ∷ m) [] e p = cc
Keys-keys P ((k, v) ∷ m) ((j, w) ∷ n) e p =
    let same_key : k ≡ j = cc in
    let rest : keys m ≡ keys n = cc in (rw (← same_key) p.0, Keys-keys P m n rest p.1)

pub IsSorted-keys : (m n : HeaderMap) → keys m ≡ keys n → IsSorted m → IsSorted n
IsSorted-keys [] [] e s = tt
IsSorted-keys [] (b ∷ n) e s = cc
IsSorted-keys (a ∷ m) [] e s = cc
IsSorted-keys ((k, v) ∷ m) ((j, w) ∷ n) e s =
    let same_key : k ≡ j = cc in
    let rest : keys m ≡ keys n = cc in
    (rw (← same_key) (Keys-keys (λ i. less i k ≡ false) m n rest s.0), IsSorted-keys m n rest s.1)

unfoldable pub revalue : HeaderValue → HeaderMap → HeaderMap
revalue v = map (λ (k, _). (k, v))

pub keys-revalue : (v : HeaderValue) (m : HeaderMap) → keys (revalue v m) ≡ keys m
unfolding revalue
keys-revalue v [] = refl
keys-revalue v ((k, w) ∷ m) = ap (◌∷◌ k) (keys-revalue v m)

pub Keys-revalue :
    (P : List ℕ → Type 0) (v : HeaderValue) (m : HeaderMap) → Keys P m → Keys P (revalue v m)
unfolding revalue
Keys-revalue P v [] p = tt
Keys-revalue P v ((k, w) ∷ m) p = (p.0, Keys-revalue P v m p.1)

pub keys-assign_range :
    (v : HeaderValue) (r : EqualRange)
    → keys (assign_range v r) ≡ keys (r.before ++ (r.range ++ r.after))
unfolding assign_range revalue
keys-assign_range v r =
    map-append (λ (k, _). k) r.before (revalue v r.range ++ r.after)
    ∙ ap (◌++◌ (keys r.before)) (
        map-append (λ (k, _). k) (revalue v r.range) r.after
        ∙ ap (λ x. x ++ keys r.after) (keys-revalue v r.range)
        ∙ sym (map-append (λ (k, _). k) r.range r.after))
    ∙ sym (map-append (λ (k, _). k) r.before (r.range ++ r.after))

pub values-revalue :
    (name : List ℕ) (v : HeaderValue) (m : HeaderMap)
    → Keys (λ k. k ≡ name) m
    → values name (revalue v m) ≡ map (λ _. v) (map (λ (_, w). w) m)
unfolding revalue
values-revalue name v [] p = refl
values-revalue name v ((k, w) ∷ m) p =
    rw (p.0, same_refl name) (ap (◌∷◌ v) (values-revalue name v m p.1))
