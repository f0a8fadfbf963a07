-- ===== src/Http/Headers.antt =====
-- `headers` of kkp/kkp-http/include/kkp/http/http_common.hpp, over a `std::multimap`: the entries in
-- the order of their keys, equal keys in the order of insertion. A text is its list of bytes.
pub mod Order
pub mod Ranges
pub mod Values
pub mod Revalue
pub mod Laws
pub mod Refine
use kk_proxy.Common.{ℕ, Bool, List, [], ◌∷◌, ◌++◌, map, if◌then◌else◌}
use Order.{less}

pub record HeaderValue : Type 0 where
  pub value : List ℕ
  pub sensitive : Bool

abbrev pub Entry : Type 0
Entry = List ℕ × HeaderValue

abbrev pub HeaderMap : Type 0
HeaderMap = List Entry

-- The default constructor, and `copy`.
abbrev pub headers : HeaderMap
headers = []

abbrev pub copy : HeaderMap → HeaderMap
copy m = m

-- `lower_bound`: the entries before the first key that is not less than `name`, and the rest.
pub split_lower : List ℕ → HeaderMap → HeaderMap × HeaderMap
split_lower name [] = ([], [])
split_lower name ((k, v) ∷ m) =
    let rest = split_lower name m in
    if less k name then ((k, v) ∷ rest.0, rest.1) else ([], (k, v) ∷ m)

-- `upper_bound`: the same for the first key that is greater than `name`.
pub split_upper : List ℕ → HeaderMap → HeaderMap × HeaderMap
split_upper name [] = ([], [])
split_upper name ((k, v) ∷ m) =
    let rest = split_upper name m in
    if less name k then ([], (k, v) ∷ m) else ((k, v) ∷ rest.0, rest.1)

pub record EqualRange : Type 0 where
  pub before : HeaderMap
  pub range : HeaderMap
  pub after : HeaderMap

unfoldable pub equal_range : List ℕ → HeaderMap → EqualRange
unfolding split_lower split_upper
equal_range name m =
    let (before, rest) = split_lower name m in
    let (range, after) = split_upper name rest in
    record { before = before; range = range; after = after }

-- A new entry goes behind those of its key.
unfoldable pub emplace : List ℕ → HeaderValue → HeaderMap → HeaderMap
unfolding split_upper
emplace name v m = let (before, after) = split_upper name m in before ++ ((name, v) ∷ after)

unfoldable pub add : (name value : List ℕ) (sensitive : Bool) → HeaderMap → HeaderMap
unfolding emplace
add name value sensitive m = emplace name (record { value = value; sensitive = sensitive }) m

-- The `for` loop over the range: the new value in every entry of it.
unfoldable pub assign_range : HeaderValue → EqualRange → HeaderMap
assign_range v r = r.before ++ (map (λ (k, _). (k, v)) r.range ++ r.after)

-- Either a new entry, or the new value in every entry of the key.
unfoldable pub set : (name value : List ℕ) (sensitive : Bool) → HeaderMap → HeaderMap
unfolding equal_range emplace assign_range
set name value sensitive m =
    let r : EqualRange = equal_range name m in
    let v : HeaderValue = record { value = value; sensitive = sensitive } in
    elim r.range [ [] ↦ emplace name v m | _ ∷ _ ↦ assign_range v r ]

-- The value of the first entry of the key, or the empty text.
unfoldable pub get : List ℕ → HeaderMap → List ℕ
unfolding equal_range
get name m = elim (equal_range name m).range [ [] ↦ [] | (_, v) ∷ _ ↦ v.value ]
