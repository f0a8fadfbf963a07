-- ===== src/Http/HeaderNames/Laws.antt =====
-- The common header names and the methods are proper names, and no two are the same name.
use Prim.Native.String.{String}
use kk_proxy.Common.{
  ◌⊎◌, inl, inr, Bool-cases, false, ℕ, zero, suc, ◌+◌, ◌≡◌, refl, ap, ◌∙◌, Bool, true, false, not,
  ◌&&◌, ◌||◌, some, List, [], ◌∷◌, map, arith, leb, ◌==◌, if◌then◌else◌, get_elem?,
}
use kk_proxy.ErrorCode.{bytes}
use kk_proxy.Http.HeaderNames.{common_headers}
use kk_proxy.Http.Methods.{methods}

is_alpha_num : ℕ → Bool
is_alpha_num c =
    (leb b'0' c && leb c b'9') || (leb b'A' c && leb c b'Z') || (leb b'a' c && leb c b'z')

to_lower : ℕ → ℕ
to_lower c = if leb b'A' c && leb c b'Z' then c + 32 else c

same_bytes : List ℕ → List ℕ → Bool
same_bytes [] [] = true
same_bytes (a ∷ as') (b ∷ bs) = a == b && same_bytes as' bs
same_bytes [] (b ∷ bs) = false
same_bytes (a ∷ as') [] = false

-- RFC 9110: field names are compared without regard to case.
unfoldable pub same_name : String → String → Bool
unfolding same_bytes to_lower
same_name a b = same_bytes (map to_lower (bytes a)) (map to_lower (bytes b))

-- Letters, digits and dashes, which are all `tchar`s, and at least one.
pub is_name : List ℕ → Bool
unfolding is_alpha_num
is_name [] = false
is_name (c ∷ []) = is_alpha_num c
is_name (c ∷ d ∷ cs) = (is_alpha_num c || c == b'-') && is_name (d ∷ cs)

abbrev absent : String → List String → Bool
absent a [] = true
absent a (b ∷ bs) = not (same_name a b) && absent a bs

abbrev all_names : List String → Bool
all_names [] = true
all_names (a ∷ names) = is_name (bytes a) && absent a names && all_names names

same_bytes_sym : (xs ys : List ℕ) → same_bytes xs ys ≡ same_bytes ys xs
unfolding same_bytes
same_bytes_sym [] [] = refl
same_bytes_sym [] (y ∷ ys) = refl
same_bytes_sym (x ∷ xs) [] = refl
same_bytes_sym (x ∷ xs) (y ∷ ys) = ground (arith, same_bytes_sym xs ys)

same_name_sym : (a b : String) → same_name a b ≡ same_name b a
unfolding same_name
same_name_sym a b = same_bytes_sym (map to_lower (bytes a)) (map to_lower (bytes b))

all_names-is_name :
    (names : List String) (i : ℕ) (a : String)
    → all_names names ≡ true
    → get_elem? names i ≡ some a
    → is_name (bytes a) ≡ true
all_names-is_name [] i a h e = cc
all_names-is_name (n ∷ names) zero a h e = ground arith
all_names-is_name (n ∷ names) (suc i) a h e = ground (arith, all_names-is_name names i a)

absent_lem :
    (n : String) (names : List String) (i : ℕ) (a : String)
    → absent n names ≡ true
    → get_elem? names i ≡ some a
    → same_name n a ≡ false
absent_lem n [] i a h e = cc
absent_lem n (m ∷ names) zero a h e = ground arith
absent_lem n (m ∷ names) (suc i) a h e = ground (arith, absent_lem n names i a)

all_names_distinct :
    (names : List String) (i j : ℕ) (a b : String)
    → all_names names ≡ true
    → get_elem? names i ≡ some a
    → get_elem? names j ≡ some b
    → same_name a b ≡ true
    → i ≡ j
all_names_distinct [] i j a b h p q e = cc
all_names_distinct (n ∷ names) zero zero a b h p q e = refl
all_names_distinct (n ∷ names) zero (suc j) a b h p q e = ground (arith, absent_lem n names j b)
all_names_distinct (n ∷ names) (suc i) zero a b h p q e =
    ground (arith, absent_lem n names i a, same_name_sym a b)
all_names_distinct (n ∷ names) (suc i) (suc j) a b h p q e =
    ap suc (all_names_distinct names i j a b (ground arith) p q e)

common_headers_checked : all_names common_headers ≡ true
unfolding is_name same_name
common_headers_checked = refl

methods_checked : all_names methods ≡ true
unfolding is_name same_name
methods_checked = refl

http_names_checked :
    (names : List String) → (names ≡ common_headers) ⊎ (names ≡ methods) → all_names names ≡ true
http_names_checked names (inl e) = ap all_names e ∙ common_headers_checked
http_names_checked names (inr e) = ap all_names e ∙ methods_checked

-- Each of the 79 common header names, and each of the 9 methods, is a name of HTTP (letters, digits and
-- dashes, neither empty nor ending in a dash), and no two header names, and no two methods, are the same
-- when case is ignored.
pub http_names_lem :
    (names : List String) (i j : ℕ) (a b : String)
    → (names ≡ common_headers) ⊎ (names ≡ methods)
    → get_elem? names i ≡ some a
    → get_elem? names j ≡ some b
    → (is_name (bytes a) ≡ true) × ((i ≡ j) ⊎ (same_name a b ≡ false))
http_names_lem names i j a b which p q =
    let checked = http_names_checked names which in
    (
      all_names-is_name names i a checked p,
      elim (Bool-cases (same_name a b)) [
        | inl same ↦ inl (all_names_distinct names i j a b checked p q same)
        | inr apart ↦ inr apart
      ],
    )

-- The header names among them.
pub common_headers_lem :
    (i j : ℕ) (a b : String)
    → get_elem? common_headers i ≡ some a
    → get_elem? common_headers j ≡ some b
    → (is_name (bytes a) ≡ true) × ((i ≡ j) ⊎ (same_name a b ≡ false))
common_headers_lem i j a b p q = http_names_lem common_headers i j a b (inl refl) p q
