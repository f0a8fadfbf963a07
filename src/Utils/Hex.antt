-- ===== src/Utils/Hex.antt =====
-- `to_hex_string` of kkp/kkp-core/src/kkp-core.cpp: two digits and a space for each byte.
use kk_proxy.Common.{
  ℕ, ◌+◌, ◌-◌, ◌*◌, ◌/◌, ◌%◌, ◌<◌, ◌≡◌, refl, Option, none, some, List, [], ◌∷◌, ◌++◌, arith, ltb,
  leb, if◌then◌else◌, length, ◌==◌, ◌&&◌,
}

-- A digit of `{:X}`.
unfoldable pub hex_digit : ℕ → ℕ
hex_digit d = if ltb d 10 then b'0' + d else b'A' + (d - 10)

-- std::format("{:02X} ", c)
abbrev pub format_byte : ℕ → List ℕ
format_byte c = hex_digit (c / 16) ∷ hex_digit (c % 16) ∷ b' ' ∷ []

unfoldable pub to_hex_string : List ℕ → List ℕ
unfolding hex_digit
to_hex_string [] = []
to_hex_string (c ∷ cs) = format_byte c ++ to_hex_string cs

-- A reader of such a text, independent of the printer: pairs of digits, each followed by a space.
unfoldable pub digit_value : ℕ → Option ℕ
digit_value c =
    if leb b'0' c && leb c b'9'
    then some (c - b'0')
    else if leb b'A' c && leb c b'F'
    then some (c - b'A' + 10)
    else none

abbrev pub join : Option ℕ → Option ℕ → ℕ → Option (List ℕ) → Option (List ℕ)
join (some hi) (some lo) c (some cs) = if c == b' ' then some ((hi * 16 + lo) ∷ cs) else none
join _ _ c _ = none

unfoldable pub from_hex_string : List ℕ → Option (List ℕ)
unfolding digit_value
from_hex_string [] = some []
from_hex_string (hi ∷ lo ∷ sp ∷ rest) =
    join (digit_value hi) (digit_value lo) sp (from_hex_string rest)
from_hex_string (_ ∷ _) = none

-- Bytes, all of them.
abbrev pub Bytes : List ℕ → Type 0
Bytes [] = Unit
Bytes (c ∷ cs) = (c < 256) × Bytes cs

digit_value-hex_digit : (d : ℕ) → d < 16 → digit_value (hex_digit d) ≡ some d
unfolding digit_value hex_digit
digit_value-hex_digit d h = ground arith

join_lem :
    (c : ℕ) (cs : List ℕ)
    → c < 256
    → join (some (c / 16)) (some (c % 16)) b' ' (some cs) ≡ some (c ∷ cs)
join_lem c cs h = ground arith

-- For any bytes, the text that `to_hex_string` prints has three characters for each byte, and reading
-- it back gives the bytes: no two buffers print the same text.
pub to_hex_string_lem :
    (cs : List ℕ)
    → Bytes cs
    → (from_hex_string (to_hex_string cs) ≡ some cs) × (length (to_hex_string cs) ≡ 3 * length cs)
unfolding from_hex_string to_hex_string
to_hex_string_lem [] b = (refl, refl)
to_hex_string_lem (c ∷ cs) (h, b) =
    let (back, len) = to_hex_string_lem cs b in
    (
      rw
          (
            digit_value-hex_digit (c / 16) (omega arith),
            digit_value-hex_digit (c % 16) (omega arith),
            back,
          )
          (join_lem c cs h),
      omega (arith, len),
    )
