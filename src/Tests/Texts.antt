-- ===== src/Tests/Texts.antt =====
-- Runs of kkp/kkp-core/src/kkp-core.cpp and kkp/kkp-core/include/kkp/utils.hpp.
use kk_proxy.Common.{◌≡◌, refl, some, [], ◌∷◌, length, arith, negsuc}
use kk_proxy.ErrorCode.{bytes}
use kk_proxy.Utils.Hex.{to_hex_string, from_hex_string, to_hex_string_lem, hex_digit}
use kk_proxy.Utils.Delay.{delay_timespec}

two_bytes : to_hex_string (10 ∷ 255 ∷ []) ≡ bytes "0A FF "
unfolding to_hex_string hex_digit
two_bytes = refl

to_hex_string_lem_example :
    (from_hex_string (to_hex_string (10 ∷ 255 ∷ [])) ≡ some (10 ∷ 255 ∷ []))
    × (length (to_hex_string (10 ∷ 255 ∷ [])) ≡ 6)
to_hex_string_lem_example = to_hex_string_lem (10 ∷ 255 ∷ []) (omega arith, (omega arith, tt))

half_a_second_ago :
    delay_timespec (negsuc 1499) ≡ record { tv_sec = negsuc 0; tv_nsec = negsuc 499999999 }
unfolding delay_timespec
half_a_second_ago = refl
