-- ===== src/ErrorCode.antt =====
-- Error codes and results: kkp/kkp-core/include/kkp/error_code.hpp, kkp/kkp-core/src/error_code.cpp
-- and the alias `result` of kkp/kkp-core/include/kkp/kkp_traits.hpp. A text is its list of bytes.
pub mod Laws
use Prim.Native.String.{String}
use Prim.Native.Char.{code as char_code}
use kk_proxy.Common.{
  ℕ, zero, suc, ◌+◌, ◌/◌, ◌%◌, Bool, true, false, List, [], ◌∷◌, ◌++◌, ℤ, pos, negsuc, eq_ℤ, ltb,
  leb, if◌then◌else◌,
}

-- The bytes of an ASCII text.
abbrev pub bytes : String → List ℕ
bytes String.[] = []
bytes (String.◌∷◌ c s) = char_code c ∷ bytes s

-- `std::system_category`, `std::generic_category` and `kkp_error_category_instance`
pub data Category : Type 0 where
  system generic kkp_error : Category

pub record ErrorCode : Type 0 where
  pub value : ℤ
  pub category : Category

-- `std::expected<T, std::error_code>`
pub data Result {ℓ} (T : Type ℓ) : Type ℓ where
  ok : T → Result T
  unexpected : ErrorCode → Result T

abbrev pub e_task_finish : ℤ
e_task_finish = pos 10086

abbrev pub e_task_cancel : ℤ
e_task_cancel = pos 10087

abbrev pub e_task_timeout : ℤ
e_task_timeout = pos 10088

abbrev pub e_task_error : ℤ
e_task_error = pos 10089

abbrev pub e_ssl_handshake_failed : ℤ
e_ssl_handshake_failed = pos 10090

abbrev pub e_ssl_handshake_socket_read_eof : ℤ
e_ssl_handshake_socket_read_eof = pos 10091

abbrev pub make_sys_error {ℓ} : {T : Type ℓ} → ℤ → Result T
make_sys_error code = unexpected (record { value = code; category = system })

abbrev pub make_custom_error {ℓ} : {T : Type ℓ} → ℤ → Result T
make_custom_error code = unexpected (record { value = code; category = kkp_error })

-- code >= 10086
abbrev pub is_custom_code : ℤ → Bool
is_custom_code (pos n) = leb 10086 n
is_custom_code (negsuc n) = false

unfoldable pub make_kkp_error {ℓ} : {T : Type ℓ} → ℤ → Result T
make_kkp_error code = if is_custom_code code then make_custom_error code else make_sys_error code

-- Decimal digits, as `std::format` prints an `int`; the first argument is fuel.
digits_below : ℕ → ℕ → List ℕ → List ℕ
digits_below zero n acc = acc
digits_below (suc fuel) n acc =
    let rest : List ℕ = digits_below fuel (n / 10) ((b'0' + n % 10) ∷ acc) in
    if ltb n 10 then (b'0' + n % 10) ∷ acc else rest

unfoldable pub decimal : ℤ → List ℕ
unfolding digits_below
decimal (pos n) = digits_below (suc n) n []
decimal (negsuc n) = b'-' ∷ digits_below (suc (suc n)) (suc n) []

abbrev pub error_msg_map : List (ℤ × List ℕ)
error_msg_map = (e_task_finish, bytes "Task finish") ∷ (e_task_cancel, bytes "Task cancel") ∷ []

abbrev pub unknown_prefix : List ℕ
unknown_prefix = bytes "Unknown error code: "

pub message_in : List (ℤ × List ℕ) → ℤ → List ℕ
unfolding decimal
message_in [] ev = unknown_prefix ++ decimal ev
message_in ((code, msg) ∷ rest) ev = if eq_ℤ code ev then msg else message_in rest ev

-- `kkp_error_category::message`
unfoldable pub message : ℤ → List ℕ
unfolding message_in
message ev = message_in error_msg_map ev
