-- ===== src/Http/Status/Laws.antt =====
-- What `get_status_message` answers.
use Prim.Native.String.{String}
use kk_proxy.Common.{
  ℕ, zero, suc, ◌<◌, ◌≡◌, ◌≢◌, refl, ◌⊎◌, inl, inr, Bool, true, false, ◌&&◌, some, List, [], ◌∷◌,
  arith, ℤ, pos_part, eq_ℤ, eq_ℤ→eq, eq_ℤ_refl, ltb, Bool-cases, get_elem?,
}
use kk_proxy.Http.Status.{status_map, header_unknown, message_in, get_status_message}

-- The codes of a table grow, so that no code stands there twice.
abbrev codes_above : ℕ → List (ℤ × String) → Bool
codes_above n [] = true
codes_above n ((s, msg) ∷ rest) = ltb n (pos_part s) && codes_above (pos_part s) rest

code_above :
    (n : ℕ) (table : List (ℤ × String)) (i : ℕ) (s : ℤ) (msg : String)
    → codes_above n table ≡ true
    → get_elem? table i ≡ some (s, msg)
    → n < pos_part s
code_above n [] i s msg h e = cc
code_above n ((t, m) ∷ rest) zero s msg h e = ground arith
code_above n ((t, m) ∷ rest) (suc i) s msg h e =
    ground (arith, code_above (pos_part t) rest i s msg)

message_in_entry :
    (n : ℕ) (table : List (ℤ × String)) (i : ℕ) (s : ℤ) (msg : String)
    → codes_above n table ≡ true
    → get_elem? table i ≡ some (s, msg)
    → message_in table s ≡ msg
unfolding message_in
message_in_entry n [] i s msg h e = cc
message_in_entry n ((t, m) ∷ rest) zero s msg h e = ground (arith, eq_ℤ_refl s)
message_in_entry n ((t, m) ∷ rest) (suc i) s msg h e = ground (
  arith,
  eq_ℤ→eq t s,
  code_above (pos_part t) rest i s msg,
  message_in_entry (pos_part t) rest i s msg,
)

not_there :
    (t : ℤ) (m : String) (rest : List (ℤ × String)) (s : ℤ)
    → eq_ℤ t s ≡ false
    → ((i : ℕ) (msg : String) → get_elem? rest i ≢ some (s, msg))
    → (i : ℕ) (msg : String) → get_elem? {A = ℤ × String} ((t, m) ∷ rest) i ≢ some (s, msg)
not_there t m rest s miss absent zero msg = λ e. ground (arith, eq_ℤ_refl s)
not_there t m rest s miss absent (suc i) msg = absent i msg

message_in_cases :
    (table : List (ℤ × String)) (s : ℤ)
    → ((i : ℕ) × (get_elem? table i ≡ some (s, message_in table s)))
      ⊎ (((i : ℕ) (msg : String) → get_elem? table i ≢ some (s, msg))
          × (message_in table s ≡ header_unknown))
unfolding message_in
message_in_cases [] s = inr (λ i msg e. cc, refl)
message_in_cases ((t, m) ∷ rest) s = elim (Bool-cases (eq_ℤ t s)) [
  | inl hit ↦ rw hit (inl (0, rw (eq_ℤ→eq t s hit)))
  | inr miss ↦ rw miss (elim (message_in_cases rest s) [
    | inl (i, e) ↦ inl (suc i, e)
    | inr (absent, e) ↦ inr (not_there t m rest s miss absent, e)
  ])
]

-- Every entry of the table is found: no code is hidden by an earlier entry.
get_status_message_entry :
    (i : ℕ) (status : ℤ) (msg : String)
    → get_elem? status_map i ≡ some (status, msg)
    → get_status_message status ≡ msg
unfolding get_status_message
get_status_message_entry i status msg e = message_in_entry 0 status_map i status msg refl e

-- The answer for any code, negative ones too, is the message of each entry of the table with this code,
-- and there is such an entry, or it is "Unknown Status", and then no entry has the code.
pub get_status_message_lem :
    (status : ℤ)
    → (((i : ℕ) × (get_elem? status_map i ≡ some (status, get_status_message status)))
        × ((i : ℕ) (msg : String)
            → get_elem? status_map i ≡ some (status, msg)
            → get_status_message status ≡ msg))
      ⊎ (((i : ℕ) (msg : String) → get_elem? status_map i ≢ some (status, msg))
          × (get_status_message status ≡ header_unknown))
unfolding get_status_message
get_status_message_lem status = elim (message_in_cases status_map status) [
  | inl found ↦ inl (found, λ i msg e. get_status_message_entry i status msg e)
  | inr missing ↦ inr missing
]
