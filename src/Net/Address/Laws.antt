-- ===== src/Net/Address/Laws.antt =====
-- What `parse_from_ip` writes.
use kk_proxy.Common.{
  ℕ, pos, ◌≡◌, refl, ◌⊎◌, inl, inr, true, Option, Option-cases, ap, sym, ◌∙◌, none, some, List, [],
  ◌∷◌, arith, length, take, drop,
}
use kk_proxy.ErrorCode.{ok, unexpected, generic}
use kk_proxy.Net.Address.{Address, is_v4, is_v6, htons, fill, parse_from_ip}

four_bytes :
    (ip : List ℕ)
    → length ip ≡ 4
    → (a : ℕ) × (b : ℕ) × (c : ℕ) × (d : ℕ) × (ip ≡ a ∷ b ∷ c ∷ d ∷ [])
four_bytes [] h = absurd (omega (arith, h))
four_bytes (a ∷ []) h = absurd (omega (arith, h))
four_bytes (a ∷ b ∷ []) h = absurd (omega (arith, h))
four_bytes (a ∷ b ∷ c ∷ []) h = absurd (omega (arith, h))
four_bytes (a ∷ b ∷ c ∷ d ∷ x ∷ rest) h = absurd (omega (arith, h))
four_bytes (a ∷ b ∷ c ∷ d ∷ []) h = (a, b, c, d, refl)

module _ (inet_pton_v4 inet_pton_v6 : List ℕ → Option (List ℕ)) (addr : List ℕ) (port : ℕ) where
  -- A text that inet_pton reads as an IPv4 address gives an address of that family, with the port in
  -- network order and the four bytes behind it, and nothing is written outside of the object.
  parse_from_ip-v4 :
      (a b c d : ℕ)
      → inet_pton_v4 addr ≡ some (a ∷ b ∷ c ∷ d ∷ [])
      → (t : Address) × (parse_from_ip inet_pton_v4 inet_pton_v6 addr port ≡ ok t)
        × (is_v4 t ≡ true)
        × (take 2 (drop 2 t.bytes) ≡ htons port)
        × (take 4 (drop 4 t.bytes) ≡ a ∷ b ∷ c ∷ d ∷ [])
        × (length t.bytes ≡ 16)
        × (t.overrun ≡ 0)
  unfolding parse_from_ip
  parse_from_ip-v4 a b c d e =
      (fill 2 4 (a ∷ b ∷ c ∷ d ∷ []) port, rw (e, parse_from_ip) refl, refl, refl, refl, refl, refl)

  -- A text that inet_pton reads as an IPv6 address only, of 16 bytes, is reported as parsed, with the
  -- family of IPv6, but the last eight bytes of the IP address were written behind the end of the
  -- object, which has 16 bytes.
  parse_from_ip-v6 :
      (ip : List ℕ)
      → inet_pton_v4 addr ≡ none
      → inet_pton_v6 addr ≡ some ip
      → length ip ≡ 16
      → (t : Address) × (parse_from_ip inet_pton_v4 inet_pton_v6 addr port ≡ ok t)
        × (is_v6 t ≡ true)
        × (t.overrun ≡ 8)
  unfolding parse_from_ip
  parse_from_ip-v6 ip e f n =
      (fill 10 8 ip port, rw (e, f, parse_from_ip) refl, refl, omega (arith, n))

  -- `parse_from_ip` ends in one of three ways. A text that inet_pton reads as an IPv4 address gives an
  -- address of that family, with the port in network order and the four bytes behind it, and nothing
  -- is written outside of the object. One that it reads as an IPv6 address only is reported as
  -- parsed, with the family of IPv6, but the last eight bytes of the IP address were written behind the
  -- end of the object, which has 16 bytes. Any other text gives an error whose value is 0.
  pub parse_from_ip_lem :
      ((xs ip : List ℕ) → inet_pton_v4 xs ≡ some ip → length ip ≡ 4)
      → ((xs ip : List ℕ) → inet_pton_v6 xs ≡ some ip → length ip ≡ 16)
      → let r = parse_from_ip inet_pton_v4 inet_pton_v6 addr port in
        ((ip : List ℕ) × (t : Address) × (inet_pton_v4 addr ≡ some ip)
          × (r ≡ ok t)
          × (is_v4 t ≡ true)
          × (take 2 (drop 2 t.bytes) ≡ htons port)
          × (take 4 (drop 4 t.bytes) ≡ ip)
          × (length t.bytes ≡ 16)
          × (t.overrun ≡ 0))
        ⊎ ((ip : List ℕ) × (t : Address) × (inet_pton_v4 addr ≡ none)
            × (inet_pton_v6 addr ≡ some ip)
            × (r ≡ ok t)
            × (is_v6 t ≡ true)
            × (t.overrun ≡ 8))
        ⊎ ((inet_pton_v4 addr ≡ none)
            × (inet_pton_v6 addr ≡ none)
            × (r ≡ unexpected (record { value = pos 0; category = generic })))
  unfolding parse_from_ip
  parse_from_ip_lem four sixteen = elim (Option-cases (inet_pton_v4 addr)) [
    | inl none4 ↦ elim (Option-cases (inet_pton_v6 addr)) [
      | inl none6 ↦ inr (inr (none4, none6, rw (none4, none6, parse_from_ip) refl))
      | inr (ip, e) ↦
          let (t, p, q, o) = parse_from_ip-v6 ip none4 e (sixteen addr ip e) in
          inr (inl (ip, t, none4, e, p, q, o))
    ]
    | inr (ip, e) ↦
        let (a, b, c, d, shape) = four_bytes ip (four addr ip e) in
        let (t, p, q, w, x, y, z) = parse_from_ip-v4 a b c d (e ∙ ap some shape) in
        inl (ip, t, e, p, q, w, x ∙ sym shape, y, z)
  ]
