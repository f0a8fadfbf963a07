-- ===== src/Net/Address.antt =====
-- `address` of kkp/kkp-core/include/kkp/net/address.hpp and `parse_from_ip` of
-- kkp/kkp-core/src/net/address.cpp, on Linux with little-endian words. inet_pton is a parameter: it
-- leaves its buffer alone when it fails.
pub mod Laws
pub mod Resolve
use kk_proxy.Common.{
  ℕ, ◌+◌, ◌-◌, ◌*◌, ◌/◌, ◌%◌, Bool, Option, none, some, List, [], ◌∷◌, ◌++◌, pos, length, take,
  drop, get_or, replicate, ◌==◌,
}
use kk_proxy.ErrorCode.{generic, ErrorCode, Result, ok, unexpected}

-- The 16 bytes of the `sockaddr`, and how many bytes were written behind its end.
pub record Address : Type 0 where
  pub bytes : List ℕ
  pub overrun : ℕ

-- sizeof(sockaddr)
abbrev pub sockaddr_size : ℕ
sockaddr_size = 16

abbrev pub address : Address
address = record { bytes = replicate sockaddr_size 0; overrun = 0 }

-- A write through `cast_v4` or `cast_v6`, which do not look at the size of what they cast.
abbrev pub write_at : ℕ → List ℕ → Address → Address
write_at offset xs a = record {
  bytes =
      take offset a.bytes
      ++ (take (sockaddr_size - offset) xs ++ drop (offset + length xs) a.bytes);
  overrun = a.overrun + (offset + length xs - sockaddr_size);
}

abbrev pub family : Address → ℕ
family a = get_or a.bytes 0 0 + get_or a.bytes 1 0 * 256

-- AF_INET
abbrev pub is_v4 : Address → Bool
is_v4 a = family a == 2

-- AF_INET6
abbrev pub is_v6 : Address → Bool
is_v6 a = family a == 10

-- The bytes of htons(port), the most significant first.
abbrev pub htons : ℕ → List ℕ
htons port = (port / 256 % 256) ∷ (port % 256) ∷ []

-- The IP address, then the family and the port.
abbrev pub fill : (family offset : ℕ) → (ip : List ℕ) → (port : ℕ) → Address
fill family offset ip port =
    write_at 2 (htons port) (write_at 0 (family ∷ 0 ∷ []) (write_at offset ip address))

-- `inet_pton_v4` and `inet_pton_v6` give the bytes that inet_pton puts in `sin_addr`, at 4, and in
-- `sin6_addr`, at 8; the family is at 0 and the port at 2 in both.
unfoldable pub parse_from_ip :
    (inet_pton_v4 inet_pton_v6 : List ℕ → Option (List ℕ))
    → (addr : List ℕ) (port : ℕ) → Result Address
parse_from_ip inet_pton_v4 inet_pton_v6 addr port = elim (inet_pton_v4 addr) [
  | some ip ↦ ok (fill 2 4 ip port)
  | none ↦ elim (inet_pton_v6 addr) [
    | some ip ↦ ok (fill 10 8 ip port)
    | none ↦ unexpected (record { value = pos 0; category = generic })
  ]
]
