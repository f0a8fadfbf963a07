-- ===== src/Net/Address/Resolve.antt =====
-- The resolver and the rest of kkp/kkp-core/src/net/address.cpp. getaddrinfo, getsockname and inet_ntop
-- are parameters. `none` stands for `throw std::runtime_error`.
pub mod Freed
use kk_proxy.Common.{
  ℕ, ◌+◌, ◌*◌, Option, none, some, List, [], ◌∷◌, ◌++◌, ℤ, take, drop, get_or, ◌==◌, if◌then◌else◌,
}
use kk_proxy.ErrorCode.{ok, unexpected, bytes}
use kk_proxy.Net.Address.{Address, address, write_at, htons, is_v4, is_v6, parse_from_ip}

-- One entry of the list of getaddrinfo: its family and the bytes of its address.
pub record AddrInfo : Type 0 where
  pub ai_family : ℕ
  pub ai_addr : List ℕ

-- sizeof(sockaddr_in), sizeof(sockaddr_in6)
abbrev pub sockaddr_in_size : ℕ
sockaddr_in_size = 16

abbrev pub sockaddr_in6_size : ℕ
sockaddr_in6_size = 28

-- memcpy of `size` bytes over the address, then the port and the family.
abbrev pub copy_from : (size family : ℕ) → List ℕ → (port : ℕ) → Address
copy_from size family xs port =
    write_at 0 (family ∷ 0 ∷ []) (write_at 2 (htons port) (write_at 0 (take size xs) address))

-- for (auto *ptr = res; ptr != nullptr; ptr = ptr->ai_next)
unfoldable pub first_of : List AddrInfo → ℕ → Option Address
first_of [] port = none
first_of (e ∷ es) port =
    let rest = first_of es port in
    if e.ai_family == 2
    then some (copy_from sockaddr_in_size 2 e.ai_addr port)
    else if e.ai_family == 10
    then some (copy_from sockaddr_in6_size 10 e.ai_addr port)
    else rest

-- `none` from getaddrinfo is an error of it.
unfoldable pub parse_from_domain :
    (getaddrinfo : List ℕ → Option (List AddrInfo)) → (addr : List ℕ) (port : ℕ) → Option Address
unfolding first_of
parse_from_domain getaddrinfo addr port = elim (getaddrinfo addr) [
  | none ↦ none
  | some res ↦ first_of res port
]

unfoldable pub from :
    (inet_pton_v4 inet_pton_v6 : List ℕ → Option (List ℕ))
    → (getaddrinfo : List ℕ → Option (List AddrInfo)) → (addr : List ℕ) (port : ℕ) → Option Address
unfolding parse_from_domain
from inet_pton_v4 inet_pton_v6 getaddrinfo addr port =
    elim (parse_from_ip inet_pton_v4 inet_pton_v6 addr port) [
      | ok a ↦ some a
      | unexpected e ↦ parse_from_domain getaddrinfo addr port
    ]

-- Over the object at `addr`; `getsockname` gives the bytes of a `sockaddr_storage`, or fails.
unfoldable pub init_addr_from_fd :
    (getsockname : ℤ → Option (List ℕ)) → ℤ → Address → Option Address
init_addr_from_fd getsockname fd addr = elim (getsockname fd) [
  | none ↦ none
  | some temp ↦
      let family : ℕ = get_or temp 0 0 + get_or temp 1 0 * 256 in
      if family == 2
      then some (write_at 0 (take sockaddr_in_size temp) addr)
      else if family == 10
      then some (write_at 0 (take sockaddr_in6_size temp) addr)
      else none
]

-- inet_ntop is given the four bytes at 4, or the sixteen at 8: the last eight of these lie behind the
-- object, and are the argument `behind`.
unfoldable pub ip_address :
    (inet_ntop_v4 inet_ntop_v6 : List ℕ → List ℕ) → (behind : List ℕ) → Address → List ℕ
ip_address inet_ntop_v4 inet_ntop_v6 behind a =
    if is_v4 a
    then inet_ntop_v4 (take 4 (drop 4 a.bytes))
    else if is_v6 a
    then inet_ntop_v6 (take 16 (drop 8 a.bytes ++ behind))
    else bytes "error"
