-- ===== src/Net/Endpoint.antt =====
-- `endpoint` of kkp/kkp-core/include/kkp/net/endpoint.hpp.
pub mod Laws
use kk_proxy.Common.{ℕ, ◌+◌, ◌*◌, Option, none, some, List, get_or, if◌then◌else◌}
use kk_proxy.Net.Address.{Address, is_v4, is_v6}
use kk_proxy.Net.Address.Resolve.{AddrInfo}
use kk_proxy.Net.Address.Resolve

pub record Endpoint : Type 0 where
  pub address : Address
  pub domain : List ℕ

-- The constructor from an address alone; `ip_address` is that of the address.
abbrev pub of_address : (ip_address : Address → List ℕ) → Address → Endpoint
of_address ip_address a = record { address = a; domain = ip_address a }

-- `sin_port` or `sin6_port` as the word that it is in memory. `none`: the throw out of a function that is
-- `noexcept` ends the program.
unfoldable pub port : Endpoint → Option ℕ
port e =
    let raw : ℕ = get_or e.address.bytes 2 0 + get_or e.address.bytes 3 0 * 256 in
    if is_v4 e.address then some raw else if is_v6 e.address then some raw else none

-- `none`: the resolver throws.
unfoldable pub from :
    (inet_pton_v4 inet_pton_v6 : List ℕ → Option (List ℕ))
    → (getaddrinfo : List ℕ → Option (List AddrInfo)) → (host : List ℕ) (port : ℕ) → Option Endpoint
from inet_pton_v4 inet_pton_v6 getaddrinfo host port =
    elim (Resolve.from inet_pton_v4 inet_pton_v6 getaddrinfo host port) [
      | none ↦ none
      | some a ↦ some (record { address = a; domain = host })
    ]
