-- ===== src/Tests/Addresses.antt =====
-- Runs of kkp/kkp-core/src/net/address.cpp, with a parser that knows one address of each family.
use kk_proxy.Common.{
  ◌⊎◌, ◌≢◌, pos, some-injective, ap, sym, ℕ, ◌/◌, ◌%◌, ◌↔◌, arith, ◌≡◌, refl, true, Option, none,
  some, List, [], ◌∷◌, length, take, drop, replicate,
}
use kk_proxy.ErrorCode.{ok, unexpected, generic}
use kk_proxy.Net.Address.{Address, is_v4, is_v6, htons, fill, parse_from_ip}
use kk_proxy.Net.Address.Laws.{parse_from_ip_lem}
use kk_proxy.Net.Address.Resolve.{AddrInfo}
use kk_proxy.Net.Address.Resolve.Freed.{Resolver, IsResolver, entries, from_lem}
use kk_proxy.Net.Address.Resolve.Freed
use kk_proxy.Net.Address.Resolve
use kk_proxy.Net.Endpoint.{Endpoint, port, from}
use kk_proxy.Net.Endpoint.Laws.{port-from}

abbrev pton_v4 : List ℕ → Option (List ℕ)
pton_v4 [] = some (127 ∷ 0 ∷ 0 ∷ 1 ∷ [])
pton_v4 (x ∷ xs) = none

abbrev pton_v6 : List ℕ → Option (List ℕ)
pton_v6 xs = some (replicate 16 1)

pton_v4-length : (xs ip : List ℕ) → pton_v4 xs ≡ some ip → length ip ≡ 4
pton_v4-length [] ip e = ap length (sym (some-injective _ _ e))
pton_v4-length (x ∷ xs) ip e = cc

pton_v6-length : (xs ip : List ℕ) → pton_v6 xs ≡ some ip → length ip ≡ 16
pton_v6-length xs ip e = ap length (sym (some-injective _ _ e))

abbrev colon : List ℕ
colon = b':' ∷ []

parse_from_ip_lem_example :
    let r = parse_from_ip pton_v4 pton_v6 colon 8080 in
    ((ip : List ℕ) × (t : Address) × (pton_v4 colon ≡ some ip)
      × (r ≡ ok t)
      × (is_v4 t ≡ true)
      × (take 2 (drop 2 t.bytes) ≡ htons 8080)
      × (take 4 (drop 4 t.bytes) ≡ ip)
      × (length t.bytes ≡ 16)
      × (t.overrun ≡ 0))
    ⊎ ((ip : List ℕ) × (t : Address) × (pton_v4 colon ≡ none)
        × (pton_v6 colon ≡ some ip)
        × (r ≡ ok t)
        × (is_v6 t ≡ true)
        × (t.overrun ≡ 8))
    ⊎ ((pton_v4 colon ≡ none)
        × (pton_v6 colon ≡ none)
        × (r ≡ unexpected (record { value = pos 0; category = generic })))
parse_from_ip_lem_example =
    parse_from_ip_lem pton_v4 pton_v6 colon 8080 pton_v4-length pton_v6-length

abbrev no_host : List ℕ → Option (List AddrInfo)
no_host xs = none

abbrev local : Endpoint
local = record { address = fill 2 4 (127 ∷ 0 ∷ 0 ∷ 1 ∷ []) 8080; domain = [] }

-- 8080 is 0x1F90, and 36895 is 0x901F.
port-from_example :
    (local.domain ≡ [])
    × (port local ≡ some 36895)
    × ((port local ≡ some 8080) ↔ (8080 / 256 ≡ 8080 % 256))
unfolding parse_from_ip Resolve.from from
port-from_example = port-from pton_v4 pton_v6 no_host [] 8080 local (omega arith) refl

-- A resolver with the allocated lists and the freed ones. It knows no address of the one family that it
-- gives, so that `from` throws.
abbrev Lists : Type 0
Lists = List ℕ × List ℕ

abbrev unknown_family : List AddrInfo
unknown_family = record { ai_family = 1; ai_addr = [] } ∷ []

abbrev resolver : Resolver Lists
resolver = record {
  getaddrinfo = λ addr (a, f). (some (77, unknown_family), (77 ∷ a, f));
  freeaddrinfo = λ res (a, f). (a, res ∷ f);
}

abbrev pton_none : List ℕ → Option (List ℕ)
pton_none xs = none

given :
    (addr : List ℕ) (k : Lists) (res : ℕ) (es : List AddrInfo)
    → (resolver.getaddrinfo addr k).0 ≡ some (res, es)
    → 77 ∷ k.0 ≡ res ∷ k.0
given addr k res es e = ap (λ (x, _). x ∷ k.0) (some-injective _ _ e)

given_some : (addr : List ℕ) (k : Lists) → (resolver.getaddrinfo addr k).0 ≢ none
given_some addr k = λ e. cc

abbrev resolver-IsResolver : IsResolver resolver
resolver-IsResolver = record {
  allocated = λ (a, f). a;
  freed = λ (a, f). f;
  getaddrinfo-some = λ addr k res es e. (given addr k res es e, refl);
  getaddrinfo-none = λ addr k e. absurd (given_some addr k e);
  freeaddrinfo_lem = λ res k. (refl, refl);
}

from_lem_example :
    let (t, k') = Freed.from resolver pton_none pton_none colon 80 ([], []) in
    (t ≡ Resolve.from pton_none pton_none (entries resolver ([], [])) colon 80) × (k'.0 ≡ k'.1)
from_lem_example = from_lem resolver resolver-IsResolver ([], []) colon 80 pton_none pton_none refl
