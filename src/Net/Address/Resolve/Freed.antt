-- ===== src/Net/Address/Resolve/Freed.antt =====
-- `parse_from_domain` and `address::from` of kkp/kkp-core/src/net/address.cpp with the list that
-- getaddrinfo allocates and that KKP_DEFER frees, on a state `K` of the C library.
use kk_proxy.Common.{
  ℕ, ◌≡◌, refl, ap, ◌∙◌, sym, inl, inr, ◌⊎◌, Option, Option-cases, none, some, List, ◌∷◌,
}
use kk_proxy.ErrorCode.{ErrorCode, Result, ok, unexpected}
use kk_proxy.Utils.Defer.{defer}
use kk_proxy.Net.Address.{Address, parse_from_ip}
use kk_proxy.Net.Address.Resolve.{AddrInfo, first_of}
use kk_proxy.Net.Address.Resolve

-- getaddrinfo gives the address of the first entry with the entries, or an error.
pub record Resolver (K : Type 0) : Type 0 where
  pub getaddrinfo : List ℕ → K → Option (ℕ × List AddrInfo) × K
  pub freeaddrinfo : ℕ → K → K

module _ {K : Type 0} (R : Resolver K) where
  -- `none` stands for a `throw`. Where getaddrinfo fails, it is before the KKP_DEFER.
  unfoldable pub parse_from_domain : (addr : List ℕ) (port : ℕ) → K → Option Address × K
  parse_from_domain addr port k =
      let (found, k') = R.getaddrinfo addr k in
      elim found [
        | none ↦ (none, k')
        | some (res, es) ↦ defer (R.freeaddrinfo res) (λ k. (first_of es port, k)) k'
      ]

  unfoldable pub from :
      (inet_pton_v4 inet_pton_v6 : List ℕ → Option (List ℕ))
      → (addr : List ℕ) (port : ℕ) → K
      → Option Address × K
  unfolding parse_from_domain
  from inet_pton_v4 inet_pton_v6 addr port k =
      elim (parse_from_ip inet_pton_v4 inet_pton_v6 addr port) [
        | ok a ↦ (some a, k)
        | unexpected e ↦ parse_from_domain addr port k
      ]

-- getaddrinfo(3): a list that it gives is allocated until freeaddrinfo frees it.
pub record IsResolver {K : Type 0} (R : Resolver K) : Type 0 where
  pub allocated : K → List ℕ
  pub freed : K → List ℕ
  pub getaddrinfo-some :
      (addr : List ℕ) (k : K) (res : ℕ) (es : List AddrInfo)
      → (R.getaddrinfo addr k).0 ≡ some (res, es)
      → let k' = (R.getaddrinfo addr k).1 in
        (allocated k' ≡ res ∷ allocated k) × (freed k' ≡ freed k)
  pub getaddrinfo-none :
      (addr : List ℕ) (k : K)
      → (R.getaddrinfo addr k).0 ≡ none
      → let k' = (R.getaddrinfo addr k).1 in (allocated k' ≡ allocated k) × (freed k' ≡ freed k)
  pub freeaddrinfo_lem :
      (res : ℕ) (k : K)
      → (allocated (R.freeaddrinfo res k) ≡ allocated k)
        × (freed (R.freeaddrinfo res k) ≡ res ∷ freed k)

-- What getaddrinfo gives, without the state.
abbrev pub entries : {K : Type 0} → Resolver K → K → List ℕ → Option (List AddrInfo)
entries R k addr = elim (R.getaddrinfo addr k).0 [ none ↦ none | some (res, es) ↦ some es ]

Result-cases :
    {A : Type 0} (r : Result A) → ((a : A) × (r ≡ ok a)) ⊎ ((e : ErrorCode) × (r ≡ unexpected e))
Result-cases (ok a) = inl (a, refl)
Result-cases (unexpected e) = inr (e, refl)

module _ {K : Type 0} (R : Resolver K) (I : IsResolver R) (k : K) (addr : List ℕ) (port : ℕ) where
  open I use {allocated, freed}

  parse_from_domain_lem :
      allocated k ≡ freed k
      → let (t, k') = parse_from_domain R addr port k in
        (t ≡ Resolve.parse_from_domain (entries R k) addr port) × (allocated k' ≡ freed k')
  unfolding parse_from_domain Resolve.parse_from_domain
  parse_from_domain_lem balanced = elim (Option-cases (R.getaddrinfo addr k).0) [
    | inl e ↦
        let (a, f) = I.getaddrinfo-none addr k e in
        rw (e, parse_from_domain, Resolve.parse_from_domain) (refl, a ∙ balanced ∙ sym f)
    | inr ((res, es), e) ↦
        let (a, f) = I.getaddrinfo-some addr k res es e in
        let (a', f') = I.freeaddrinfo_lem res (R.getaddrinfo addr k).1 in
        rw (e, parse_from_domain, Resolve.parse_from_domain)
          (refl, a' ∙ a ∙ ap (λ xs. res ∷ xs) (balanced ∙ sym f) ∙ sym f')
  ]

  -- `from` gives an address, or throws, as it does without the state; and when every list of getaddrinfo
  -- was freed once before the call, every list has been freed once after it, whether the address was
  -- found, or the list had none, or getaddrinfo failed, or it was not called.
  pub from_lem :
      (inet_pton_v4 inet_pton_v6 : List ℕ → Option (List ℕ))
      → allocated k ≡ freed k
      → let (t, k') = from R inet_pton_v4 inet_pton_v6 addr port k in
        (t ≡ Resolve.from inet_pton_v4 inet_pton_v6 (entries R k) addr port)
        × (allocated k' ≡ freed k')
  unfolding from Resolve.from
  from_lem pton_v4 pton_v6 balanced =
      elim (Result-cases (parse_from_ip pton_v4 pton_v6 addr port)) [
        | inl (a, e) ↦ rw (e, from, Resolve.from) (refl, balanced)
        | inr (x, e) ↦ rw (e, from, Resolve.from) (parse_from_domain_lem balanced)
      ]
