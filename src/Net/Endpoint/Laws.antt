-- ===== src/Net/Endpoint/Laws.antt =====
-- Which port an endpoint reports.
use kk_proxy.Common.{
  ℕ, ◌+◌, ◌*◌, ◌/◌, ◌%◌, ◌<◌, ◌^◌, ◌≡◌, refl, ◌↔◌, ◌∙◌, inl, inr, true, false, Option, some, List,
  [], ◌∷◌, arith, ◌==◌, if◌then◌else◌, Bool, Option-cases, ap, take, drop, length, length-append,
  length-take, length-drop, ◌≤◌,
}
use kk_proxy.ErrorCode.{Result, ok, unexpected}
use kk_proxy.Net.Address.{Address, address, write_at, htons, fill, parse_from_ip}
use kk_proxy.Net.Address.Resolve.{AddrInfo, copy_from, first_of, parse_from_domain}
use kk_proxy.Net.Address.Resolve
use kk_proxy.Net.Endpoint.{Endpoint, port, from}

-- The two bytes of a port the other way round.
abbrev pub swapped : ℕ → ℕ
swapped p = p / 256 % 256 + p % 256 * 256

-- An address of one of the two families that holds this port, as the code stores it.
abbrev pub Holds : ℕ → Address → Type 0
Holds p a = (host : List ℕ) → port (record { address = a; domain = host }) ≡ some (swapped p)

fill-Holds : (p : ℕ) (ip : List ℕ) → Holds p (fill 2 4 ip p) × Holds p (fill 10 8 ip p)
unfolding port
fill-Holds p ip = ((λ host. refl), (λ host. refl))

-- The family and the port written over any two bytes or more.
written-Holds :
    (p n : ℕ) (ys : List ℕ)
    → 2 ≤ length ys
    → let a = λ (family : ℕ).
      write_at 0 (family ∷ 0 ∷ []) (write_at 2 (htons p) (record { bytes = ys; overrun = n })) in
      Holds p (a 2) × Holds p (a 10)
unfolding port
written-Holds p n [] h = absurd (omega arith)
written-Holds p n (x ∷ []) h = absurd (omega arith)
written-Holds p n (x ∷ y ∷ ys) h = ((λ host. refl), (λ host. refl))

copy_from-Holds :
    (p size : ℕ) (xs : List ℕ) → Holds p (copy_from size 2 xs p) × Holds p (copy_from size 10 xs p)
copy_from-Holds p size xs =
    let a : Address = write_at 0 (take size xs) address in
    written-Holds p a.overrun a.bytes (
      omega (
        arith,
        length-append (take 16 (take size xs)) (drop (0 + length (take size xs)) address.bytes),
        length-take 16 (take size xs),
        length-drop (0 + length (take size xs)) address.bytes,
      ))

some-Holds : (p : ℕ) (x a : Address) → Holds p x → some x ≡ some a → Holds p a
some-Holds p x a h e = let q : x ≡ a = cc in rw (← q) h

ok-Holds : (p : ℕ) (x a : Address) → Holds p x → ok x ≡ ok a → Holds p a
ok-Holds p x a h e = let q : x ≡ a = cc in rw (← q) h

choice-Holds :
    (p : ℕ) (b c : Bool) (x y : Address) (rest : Option Address)
    → Holds p x
    → Holds p y
    → ((a : Address) → rest ≡ some a → Holds p a)
    → (a : Address) → (if b then some x else if c then some y else rest) ≡ some a
    → Holds p a
choice-Holds p true c x y rest h k ih a e = some-Holds p x a h e
choice-Holds p false true x y rest h k ih a e = some-Holds p y a k e
choice-Holds p false false x y rest h k ih a e = ih a e

first_of-Holds : (p : ℕ) (es : List AddrInfo) (a : Address) → first_of es p ≡ some a → Holds p a
unfolding first_of
first_of-Holds p [] a h = cc
first_of-Holds p (e ∷ es) a h =
    choice-Holds p (e.ai_family == 2) (e.ai_family == 10) (copy_from 16 2 e.ai_addr p)
      (copy_from 28 10 e.ai_addr p) (first_of es p) (copy_from-Holds p 16 e.ai_addr).0
      (copy_from-Holds p 28 e.ai_addr).1 (first_of-Holds p es) a h

module _ (pton_v4 pton_v6 : List ℕ → Option (List ℕ))
    (getaddrinfo : List ℕ → Option (List AddrInfo)) (host : List ℕ) (p : ℕ) where
  parse_from_ip-Holds : (a : Address) → parse_from_ip pton_v4 pton_v6 host p ≡ ok a → Holds p a
  unfolding parse_from_ip
  parse_from_ip-Holds a e = elim (Option-cases (pton_v4 host)) [
    | inl none4 ↦ elim (Option-cases (pton_v6 host)) [
      | inl none6 ↦ cc (rw (none4, none6, parse_from_ip) at e)
      | inr (ip, some6) ↦
          ok-Holds p (fill 10 8 ip p) a (fill-Holds p ip).1 (rw (none4, some6, parse_from_ip) at e)
    ]
    | inr (ip, some4) ↦
        ok-Holds p (fill 2 4 ip p) a (fill-Holds p ip).0 (rw (some4, parse_from_ip) at e)
  ]

  parse_from_domain-Holds :
      (a : Address) → parse_from_domain getaddrinfo host p ≡ some a → Holds p a
  unfolding parse_from_domain
  parse_from_domain-Holds a e = elim (Option-cases (getaddrinfo host)) [
    | inl failed ↦ cc (rw (failed, parse_from_domain) at e)
    | inr (es, got) ↦ first_of-Holds p es a (rw (got, parse_from_domain) at e)
  ]

  either-Holds :
      (r : Result Address)
      → parse_from_ip pton_v4 pton_v6 host p ≡ r
      → (a : Address) → Resolve.from pton_v4 pton_v6 getaddrinfo host p ≡ some a
      → Holds p a
  unfolding Resolve.from
  either-Holds (ok x) e a h = some-Holds p x a (parse_from_ip-Holds x e) (rw (e, Resolve.from) at h)
  either-Holds (unexpected x) e a h = parse_from_domain-Holds a (rw (e, Resolve.from) at h)

  -- Whenever an endpoint is made from a host and a port of 16 bits, by reading an address of either
  -- family or by the resolver, it keeps the host, and its `port` is the port with the two bytes swapped:
  -- the port that was asked for only if its bytes are the same.
  pub port-from :
      (e : Endpoint)
      → p < 2 ^ 16
      → from pton_v4 pton_v6 getaddrinfo host p ≡ some e
      → (e.domain ≡ host)
        × (port e ≡ some (p / 256 + p % 256 * 256))
        × ((port e ≡ some p) ↔ (p / 256 ≡ p % 256))
  unfolding from
  port-from e small made = elim (Option-cases (Resolve.from pton_v4 pton_v6 getaddrinfo host p)) [
    | inl failed ↦ cc (rw (failed, from) at made)
    | inr (a, got) ↦
        let q : record { address = a; domain = host } ≡ e = cc (rw (got, from) at made) in
        let h : port (record { address = a; domain = host }) ≡ some (swapped p) =
          either-Holds (parse_from_ip pton_v4 pton_v6 host p) refl a got host in
        let same : swapped p ≡ p / 256 + p % 256 * 256 = omega (arith, small) in
        rw (← q) (
          refl,
          h ∙ ap some same,
          (
            (λ r. let v : swapped p ≡ p = cc in omega (arith, v, small)),
            (λ r. h ∙ ap some (omega (arith, r, small))),
          ),
        )
  ]
