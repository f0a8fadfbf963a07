-- ===== src/Net/Tcp.antt =====
-- `tcp` of kkp/kkp-core/include/kkp/net/tcp.hpp: which family of addresses.
use kk_proxy.Common.{ℕ, Bool, ◌==◌}

pub record Tcp : Type 0 where
  pub protocol_family : ℕ

-- AF_INET and AF_INET6
abbrev pub v4 : Tcp
v4 = record { protocol_family = 2 }

abbrev pub v6 : Tcp
v6 = record { protocol_family = 10 }

-- The default constructor.
abbrev pub tcp : Tcp
tcp = v4

-- operator==
abbrev pub same : Tcp → Tcp → Bool
same lhs rhs = lhs.protocol_family == rhs.protocol_family
