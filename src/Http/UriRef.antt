-- ===== src/Http/UriRef.antt =====
-- `uri_ref` of kkp/kkp-http/include/kkp/http/http_common.hpp, its texts as lists of bytes.
use kk_proxy.Common.{ℕ, List}

pub record UriRef : Type 0 where
  pub scheme : List ℕ
  pub host : List ℕ
  pub path : List ℕ
  pub raw_path : List ℕ
  pub raw_query : List ℕ
  pub fragment : List ℕ
