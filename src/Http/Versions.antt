-- ===== src/Http/Versions.antt =====
-- The names of versions in kkp/kkp-http/include/kkp/http/versions.hpp, as texts.
use Prim.Native.String.{String}
use kk_proxy.Common.{List, [], ◌∷◌}

abbrev pub tls_1_0 : String
tls_1_0 = "TLSv1.0"

abbrev pub tls_1_1 : String
tls_1_1 = "TLSv1.1"

abbrev pub tls_1_2 : String
tls_1_2 = "TLSv1.2"

abbrev pub tls_1_3 : String
tls_1_3 = "TLSv1.3"

abbrev pub http_1_0 : String
http_1_0 = "HTTP/1.0"

abbrev pub http_1_1 : String
http_1_1 = "HTTP/1.1"

abbrev pub http_2_0 : String
http_2_0 = "HTTP/2.0"

abbrev pub http_3_0 : String
http_3_0 = "HTTP/3.0"

-- TLS, from the oldest on.
abbrev pub tls_versions : List String
tls_versions = tls_1_0 ∷ tls_1_1 ∷ tls_1_2 ∷ tls_1_3 ∷ []

-- HTTP, from the oldest on.
abbrev pub http_versions : List String
http_versions = http_1_0 ∷ http_1_1 ∷ http_2_0 ∷ http_3_0 ∷ []
