-- ===== src/Http/Methods.antt =====
-- The request methods of kkp/kkp-http/include/kkp/http/http_def.hpp, as texts.
use Prim.Native.String.{String}
use kk_proxy.Common.{List, [], ◌∷◌}

abbrev pub method_get : String
method_get = "GET"

abbrev pub method_post : String
method_post = "POST"

abbrev pub method_put : String
method_put = "PUT"

abbrev pub method_delete : String
method_delete = "DELETE"

abbrev pub method_head : String
method_head = "HEAD"

abbrev pub method_options : String
method_options = "OPTIONS"

abbrev pub method_trace : String
method_trace = "TRACE"

abbrev pub method_connect : String
method_connect = "CONNECT"

abbrev pub method_patch : String
method_patch = "PATCH"

-- All of them, in the order of the source.
abbrev pub methods : List String
methods =
    method_get ∷ method_post ∷ method_put ∷ method_delete ∷ method_head ∷ method_options
    ∷ method_trace ∷ method_connect ∷ method_patch ∷ []
