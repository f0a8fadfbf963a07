-- ===== src/Http/ContentTypes.antt =====
-- The content types and encodings of kkp/kkp-http/include/kkp/http/http_def.hpp, as texts.
use Prim.Native.String.{String}
use kk_proxy.Common.{List, [], ◌∷◌}

abbrev pub content_type_application_json : String
content_type_application_json = "application/json"

abbrev pub content_type_application_xml : String
content_type_application_xml = "application/xml"

abbrev pub content_type_application_x_www_form_urlencoded : String
content_type_application_x_www_form_urlencoded = "application/x-www-form-urlencoded"

abbrev pub content_type_application_octet_stream : String
content_type_application_octet_stream = "application/octet-stream"

abbrev pub content_type_text_plain : String
content_type_text_plain = "text/plain"

abbrev pub content_type_text_html : String
content_type_text_html = "text/html"

abbrev pub content_type_text_xml : String
content_type_text_xml = "text/xml"

abbrev pub content_encoding_gzip : String
content_encoding_gzip = "gzip"

abbrev pub content_encoding_deflate : String
content_encoding_deflate = "deflate"

abbrev pub content_encoding_br : String
content_encoding_br = "br"

-- All types, in the order of the source.
abbrev pub content_types : List String
content_types =
    content_type_application_json ∷ content_type_application_xml
    ∷ content_type_application_x_www_form_urlencoded ∷ content_type_application_octet_stream
    ∷ content_type_text_plain ∷ content_type_text_html ∷ content_type_text_xml ∷ []

-- All encodings, in the order of the source.
abbrev pub content_encodings : List String
content_encodings = content_encoding_gzip ∷ content_encoding_deflate ∷ content_encoding_br ∷ []
