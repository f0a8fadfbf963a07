-- ===== src/Http/HeaderNames.antt =====
-- The common header names of kkp/kkp-http/include/kkp/http/http_def.hpp, as texts.
pub mod Laws
use Prim.Native.String.{String}
use kk_proxy.Common.{List, [], ◌∷◌}

abbrev pub header_accept : String
header_accept = "Accept"

abbrev pub header_accept_charset : String
header_accept_charset = "Accept-Charset"

abbrev pub header_accept_encoding : String
header_accept_encoding = "Accept-Encoding"

abbrev pub header_accept_language : String
header_accept_language = "Accept-Language"

abbrev pub header_accept_ranges : String
header_accept_ranges = "Accept-Ranges"

abbrev pub header_access_control_allow_credentials : String
header_access_control_allow_credentials = "Access-Control-Allow-Credentials"

abbrev pub header_access_control_allow_headers : String
header_access_control_allow_headers = "Access-Control-Allow-Headers"

abbrev pub header_access_control_allow_methods : String
header_access_control_allow_methods = "Access-Control-Allow-Methods"

abbrev pub header_access_control_allow_origin : String
header_access_control_allow_origin = "Access-Control-Allow-Origin"

abbrev pub header_access_control_expose_headers : String
header_access_control_expose_headers = "Access-Control-Expose-Headers"

abbrev pub header_access_control_max_age : String
header_access_control_max_age = "Access-Control-Max-Age"

abbrev pub header_access_control_request_headers : String
header_access_control_request_headers = "Access-Control-Request-Headers"

abbrev pub header_access_control_request_method : String
header_access_control_request_method = "Access-Control-Request-Method"

abbrev pub header_age : String
header_age = "Age"

abbrev pub header_allow : String
header_allow = "Allow"

abbrev pub header_authorization : String
header_authorization = "Authorization"

abbrev pub header_cache_control : String
header_cache_control = "Cache-Control"

abbrev pub header_connection : String
header_connection = "Connection"

abbrev pub header_content_disposition : String
header_content_disposition = "Content-Disposition"

abbrev pub header_content_encoding : String
header_content_encoding = "Content-Encoding"

abbrev pub header_content_language : String
header_content_language = "Content-Language"

abbrev pub header_content_length : String
header_content_length = "Content-Length"

abbrev pub header_content_location : String
header_content_location = "Content-Location"

abbrev pub header_content_range : String
header_content_range = "Content-Range"

abbrev pub header_content_type : String
header_content_type = "Content-Type"

abbrev pub header_cookie : String
header_cookie = "Cookie"

abbrev pub header_date : String
header_date = "Date"

abbrev pub header_etag : String
header_etag = "ETag"

abbrev pub header_expect : String
header_expect = "Expect"

abbrev pub header_expires : String
header_expires = "Expires"

abbrev pub header_from : String
header_from = "From"

abbrev pub header_host : String
header_host = "Host"

abbrev pub header_if_match : String
header_if_match = "If-Match"

abbrev pub header_if_modified_since : String
header_if_modified_since = "If-Modified-Since"

abbrev pub header_if_none_match : String
header_if_none_match = "If-None-Match"

abbrev pub header_if_range : String
header_if_range = "If-Range"

abbrev pub header_if_unmodified_since : String
header_if_unmodified_since = "If-Unmodified-Since"

abbrev pub header_last_modified : String
header_last_modified = "Last-Modified"

abbrev pub header_link : String
header_link = "Link"

abbrev pub header_location : String
header_location = "Location"

abbrev pub header_max_forwards : String
header_max_forwards = "Max-Forwards"

abbrev pub header_origin : String
header_origin = "Origin"

abbrev pub header_pragma : String
header_pragma = "Pragma"

abbrev pub header_proxy_authenticate : String
header_proxy_authenticate = "Proxy-Authenticate"

abbrev pub header_proxy_authorization : String
header_proxy_authorization = "Proxy-Authorization"

abbrev pub header_range : String
header_range = "Range"

abbrev pub header_referer : String
header_referer = "Referer"

abbrev pub header_retry_after : String
header_retry_after = "Retry-After"

abbrev pub header_server : String
header_server = "Server"

abbrev pub header_set_cookie : String
header_set_cookie = "Set-Cookie"

abbrev pub header_strict_transport_security : String
header_strict_transport_security = "Strict-Transport-Security"

abbrev pub header_transfer_encoding : String
header_transfer_encoding = "Transfer-Encoding"

abbrev pub header_user_agent : String
header_user_agent = "User-Agent"

abbrev pub header_vary : String
header_vary = "Vary"

abbrev pub header_via : String
header_via = "Via"

abbrev pub header_warning : String
header_warning = "Warning"

abbrev pub header_www_authenticate : String
header_www_authenticate = "WWW-Authenticate"

abbrev pub header_x_frame_options : String
header_x_frame_options = "X-Frame-Options"

abbrev pub header_x_xss_protection : String
header_x_xss_protection = "X-XSS-Protection"

abbrev pub header_x_content_type_options : String
header_x_content_type_options = "X-Content-Type-Options"

abbrev pub header_x_forwarded_for : String
header_x_forwarded_for = "X-Forwarded-For"

abbrev pub header_x_forwarded_host : String
header_x_forwarded_host = "X-Forwarded-Host"

abbrev pub header_x_forwarded_proto : String
header_x_forwarded_proto = "X-Forwarded-Proto"

abbrev pub header_x_forwarded_server : String
header_x_forwarded_server = "X-Forwarded-Server"

abbrev pub header_x_real_ip : String
header_x_real_ip = "X-Real-IP"

abbrev pub header_x_requested_with : String
header_x_requested_with = "X-Requested-With"

abbrev pub header_x_ua_compatible : String
header_x_ua_compatible = "X-UA-Compatible"

abbrev pub header_x_forwarded : String
header_x_forwarded = "X-Forwarded"

abbrev pub header_x_forwarded_port : String
header_x_forwarded_port = "X-Forwarded-Port"

abbrev pub header_x_forwarded_path : String
header_x_forwarded_path = "X-Forwarded-Path"

abbrev pub header_x_csrf_token : String
header_x_csrf_token = "X-CSRF-Token"

abbrev pub header_x_content_security_policy : String
header_x_content_security_policy = "X-Content-Security-Policy"

abbrev pub header_x_content_security_policy_report_only : String
header_x_content_security_policy_report_only = "X-Content-Security-Policy-Report-Only"

abbrev pub header_x_webkit_csp : String
header_x_webkit_csp = "X-WebKit-CSP"

abbrev pub header_x_content_duration : String
header_x_content_duration = "X-Content-Duration"

abbrev pub header_x_powered_by : String
header_x_powered_by = "X-Powered-By"

abbrev pub header_x_request_id : String
header_x_request_id = "X-Request-ID"

abbrev pub header_x_correlation_id : String
header_x_correlation_id = "X-Correlation-ID"

abbrev pub header_x_robots_tag : String
header_x_robots_tag = "X-Robots-Tag"

-- All of them, in the order of the source.
abbrev pub common_headers : List String
common_headers =
    header_accept ∷ header_accept_charset ∷ header_accept_encoding ∷ header_accept_language
    ∷ header_accept_ranges ∷ header_access_control_allow_credentials
    ∷ header_access_control_allow_headers ∷ header_access_control_allow_methods
    ∷ header_access_control_allow_origin ∷ header_access_control_expose_headers
    ∷ header_access_control_max_age ∷ header_access_control_request_headers
    ∷ header_access_control_request_method ∷ header_age ∷ header_allow ∷ header_authorization
    ∷ header_cache_control ∷ header_connection ∷ header_content_disposition
    ∷ header_content_encoding ∷ header_content_language ∷ header_content_length
    ∷ header_content_location ∷ header_content_range ∷ header_content_type ∷ header_cookie
    ∷ header_date ∷ header_etag ∷ header_expect ∷ header_expires ∷ header_from ∷ header_host
    ∷ header_if_match ∷ header_if_modified_since ∷ header_if_none_match ∷ header_if_range
    ∷ header_if_unmodified_since ∷ header_last_modified ∷ header_link ∷ header_location
    ∷ header_max_forwards ∷ header_origin ∷ header_pragma ∷ header_proxy_authenticate
    ∷ header_proxy_authorization ∷ header_range ∷ header_referer ∷ header_retry_after
    ∷ header_server ∷ header_set_cookie ∷ header_strict_transport_security
    ∷ header_transfer_encoding ∷ header_user_agent ∷ header_vary ∷ header_via ∷ header_warning
    ∷ header_www_authenticate ∷ header_x_frame_options ∷ header_x_xss_protection
    ∷ header_x_content_type_options ∷ header_x_forwarded_for ∷ header_x_forwarded_host
    ∷ header_x_forwarded_proto ∷ header_x_forwarded_server ∷ header_x_real_ip
    ∷ header_x_requested_with ∷ header_x_ua_compatible ∷ header_x_forwarded
    ∷ header_x_forwarded_port ∷ header_x_forwarded_path ∷ header_x_csrf_token
    ∷ header_x_content_security_policy ∷ header_x_content_security_policy_report_only
    ∷ header_x_webkit_csp ∷ header_x_content_duration ∷ header_x_powered_by ∷ header_x_request_id
    ∷ header_x_correlation_id ∷ header_x_robots_tag ∷ []
