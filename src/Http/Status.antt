-- ===== src/Http/Status.antt =====
-- The status codes of kkp/kkp-http/include/kkp/http/http_def.hpp and their messages.
pub mod Laws
use Prim.Native.String.{String}
use kk_proxy.Common.{List, [], ◌∷◌, ℤ, pos, eq_ℤ, if◌then◌else◌}

abbrev pub status_continue : ℤ
status_continue = pos 100

abbrev pub status_switching_protocols : ℤ
status_switching_protocols = pos 101

abbrev pub status_processing : ℤ
status_processing = pos 102

abbrev pub status_ok : ℤ
status_ok = pos 200

abbrev pub status_created : ℤ
status_created = pos 201

abbrev pub status_accepted : ℤ
status_accepted = pos 202

abbrev pub status_non_authoritative_information : ℤ
status_non_authoritative_information = pos 203

abbrev pub status_no_content : ℤ
status_no_content = pos 204

abbrev pub status_reset_content : ℤ
status_reset_content = pos 205

abbrev pub status_partial_content : ℤ
status_partial_content = pos 206

abbrev pub status_multi_status : ℤ
status_multi_status = pos 207

abbrev pub status_already_reported : ℤ
status_already_reported = pos 208

abbrev pub status_im_used : ℤ
status_im_used = pos 226

abbrev pub status_multiple_choices : ℤ
status_multiple_choices = pos 300

abbrev pub status_moved_permanently : ℤ
status_moved_permanently = pos 301

abbrev pub status_found : ℤ
status_found = pos 302

abbrev pub status_see_other : ℤ
status_see_other = pos 303

abbrev pub status_not_modified : ℤ
status_not_modified = pos 304

abbrev pub status_use_proxy : ℤ
status_use_proxy = pos 305

abbrev pub status_switch_proxy : ℤ
status_switch_proxy = pos 306

abbrev pub status_temporary_redirect : ℤ
status_temporary_redirect = pos 307

abbrev pub status_permanent_redirect : ℤ
status_permanent_redirect = pos 308

abbrev pub status_bad_request : ℤ
status_bad_request = pos 400

abbrev pub status_unauthorized : ℤ
status_unauthorized = pos 401

abbrev pub status_payment_required : ℤ
status_payment_required = pos 402

abbrev pub status_forbidden : ℤ
status_forbidden = pos 403

abbrev pub status_not_found : ℤ
status_not_found = pos 404

abbrev pub status_method_not_allowed : ℤ
status_method_not_allowed = pos 405

abbrev pub status_not_acceptable : ℤ
status_not_acceptable = pos 406

abbrev pub status_proxy_authentication_required : ℤ
status_proxy_authentication_required = pos 407

abbrev pub status_request_timeout : ℤ
status_request_timeout = pos 408

abbrev pub status_conflict : ℤ
status_conflict = pos 409

abbrev pub status_gone : ℤ
status_gone = pos 410

abbrev pub status_length_required : ℤ
status_length_required = pos 411

abbrev pub status_precondition_failed : ℤ
status_precondition_failed = pos 412

abbrev pub status_payload_too_large : ℤ
status_payload_too_large = pos 413

abbrev pub status_uri_too_long : ℤ
status_uri_too_long = pos 414

abbrev pub status_unsupported_media_type : ℤ
status_unsupported_media_type = pos 415

abbrev pub status_range_not_satisfiable : ℤ
status_range_not_satisfiable = pos 416

abbrev pub status_expectation_failed : ℤ
status_expectation_failed = pos 417

abbrev pub status_im_a_teapot : ℤ
status_im_a_teapot = pos 418

abbrev pub status_misdirected_request : ℤ
status_misdirected_request = pos 421

abbrev pub status_unprocessable_entity : ℤ
status_unprocessable_entity = pos 422

abbrev pub status_locked : ℤ
status_locked = pos 423

abbrev pub status_failed_dependency : ℤ
status_failed_dependency = pos 424

abbrev pub status_upgrade_required : ℤ
status_upgrade_required = pos 426

abbrev pub status_precondition_required : ℤ
status_precondition_required = pos 428

abbrev pub status_too_many_requests : ℤ
status_too_many_requests = pos 429

abbrev pub status_request_header_fields_too_large : ℤ
status_request_header_fields_too_large = pos 431

abbrev pub status_unavailable_for_legal_reasons : ℤ
status_unavailable_for_legal_reasons = pos 451

abbrev pub status_internal_server_error : ℤ
status_internal_server_error = pos 500

abbrev pub status_not_implemented : ℤ
status_not_implemented = pos 501

abbrev pub status_bad_gateway : ℤ
status_bad_gateway = pos 502

abbrev pub status_service_unavailable : ℤ
status_service_unavailable = pos 503

abbrev pub status_gateway_timeout : ℤ
status_gateway_timeout = pos 504

abbrev pub status_http_version_not_supported : ℤ
status_http_version_not_supported = pos 505

abbrev pub status_variant_also_negotiates : ℤ
status_variant_also_negotiates = pos 506

abbrev pub status_insufficient_storage : ℤ
status_insufficient_storage = pos 507

abbrev pub status_loop_detected : ℤ
status_loop_detected = pos 508

abbrev pub status_not_extended : ℤ
status_not_extended = pos 510

abbrev pub status_network_authentication_required : ℤ
status_network_authentication_required = pos 511

abbrev pub header_unknown : String
header_unknown = "Unknown Status"

abbrev pub status_map : List (ℤ × String)
status_map =
    (status_continue, "Continue")
    ∷ (status_switching_protocols, "Switching Protocols")
    ∷ (status_processing, "Processing")
    ∷ (status_ok, "OK")
    ∷ (status_created, "Created")
    ∷ (status_accepted, "Accepted")
    ∷ (status_non_authoritative_information, "Non-Authoritative Information")
    ∷ (status_no_content, "No Content")
    ∷ (status_reset_content, "Reset Content")
    ∷ (status_partial_content, "Partial Content")
    ∷ (status_multi_status, "Multi-Status")
    ∷ (status_already_reported, "Already Reported")
    ∷ (status_im_used, "IM Used")
    ∷ (status_multiple_choices, "Multiple Choices")
    ∷ (status_moved_permanently, "Moved Permanently")
    ∷ (status_found, "Found")
    ∷ (status_see_other, "See Other")
    ∷ (status_not_modified, "Not Modified")
    ∷ (status_use_proxy, "Use Proxy")
    ∷ (status_switch_proxy, "Switch Proxy")
    ∷ (status_temporary_redirect, "Temporary Redirect")
    ∷ (status_permanent_redirect, "Permanent Redirect")
    ∷ (status_bad_request, "Bad Request")
    ∷ (status_unauthorized, "Unauthorized")
    ∷ (status_payment_required, "Payment Required")
    ∷ (status_forbidden, "Forbidden")
    ∷ (status_not_found, "Not Found")
    ∷ (status_method_not_allowed, "Method Not Allowed")
    ∷ (status_not_acceptable, "Not Acceptable")
    ∷ (status_proxy_authentication_required, "Proxy Authentication Required")
    ∷ (status_request_timeout, "Request Timeout")
    ∷ (status_conflict, "Conflict")
    ∷ (status_gone, "Gone")
    ∷ (status_length_required, "Length Required")
    ∷ (status_precondition_failed, "Precondition Failed")
    ∷ (status_payload_too_large, "Payload Too Large")
    ∷ (status_uri_too_long, "URI TooLong")
    ∷ (status_unsupported_media_type, "Unsupported Media Type")
    ∷ (status_range_not_satisfiable, "Range Not Satisfiable")
    ∷ (status_expectation_failed, "Expectation Failed")
    ∷ (status_im_a_teapot, "I'm a teapot")
    ∷ (status_misdirected_request, "Misdirected Request")
    ∷ (status_unprocessable_entity, "Unprocessable Entity")
    ∷ (status_locked, "Locked")
    ∷ (status_failed_dependency, "Failed Dependency")
    ∷ (status_upgrade_required, "Upgrade Required")
    ∷ (status_precondition_required, "Precondition Required")
    ∷ (status_too_many_requests, "Too Many Requests")
    ∷ (status_request_header_fields_too_large, "Request Header Fields Too Large")
    ∷ (status_unavailable_for_legal_reasons, "Unavailable For Legal Reasons")
    ∷ (status_internal_server_error, "Internal Server Error")
    ∷ (status_not_implemented, "Not Implemented")
    ∷ (status_bad_gateway, "Bad Gateway")
    ∷ (status_service_unavailable, "Service Unavailable")
    ∷ (status_gateway_timeout, "Gateway Timeout")
    ∷ (status_http_version_not_supported, "HTTP Version Not Supported")
    ∷ (status_variant_also_negotiates, "Variant Also Negotiates")
    ∷ (status_insufficient_storage, "Insufficient Storage")
    ∷ (status_loop_detected, "Loop Detected")
    ∷ (status_not_extended, "Not Extended")
    ∷ (status_network_authentication_required, "Network Authentication Required")
    ∷ []

-- The `for` loop over the table.
pub message_in : List (ℤ × String) → ℤ → String
message_in [] status = header_unknown
message_in ((s, msg) ∷ rest) status = if eq_ℤ s status then msg else message_in rest status

unfoldable pub get_status_message : ℤ → String
unfolding message_in
get_status_message status = message_in status_map status
