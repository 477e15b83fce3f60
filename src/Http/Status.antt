-- ===== src/Http/Status.antt =====
-- `HttpStatusCode` and its reason phrases, of include/http_status.hpp.
use gouda_http_server.Common.{ℕ, ◌&&◌, not, List, [], ◌∷◌, ltb, ◌==◌, if◌then◌else◌}
use gouda_http_server.Common.Bytes.{Bytes, codes, eq}

pub data HttpStatusCode : Type 0 where
  continue switching_protocols processing early_hints ok created accepted : HttpStatusCode
  non_authoritative_information no_content reset_content partial_content multi_status :
      HttpStatusCode
  already_reported im_used multiple_choices moved_permanently found see_other not_modified :
      HttpStatusCode
  use_proxy switch_proxy temporary_redirect permanent_redirect bad_request unauthorized :
      HttpStatusCode
  payment_required forbidden not_found method_not_allowed not_acceptable : HttpStatusCode
  proxy_authentication_required request_timeout conflict gone length_required : HttpStatusCode
  precondition_failed payload_too_large uri_too_long unsupported_media_type : HttpStatusCode
  range_not_satisfiable expectation_failed im_a_teapot misdirected_request : HttpStatusCode
  unprocessable_entity locked failed_dependency too_early upgrade_required : HttpStatusCode
  precondition_required too_many_requests request_header_fields_too_large : HttpStatusCode
  unavailable_for_legal_reasons internal_server_error not_implemented bad_gateway : HttpStatusCode
  service_unavailable gateway_timeout http_version_not_supported variant_also_negotiates :
      HttpStatusCode
  insufficient_storage loop_detected not_extended network_authentication_required : HttpStatusCode

-- `static_cast<u16>(code)`.
unfoldable pub status_number : HttpStatusCode → ℕ
status_number continue = 100
status_number switching_protocols = 101
status_number processing = 102
status_number early_hints = 103
status_number ok = 200
status_number created = 201
status_number accepted = 202
status_number non_authoritative_information = 203
status_number no_content = 204
status_number reset_content = 205
status_number partial_content = 206
status_number multi_status = 207
status_number already_reported = 208
status_number im_used = 226
status_number multiple_choices = 300
status_number moved_permanently = 301
status_number found = 302
status_number see_other = 303
status_number not_modified = 304
status_number use_proxy = 305
status_number switch_proxy = 306
status_number temporary_redirect = 307
status_number permanent_redirect = 308
status_number bad_request = 400
status_number unauthorized = 401
status_number payment_required = 402
status_number forbidden = 403
status_number not_found = 404
status_number method_not_allowed = 405
status_number not_acceptable = 406
status_number proxy_authentication_required = 407
status_number request_timeout = 408
status_number conflict = 409
status_number gone = 410
status_number length_required = 411
status_number precondition_failed = 412
status_number payload_too_large = 413
status_number uri_too_long = 414
status_number unsupported_media_type = 415
status_number range_not_satisfiable = 416
status_number expectation_failed = 417
status_number im_a_teapot = 418
status_number misdirected_request = 421
status_number unprocessable_entity = 422
status_number locked = 423
status_number failed_dependency = 424
status_number too_early = 425
status_number upgrade_required = 426
status_number precondition_required = 428
status_number too_many_requests = 429
status_number request_header_fields_too_large = 431
status_number unavailable_for_legal_reasons = 451
status_number internal_server_error = 500
status_number not_implemented = 501
status_number bad_gateway = 502
status_number service_unavailable = 503
status_number gateway_timeout = 504
status_number http_version_not_supported = 505
status_number variant_also_negotiates = 506
status_number insufficient_storage = 507
status_number loop_detected = 508
status_number not_extended = 510
status_number network_authentication_required = 511

-- The entries of `http_status_messages` that are set, by index.
pub status_messages : List (ℕ × Bytes)
status_messages =
    (100, codes "Continue")
    ∷ (101, codes "Switching Protocols")
    ∷ (102, codes "Processing")
    ∷ (103, codes "Early Hints")
    ∷ (200, codes "OK")
    ∷ (201, codes "Created")
    ∷ (202, codes "Accepted")
    ∷ (203, codes "Non-Authoritative Information")
    ∷ (204, codes "No Content")
    ∷ (205, codes "Reset Content")
    ∷ (206, codes "Partial Content")
    ∷ (207, codes "Multi-Status")
    ∷ (208, codes "Already Reported")
    ∷ (226, codes "IM Used")
    ∷ (300, codes "Multiple Choices")
    ∷ (301, codes "Moved Permanently")
    ∷ (302, codes "Found")
    ∷ (303, codes "See Other")
    ∷ (304, codes "Not Modified")
    ∷ (305, codes "Use Proxy")
    ∷ (306, codes "Switch Proxy")
    ∷ (307, codes "Temporary Redirect")
    ∷ (308, codes "Permanent Redirect")
    ∷ (400, codes "Bad Request")
    ∷ (401, codes "Unauthorized")
    ∷ (402, codes "Payment Required")
    ∷ (403, codes "Forbidden")
    ∷ (404, codes "Not Found")
    ∷ (405, codes "Method Not Allowed")
    ∷ (406, codes "Not Acceptable")
    ∷ (407, codes "Proxy Authentication Required")
    ∷ (408, codes "Request Timeout")
    ∷ (409, codes "Conflict")
    ∷ (410, codes "Gone")
    ∷ (411, codes "Length Required")
    ∷ (412, codes "Precondition Failed")
    ∷ (413, codes "Payload Too Large")
    ∷ (414, codes "URI Too Long")
    ∷ (415, codes "Unsupported Media Type")
    ∷ (416, codes "Range Not Satisfiable")
    ∷ (417, codes "Expectation Failed")
    ∷ (418, codes "I'm a teapot")
    ∷ (421, codes "Misdirected Request")
    ∷ (422, codes "Unprocessable Entity")
    ∷ (423, codes "Locked")
    ∷ (424, codes "Failed Dependency")
    ∷ (425, codes "Too Early")
    ∷ (426, codes "Upgrade Required")
    ∷ (428, codes "Precondition Required")
    ∷ (429, codes "Too Many Requests")
    ∷ (431, codes "Request Header Fields Too Large")
    ∷ (451, codes "Unavailable For Legal Reasons")
    ∷ (500, codes "Internal Server Error")
    ∷ (501, codes "Not Implemented")
    ∷ (502, codes "Bad Gateway")
    ∷ (503, codes "Service Unavailable")
    ∷ (504, codes "Gateway Timeout")
    ∷ (505, codes "HTTP Version Not Supported")
    ∷ (506, codes "Variant Also Negotiates")
    ∷ (507, codes "Insufficient Storage")
    ∷ (508, codes "Loop Detected")
    ∷ (510, codes "Not Extended")
    ∷ (511, codes "Network Authentication Required")
    ∷ []

-- An entry of the array, empty where none is set.
pub message_at : ℕ → List (ℕ × Bytes) → Bytes
message_at index [] = []
message_at index ((i, text) ∷ more) = if i == index then text else message_at index more

unfoldable pub status_code_to_string_view : HttpStatusCode → Bytes
unfolding status_number status_messages message_at
status_code_to_string_view code =
    let index = status_number code in
    let text = message_at index status_messages in
    if ltb index 512 && not (eq text []) then text else codes "Unknown"
