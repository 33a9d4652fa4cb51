-- ===== src/Http/Status.antt =====
-- Status codes: enum status_code and format_status_code of include/mgxx/http/internal/common.hpp.
use mongoose_cpp.Prelude.{
  ◌≡◌, refl, Bool, true, false, ℕ, List, [], ◌∷◌, ◌++◌, Bytes, codes, ℤ, pos, negsuc, decimal_int,
  ◌==◌, if◌then◌else◌,
}
use mongoose_cpp.Http.Headers.{is_empty}

pub data StatusCode : Type 0 where
  invalid continue switching_protocols processing early_hints ok : StatusCode
  created accepted non_authoritative_information no_content reset_content partial_content :
      StatusCode
  multi_status already_reported im_used multiple_choices moved_permanently found : StatusCode
  see_other not_modified use_proxy temporary_redirect permanent_redirect bad_request : StatusCode
  unauthorized payment_required forbidden not_found method_not_allowed not_acceptable : StatusCode
  proxy_authentication_required request_timeout conflict gone length_required precondition_failed :
      StatusCode
  content_too_large payload_too_large uri_too_long unsupported_media_type range_not_satisfiable
        expectation_failed :
      StatusCode
  im_a_teapot misdirected_request unprocessable_content unprocessable_entity locked
        failed_dependency :
      StatusCode
  too_early upgrade_required precondition_required too_many_requests request_header_fields_too_large
        unavailable_for_legal_reasons :
      StatusCode
  internal_server_error not_implemented bad_gateway service_unavailable gateway_timeout
        http_version_not_supported :
      StatusCode
  variant_also_negotiates insufficient_storage loop_detected not_extended
        network_authentication_required max :
      StatusCode

-- `static_cast<int>(code)`.
unfoldable pub value : StatusCode → ℤ
value invalid = negsuc 0
value continue = pos 100
value switching_protocols = pos 101
value processing = pos 102
value early_hints = pos 103
value ok = pos 200
value created = pos 201
value accepted = pos 202
value non_authoritative_information = pos 203
value no_content = pos 204
value reset_content = pos 205
value partial_content = pos 206
value multi_status = pos 207
value already_reported = pos 208
value im_used = pos 226
value multiple_choices = pos 300
value moved_permanently = pos 301
value found = pos 302
value see_other = pos 303
value not_modified = pos 304
value use_proxy = pos 305
value temporary_redirect = pos 307
value permanent_redirect = pos 308
value bad_request = pos 400
value unauthorized = pos 401
value payment_required = pos 402
value forbidden = pos 403
value not_found = pos 404
value method_not_allowed = pos 405
value not_acceptable = pos 406
value proxy_authentication_required = pos 407
value request_timeout = pos 408
value conflict = pos 409
value gone = pos 410
value length_required = pos 411
value precondition_failed = pos 412
value content_too_large = pos 413
value payload_too_large = pos 413
value uri_too_long = pos 414
value unsupported_media_type = pos 415
value range_not_satisfiable = pos 416
value expectation_failed = pos 417
value im_a_teapot = pos 418
value misdirected_request = pos 421
value unprocessable_content = pos 422
value unprocessable_entity = pos 422
value locked = pos 423
value failed_dependency = pos 424
value too_early = pos 425
value upgrade_required = pos 426
value precondition_required = pos 428
value too_many_requests = pos 429
value request_header_fields_too_large = pos 431
value unavailable_for_legal_reasons = pos 451
value internal_server_error = pos 500
value not_implemented = pos 501
value bad_gateway = pos 502
value service_unavailable = pos 503
value gateway_timeout = pos 504
value http_version_not_supported = pos 505
value variant_also_negotiates = pos 506
value insufficient_storage = pos 507
value loop_detected = pos 508
value not_extended = pos 510
value network_authentication_required = pos 511
value max = pos 1023

-- The cases of the switch.
abbrev reason_phrases : List (ℕ × Bytes)
reason_phrases =
    (100, codes "Continue")
    ∷ (101, codes "Switching Protocols")
    ∷ (102, codes "Processing")
    ∷ (200, codes "OK")
    ∷ (201, codes "Created")
    ∷ (202, codes "Accepted")
    ∷ (203, codes "Non-authoritative Information")
    ∷ (204, codes "No Content")
    ∷ (205, codes "Reset Content")
    ∷ (206, codes "Partial Content")
    ∷ (207, codes "Multi-Status")
    ∷ (208, codes "Already Reported")
    ∷ (226, codes "IM Used")
    ∷ (300, codes "Multiple Choices")
    ∷ (301, codes "Moved Permanently")
    ∷ (302, codes "Found")
    ∷ (303, codes "See Other")
    ∷ (304, codes "Not Modified")
    ∷ (305, codes "Use Proxy")
    ∷ (307, codes "Temporary Redirect")
    ∷ (308, codes "Permanent Redirect")
    ∷ (400, codes "Bad Request")
    ∷ (401, codes "Unauthorized")
    ∷ (402, codes "Payment Required")
    ∷ (403, codes "Forbidden")
    ∷ (404, codes "Not Found")
    ∷ (405, codes "Method Not Allowed")
    ∷ (406, codes "Not Acceptable")
    ∷ (407, codes "Proxy Authentication Required")
    ∷ (408, codes "Request Timeout")
    ∷ (409, codes "Conflict")
    ∷ (410, codes "Gone")
    ∷ (411, codes "Length Required")
    ∷ (412, codes "Precondition Failed")
    ∷ (413, codes "Payload Too Large")
    ∷ (414, codes "Request-URI Too Long")
    ∷ (415, codes "Unsupported Media Type")
    ∷ (416, codes "Requested Range Not Satisfiable")
    ∷ (417, codes "Expectation Failed")
    ∷ (418, codes "I'm a teapot")
    ∷ (421, codes "Misdirected Request")
    ∷ (422, codes "Unprocessable Entity")
    ∷ (423, codes "Locked")
    ∷ (424, codes "Failed Dependency")
    ∷ (426, codes "Upgrade Required")
    ∷ (428, codes "Precondition Required")
    ∷ (429, codes "Too Many Requests")
    ∷ (431, codes "Request Header Fields Too Large")
    ∷ (444, codes "Connection Closed Without Response")
    ∷ (451, codes "Unavailable For Legal Reasons")
    ∷ (499, codes "Client Closed Request")
    ∷ (500, codes "Internal Server Error")
    ∷ (501, codes "Not Implemented")
    ∷ (502, codes "Bad Gateway")
    ∷ (503, codes "Service Unavailable")
    ∷ (504, codes "Gateway Timeout")
    ∷ (505, codes "HTTP Version Not Supported")
    ∷ (506, codes "Variant Also Negotiates")
    ∷ (507, codes "Insufficient Storage")
    ∷ (508, codes "Loop Detected")
    ∷ (510, codes "Not Extended")
    ∷ (511, codes "Network Authentication Required")
    ∷ (599, codes "Network Connect Timeout Error")
    ∷ []

-- The phrase of the case that matches, or the empty one of `default`.
abbrev phrase_of : ℕ → List (ℕ × Bytes) → Bytes
phrase_of code [] = []
phrase_of code ((c, phrase) ∷ cases) = if c == code then phrase else phrase_of code cases

unfoldable pub format_status_code : ℤ → Bytes
format_status_code (pos code) = phrase_of code reason_phrases
format_status_code (negsuc n) = []

-- The head of a streamed answer: `std::format("HTTP/1.1 {} {}\r\n{}\r\n", …)`.
unfoldable pub preamble : ℤ → Bytes → Bytes
unfolding format_status_code
preamble code headers =
    codes "HTTP/1.1 "
    ++ (decimal_int code
        ++ (32 ∷ (format_status_code code ++ (13 ∷ 10 ∷ (headers ++ 13 ∷ 10 ∷ [])))))

-- The enumerators that the switch has no case for.
abbrev pub lacks_phrase : StatusCode → Bool
lacks_phrase invalid = true
lacks_phrase early_hints = true
lacks_phrase too_early = true
lacks_phrase max = true
lacks_phrase _ = false

-- Every enumerator has a reason phrase, except `invalid`, `early_hints`, `too_early` and `max`.
phrase_coverage : (c : StatusCode) → is_empty (format_status_code (value c)) ≡ lacks_phrase c
unfolding format_status_code value
phrase_coverage invalid = refl
phrase_coverage _ = refl
