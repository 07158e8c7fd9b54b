-- ===== src/Http/Status.antt =====
-- mux/HTTPStatus.hpp: the status codes, their classes and their reason phrases.
pub mod Laws
pub mod Classes
mod Tests
use mux.Prelude.{
  ℕ, zero, suc, ◌+◌, ◌-◌, ◌*◌, ◌/◌, ◌%◌, ◌^◌, ◌≤◌, ◌<◌, ◌≡◌, refl, sym, ap, ◌∙◌, ◌≡⟨◌⟩◌, ◌∎, ◌≢◌,
  ◌↔◌, ◌⊎◌, inl, inr, Bool, true, false, not, ◌&&◌, ◌||◌, Option, none, some, List, [], ◌∷◌, ◌++◌,
  map, append_assoc, append-nil, arith, ltb, leb, nat_beq, nat_beq_iff, if◌then◌else◌, Bool-cases,
  Option-cases, eq-false_of_ne_true, length, take, drop, length-append, take-length,
  drop-length-append, All, All-append, HasEq, ◌==◌, nat_eq, bytes_eq, bytes_beq, bytes_beq_iff,
  eq_self,
}
use mux.Prelude.Int.{ℤ, pos, negsuc, minus_one, int_beq, int_beq_iff, int_eq, is_neg, is_pos}
use mux.Prelude.Map.{
  Map, find, contains, insert, erase, subscript, find-insert, find-erase, contains-find, map_laws,
}
use mux.Prelude.Bytes.{Bytes, codes, cr, lf, crlf, Lacks}
use mux.Prelude.Decimal.{
  print_nat, print_int, read_nat, IsDigit, read_nat-print_nat, print_nat-Lacks, print_int-Lacks,
}

-- `enum Code`. Two pairs of enumerators are aliases of one value.
pub data Code : Type 0 where
  continue switching_protocols processing early_hints ok created accepted : Code
  non_authoritative_information no_content reset_content partial_content multi_status : Code
  already_reported im_used multiple_choices moved_permanently found see_other : Code
  not_modified use_proxy temporary_redirect permanent_redirect bad_request unauthorized : Code
  payment_required forbidden not_found method_not_allowed not_acceptable : Code
  proxy_authentication_required request_timeout conflict gone length_required : Code
  precondition_failed content_too_large payload_too_large uri_too_long : Code
  unsupported_media_type range_not_satisfiable expectation_failed im_a_teapot : Code
  misdirected_request unprocessable_content unprocessable_entity locked : Code
  failed_dependency too_early upgrade_required precondition_required too_many_requests : Code
  request_header_fields_too_large unavailable_for_legal_reasons internal_server_error : Code
  not_implemented bad_gateway service_unavailable gateway_timeout : Code
  http_version_not_supported variant_also_negotiates insufficient_storage loop_detected : Code
  not_extended network_authentication_required xxx_max : Code

-- The value of an enumerator.
pub value : Code → ℕ
value continue = 100
value switching_protocols = 101
value processing = 102
value early_hints = 103
value ok = 200
value created = 201
value accepted = 202
value non_authoritative_information = 203
value no_content = 204
value reset_content = 205
value partial_content = 206
value multi_status = 207
value already_reported = 208
value im_used = 226
value multiple_choices = 300
value moved_permanently = 301
value found = 302
value see_other = 303
value not_modified = 304
value use_proxy = 305
value temporary_redirect = 307
value permanent_redirect = 308
value bad_request = 400
value unauthorized = 401
value payment_required = 402
value forbidden = 403
value not_found = 404
value method_not_allowed = 405
value not_acceptable = 406
value proxy_authentication_required = 407
value request_timeout = 408
value conflict = 409
value gone = 410
value length_required = 411
value precondition_failed = 412
value content_too_large = 413
value payload_too_large = 413
value uri_too_long = 414
value unsupported_media_type = 415
value range_not_satisfiable = 416
value expectation_failed = 417
value im_a_teapot = 418
value misdirected_request = 421
value unprocessable_content = 422
value unprocessable_entity = 422
value locked = 423
value failed_dependency = 424
value too_early = 425
value upgrade_required = 426
value precondition_required = 428
value too_many_requests = 429
value request_header_fields_too_large = 431
value unavailable_for_legal_reasons = 451
value internal_server_error = 500
value not_implemented = 501
value bad_gateway = 502
value service_unavailable = 503
value gateway_timeout = 504
value http_version_not_supported = 505
value variant_also_negotiates = 506
value insufficient_storage = 507
value loop_detected = 508
value not_extended = 510
value network_authentication_required = 511
value xxx_max = 1023

-- The enumerators in the order of the source.
abbrev pub all_codes : List Code
all_codes =
    continue ∷ switching_protocols ∷ processing ∷ early_hints ∷ ok ∷ created ∷ accepted
    ∷ non_authoritative_information ∷ no_content ∷ reset_content ∷ partial_content ∷ multi_status
    ∷ already_reported ∷ im_used ∷ multiple_choices ∷ moved_permanently ∷ found ∷ see_other
    ∷ not_modified ∷ use_proxy ∷ temporary_redirect ∷ permanent_redirect ∷ bad_request
    ∷ unauthorized ∷ payment_required ∷ forbidden ∷ not_found ∷ method_not_allowed ∷ not_acceptable
    ∷ proxy_authentication_required ∷ request_timeout ∷ conflict ∷ gone ∷ length_required
    ∷ precondition_failed ∷ content_too_large ∷ payload_too_large ∷ uri_too_long
    ∷ unsupported_media_type ∷ range_not_satisfiable ∷ expectation_failed ∷ im_a_teapot
    ∷ misdirected_request ∷ unprocessable_content ∷ unprocessable_entity ∷ locked
    ∷ failed_dependency ∷ too_early ∷ upgrade_required ∷ precondition_required ∷ too_many_requests
    ∷ request_header_fields_too_large ∷ unavailable_for_legal_reasons ∷ internal_server_error
    ∷ not_implemented ∷ bad_gateway ∷ service_unavailable ∷ gateway_timeout
    ∷ http_version_not_supported ∷ variant_also_negotiates ∷ insufficient_storage ∷ loop_detected
    ∷ not_extended ∷ network_authentication_required ∷ xxx_max ∷ []

pub is_informational : ℤ → Bool
is_informational (pos code) = leb 100 code && ltb code 200
is_informational (negsuc n) = false

pub is_successful : ℤ → Bool
is_successful (pos code) = leb 200 code && ltb code 300
is_successful (negsuc n) = false

pub is_redirection : ℤ → Bool
is_redirection (pos code) = leb 300 code && ltb code 400
is_redirection (negsuc n) = false

pub is_client_error : ℤ → Bool
is_client_error (pos code) = leb 400 code && ltb code 500
is_client_error (negsuc n) = false

pub is_server_error : ℤ → Bool
is_server_error (pos code) = leb 500 code && ltb code 600
is_server_error (negsuc n) = false

pub is_error : ℤ → Bool
is_error (pos code) = leb 400 code
is_error (negsuc n) = false

-- The cases of the `switch`.
abbrev pub phrases : Map ℕ Bytes
phrases =
    (100, codes "Continue")
    ∷ (101, codes "Switching Protocols")
    ∷ (102, codes "Processing")
    ∷ (103, codes "Early Hints")
    ∷ (200, codes "OK")
    ∷ (201, codes "Created")
    ∷ (202, codes "Accepted")
    ∷ (203, codes "Non-Authoritative Information")
    ∷ (204, codes "No Content")
    ∷ (205, codes "Reset Content")
    ∷ (206, codes "Partial Content")
    ∷ (207, codes "Multi-Status")
    ∷ (208, codes "Already Reported")
    ∷ (226, codes "IM Used")
    ∷ (300, codes "Multiple Choices")
    ∷ (301, codes "Moved Permanently")
    ∷ (302, codes "Found")
    ∷ (303, codes "See Other")
    ∷ (304, codes "Not Modified")
    ∷ (305, codes "Use Proxy")
    ∷ (307, codes "Temporary Redirect")
    ∷ (308, codes "Permanent Redirect")
    ∷ (400, codes "Bad Request")
    ∷ (401, codes "Unauthorized")
    ∷ (402, codes "Payment Required")
    ∷ (403, codes "Forbidden")
    ∷ (404, codes "Not Found")
    ∷ (405, codes "Method Not Allowed")
    ∷ (406, codes "Not Acceptable")
    ∷ (407, codes "Proxy Authentication Required")
    ∷ (408, codes "Request Timeout")
    ∷ (409, codes "Conflict")
    ∷ (410, codes "Gone")
    ∷ (411, codes "Length Required")
    ∷ (412, codes "Precondition Failed")
    ∷ (413, codes "Content Too Large")
    ∷ (414, codes "URI Too Long")
    ∷ (415, codes "Unsupported Media Type")
    ∷ (416, codes "Range Not Satisfiable")
    ∷ (417, codes "Expectation Failed")
    ∷ (418, codes "I'm a teapot")
    ∷ (421, codes "Misdirected Request")
    ∷ (422, codes "Unprocessable Content")
    ∷ (423, codes "Locked")
    ∷ (424, codes "Failed Dependency")
    ∷ (425, codes "Too Early")
    ∷ (426, codes "Upgrade Required")
    ∷ (428, codes "Precondition Required")
    ∷ (429, codes "Too Many Requests")
    ∷ (431, codes "Request Header Fields Too Large")
    ∷ (451, codes "Unavailable For Legal Reasons")
    ∷ (500, codes "Internal Server Error")
    ∷ (501, codes "Not Implemented")
    ∷ (502, codes "Bad Gateway")
    ∷ (503, codes "Service Unavailable")
    ∷ (504, codes "Gateway Timeout")
    ∷ (505, codes "HTTP Version Not Supported")
    ∷ (506, codes "Variant Also Negotiates")
    ∷ (507, codes "Insufficient Storage")
    ∷ (508, codes "Loop Detected")
    ∷ (510, codes "Not Extended")
    ∷ (511, codes "Network Authentication Required")
    ∷ []

or_empty : Option Bytes → Bytes
or_empty none = []
or_empty (some s) = s

unfoldable pub reason_phrase : ℤ → Bytes
unfolding or_empty find
reason_phrase (pos code) = or_empty (find code phrases)
reason_phrase (negsuc n) = []
