-- ===== src/Api/HttpCode.antt =====
-- api/constants.hpp, `api::http_code::Type`, and the table of reasons of server/core/Request.cpp.
use zhttpd.Base.{ℕ, Bytes, codes, List, [], ◌∷◌}

abbrev pub undefined : ℕ
undefined = 0

abbrev pub continue : ℕ
continue = 100

abbrev pub switching_protocols : ℕ
switching_protocols = 101

abbrev pub processing : ℕ
processing = 102

abbrev pub ok : ℕ
ok = 200

abbrev pub created : ℕ
created = 201

abbrev pub accepted : ℕ
accepted = 202

abbrev pub non_authoritative_information : ℕ
non_authoritative_information = 203

abbrev pub no_content : ℕ
no_content = 204

abbrev pub reset_content : ℕ
reset_content = 205

abbrev pub partial_content : ℕ
partial_content = 206

abbrev pub multi_status : ℕ
multi_status = 207

abbrev pub content_different : ℕ
content_different = 210

abbrev pub multiple_choices : ℕ
multiple_choices = 300

abbrev pub moved_permanently : ℕ
moved_permanently = 301

abbrev pub found : ℕ
found = 302

abbrev pub see_other : ℕ
see_other = 303

abbrev pub not_modified : ℕ
not_modified = 304

abbrev pub use_proxy : ℕ
use_proxy = 305

abbrev pub temporary_redirect : ℕ
temporary_redirect = 307

abbrev pub too_many_redirect : ℕ
too_many_redirect = 310

abbrev pub bad_request : ℕ
bad_request = 400

abbrev pub unauthorized : ℕ
unauthorized = 401

abbrev pub payment_required : ℕ
payment_required = 402

abbrev pub forbidden : ℕ
forbidden = 403

abbrev pub not_found : ℕ
not_found = 404

abbrev pub method_not_allowed : ℕ
method_not_allowed = 405

abbrev pub not_acceptable : ℕ
not_acceptable = 406

abbrev pub proxy_authentication_required : ℕ
proxy_authentication_required = 407

abbrev pub request_time_out : ℕ
request_time_out = 408

abbrev pub conflict : ℕ
conflict = 409

abbrev pub gone : ℕ
gone = 410

abbrev pub length_required : ℕ
length_required = 411

abbrev pub precondition_failed : ℕ
precondition_failed = 412

abbrev pub request_entity_too_large : ℕ
request_entity_too_large = 413

abbrev pub request_uri_too_long : ℕ
request_uri_too_long = 414

abbrev pub unsupported_media_type : ℕ
unsupported_media_type = 415

abbrev pub requested_range_unsatisfiable : ℕ
requested_range_unsatisfiable = 416

abbrev pub expectation_failed : ℕ
expectation_failed = 417

abbrev pub unprocessable_entity : ℕ
unprocessable_entity = 422

abbrev pub locked : ℕ
locked = 423

abbrev pub method_failure : ℕ
method_failure = 424

abbrev pub unordered_collection : ℕ
unordered_collection = 425

abbrev pub upgrade_required : ℕ
upgrade_required = 426

abbrev pub internal_server_error : ℕ
internal_server_error = 500

abbrev pub not_implemented : ℕ
not_implemented = 501

abbrev pub bad_gateway : ℕ
bad_gateway = 502

abbrev pub service_unavailable : ℕ
service_unavailable = 503

abbrev pub gateway_time_out : ℕ
gateway_time_out = 504

abbrev pub http_version_not_supported : ℕ
http_version_not_supported = 505

abbrev pub insufficient_storage : ℕ
insufficient_storage = 507

abbrev pub bandwidth_limit_exceeded : ℕ
bandwidth_limit_exceeded = 509

-- `HTTPResponse`.
pub record HttpResponse : Type 0 where
  pub code : ℕ
  pub message : Bytes

abbrev pub reason : ℕ → Bytes → HttpResponse
reason code message = record { code = code; message = message }

-- `Request::_responses`.
abbrev pub responses : List HttpResponse
responses =
    reason accepted (codes "Accepted")
    ∷ reason continue (codes "Continue")
    ∷ reason switching_protocols (codes "Switching Protocols")
    ∷ reason processing (codes "Processing")
    ∷ reason ok (codes "OK")
    ∷ reason created (codes "Created")
    ∷ reason accepted (codes "Accepted ")
    ∷ reason non_authoritative_information (codes "Non-Authoritative Information")
    ∷ reason no_content (codes "No Content")
    ∷ reason reset_content (codes "Reset Content")
    ∷ reason partial_content (codes "Partial Content")
    ∷ reason multi_status (codes "Multi-Status")
    ∷ reason content_different (codes "Content Different")
    ∷ reason multiple_choices (codes "Multiple Choices")
    ∷ reason moved_permanently (codes "Moved Permanently")
    ∷ reason found (codes "Found")
    ∷ reason see_other (codes "See Other")
    ∷ reason not_modified (codes "Not Modified")
    ∷ reason use_proxy (codes "Use Proxy")
    ∷ reason temporary_redirect (codes "Temporary Redirect")
    ∷ reason too_many_redirect (codes "Too many Redirect")
    ∷ reason bad_request (codes "Bad Request")
    ∷ reason unauthorized (codes "Unauthorized")
    ∷ reason payment_required (codes "Payment Required")
    ∷ reason forbidden (codes "Forbidden")
    ∷ reason not_found (codes "Not Found")
    ∷ reason method_not_allowed (codes "Method Not Allowed")
    ∷ reason not_acceptable (codes "Not Acceptable")
    ∷ reason proxy_authentication_required (codes "Proxy Authentication Required")
    ∷ reason request_time_out (codes "Request Time-out")
    ∷ reason conflict (codes "Conflict")
    ∷ reason gone (codes "Gone")
    ∷ reason length_required (codes "Length Required")
    ∷ reason precondition_failed (codes "Precondition Failed")
    ∷ reason request_entity_too_large (codes "Request Entity Too Large")
    ∷ reason request_uri_too_long (codes "Request-URI Too Long")
    ∷ reason unsupported_media_type (codes "Unsupported Media Type")
    ∷ reason requested_range_unsatisfiable (codes "Requested range unsatisfiable")
    ∷ reason expectation_failed (codes "Expectation failed")
    ∷ reason unprocessable_entity (codes "Unprocessable entity")
    ∷ reason locked (codes "Locked")
    ∷ reason method_failure (codes "Method failure")
    ∷ reason unordered_collection (codes "Unordered Collection")
    ∷ reason upgrade_required (codes "Upgrade Required")
    ∷ reason internal_server_error (codes "Internal Server Error")
    ∷ reason not_implemented (codes "Not Implemented")
    ∷ reason bad_gateway (codes "Bad Gateway ou Proxy Error")
    ∷ reason service_unavailable (codes "Service Unavailable")
    ∷ reason gateway_time_out (codes "Gateway Time-out")
    ∷ reason http_version_not_supported (codes "HTTP Version not supported")
    ∷ reason insufficient_storage (codes "Insufficient storage")
    ∷ reason bandwidth_limit_exceeded (codes "Bandwidth Limit Exceeded")
    ∷ reason undefined (codes "End Of Codes")
    ∷ []
