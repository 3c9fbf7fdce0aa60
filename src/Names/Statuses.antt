-- ===== src/Names/Statuses.antt =====
-- src/status.cpp: the known status codes, their class and their old reason phrases.
use http_proto.Base.{
  ℕ, ◌+◌, ◌/◌, ◌%◌, ◌^◌, ◌≡◌, ap, List, [], ◌∷◌, Bytes, codes, ◌==◌, arith, if◌then◌else◌,
}
use http_proto.Rfc.Chars.{among}

-- `enum class status : unsigned short`, by its underlying values; 0 is `unknown`.
abbrev pub Status : Type 0
Status = ℕ

-- The labels of the switch in `int_to_status`.
abbrev pub known : List Status
known =
    100 ∷ 101 ∷ 102 ∷ 103 ∷ 200 ∷ 201 ∷ 202 ∷ 203 ∷ 204 ∷ 205 ∷ 206 ∷ 207 ∷ 208 ∷ 226 ∷ 300 ∷ 301
    ∷ 302 ∷ 303 ∷ 304 ∷ 305 ∷ 307 ∷ 308 ∷ 400 ∷ 401 ∷ 402 ∷ 403 ∷ 404 ∷ 405 ∷ 406 ∷ 407 ∷ 408 ∷ 409
    ∷ 410 ∷ 411 ∷ 412 ∷ 413 ∷ 414 ∷ 415 ∷ 416 ∷ 417 ∷ 421 ∷ 422 ∷ 423 ∷ 424 ∷ 425 ∷ 426 ∷ 428 ∷ 429
    ∷ 431 ∷ 451 ∷ 500 ∷ 501 ∷ 502 ∷ 503 ∷ 504 ∷ 505 ∷ 506 ∷ 507 ∷ 508 ∷ 510 ∷ 511 ∷ []

-- `static_cast<status>(v)` keeps the lowest sixteen bits.
unfoldable pub int_to_status : ℕ → Status
int_to_status v = let s = v % 2 ^ 16 in if among known s then s else 0

pub data StatusClass : Type 0 where
  unknown informational successful redirection client_error server_error : StatusClass

unfoldable pub to_status_class : ℕ → StatusClass
to_status_class v =
    let c = v / 100 in
    if c == 1
    then informational
    else if c == 2
    then successful
    else if c == 3
    then redirection
    else if c == 4
    then client_error
    else if c == 5
    then server_error
    else unknown

-- The cases of the switch in `obsolete_reason`.
abbrev pub reasons : List (Status × Bytes)
reasons =
    (100, codes "Continue")
    ∷ (101, codes "Switching Protocols")
    ∷ (102, codes "Processing")
    ∷ (103, codes "Early Hints")
    ∷ (200, codes "OK")
    ∷ (201, codes "Created")
    ∷ (202, codes "Accepted")
    ∷ (203, codes "Non-Authoritative Information")
    ∷ (204, codes "No Content")
    ∷ (205, codes "Reset Content")
    ∷ (206, codes "Partial Content")
    ∷ (207, codes "Multi-Status")
    ∷ (208, codes "Already Reported")
    ∷ (226, codes "IM Used")
    ∷ (300, codes "Multiple Choices")
    ∷ (301, codes "Moved Permanently")
    ∷ (302, codes "Found")
    ∷ (303, codes "See Other")
    ∷ (304, codes "Not Modified")
    ∷ (305, codes "Use Proxy")
    ∷ (307, codes "Temporary Redirect")
    ∷ (308, codes "Permanent Redirect")
    ∷ (400, codes "Bad Request")
    ∷ (401, codes "Unauthorized")
    ∷ (402, codes "Payment Required")
    ∷ (403, codes "Forbidden")
    ∷ (404, codes "Not Found")
    ∷ (405, codes "Method Not Allowed")
    ∷ (406, codes "Not Acceptable")
    ∷ (407, codes "Proxy Authentication Required")
    ∷ (408, codes "Request Timeout")
    ∷ (409, codes "Conflict")
    ∷ (410, codes "Gone")
    ∷ (411, codes "Length Required")
    ∷ (412, codes "Precondition Failed")
    ∷ (413, codes "Payload Too Large")
    ∷ (414, codes "URI Too Long")
    ∷ (415, codes "Unsupported Media Type")
    ∷ (416, codes "Range Not Satisfiable")
    ∷ (417, codes "Expectation Failed")
    ∷ (421, codes "Misdirected Request")
    ∷ (422, codes "Unprocessable Entity")
    ∷ (423, codes "Locked")
    ∷ (424, codes "Failed Dependency")
    ∷ (425, codes "Too Early")
    ∷ (426, codes "Upgrade Required")
    ∷ (428, codes "Precondition Required")
    ∷ (429, codes "Too Many Requests")
    ∷ (431, codes "Request Header Fields Too Large")
    ∷ (451, codes "Unavailable For Legal Reasons")
    ∷ (500, codes "Internal Server Error")
    ∷ (501, codes "Not Implemented")
    ∷ (502, codes "Bad Gateway")
    ∷ (503, codes "Service Unavailable")
    ∷ (504, codes "Gateway Timeout")
    ∷ (505, codes "HTTP Version Not Supported")
    ∷ (506, codes "Variant Also Negotiates")
    ∷ (507, codes "Insufficient Storage")
    ∷ (508, codes "Loop Detected")
    ∷ (510, codes "Not Extended")
    ∷ (511, codes "Network Authentication Required")
    ∷ []

abbrev pub reason_of : List (Status × Bytes) → Status → Bytes
reason_of [] v = codes "<unknown-status>"
reason_of ((s, t) ∷ rest) v = if v == s then t else reason_of rest v

unfoldable pub obsolete_reason : Status → Bytes
obsolete_reason v = reason_of reasons v

-- Any status code is taken modulo 65536.
int_to_status_wraps : (v : ℕ) → int_to_status (v + 2 ^ 16) ≡ int_to_status v
unfolding int_to_status
int_to_status_wraps v =
    let e : (v + 2 ^ 16) % 2 ^ 16 ≡ v % 2 ^ 16 = omega arith in
    ap (λ s. if among known s then s else 0) e
