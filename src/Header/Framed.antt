-- ===== src/Header/Framed.antt =====
-- The message body length of RFC 7230, section 3.3.3, in the order of its rules, for
-- `update_payload` of src/detail/header.cpp.
use http_proto.Base.{
  ℕ, ◌<◌, ◌≡◌, ◌≢◌, Bool, true, false, ◌&&◌, ◌||◌, ◌==◌, leb, ltb, if◌then◌else◌, arith, ◌⊎◌, refl,
}
use http_proto.Types.{failed, Kind, fields, request, response, Payload, Header}
use http_proto.Header.Framing.{update_payload}

-- What a recipient has to read for the body.
pub data BodyLength : Type 0 where
  octets : ℕ → BodyLength
  chunks until_close unrecoverable : BodyLength

abbrev pub is_response : Kind → Bool
is_response response = true
is_response _ = false

-- Rule 1, without responses to HEAD: neither that nor rule 2, of CONNECT, can be told from a header.
abbrev pub never_has_body : Header → Bool
never_has_body h =
    is_response h.kind
    && (leb 100 h.status_int && ltb h.status_int 200 || h.status_int == 204 || h.status_int == 304)

-- Rule 3, of a message with a Transfer-Encoding.
abbrev pub by_transfer_encoding : Header → BodyLength
by_transfer_encoding h =
    if h.md.transfer_encoding.is_chunked
    then chunks
    else if is_response h.kind
    then until_close
    else unrecoverable

-- Rules 4 to 7, of a message without one.
abbrev pub by_content_length : Header → BodyLength
by_content_length h =
    if failed h.md.content_length.ec
    then unrecoverable
    else if ltb 0 h.md.content_length.count
    then octets h.md.content_length.value
    else if is_response h.kind
    then until_close
    else octets 0

unfoldable pub body_length : Header → BodyLength
body_length h =
    if never_has_body h
    then octets 0
    else if ltb 0 h.md.transfer_encoding.count
    then by_transfer_encoding h
    else by_content_length h

-- What the payload kind and size of the metadata say.
unfoldable pub said : Payload → ℕ → BodyLength
said Payload.none n = octets 0
said Payload.size n = octets n
said Payload.chunked n = chunks
said Payload.to_eof n = until_close
said Payload.error n = unrecoverable

-- The messages that the program treats as that section does. It rejects, and the section does not,
-- a Transfer-Encoding beside a Content-Length, one that is invalid, and an invalid Content-Length in
-- a response that never has a body; it takes, and the section does not, a request whose
-- Transfer-Encoding does not end with chunked.
pub record IsRegular (h : Header) : Type 0 where
  pub valid_codings : failed h.md.transfer_encoding.ec ≡ false
  pub one_framing : (h.md.content_length.count ≡ 0) ⊎ (h.md.transfer_encoding.count ≡ 0)
  pub valid_length : never_has_body h ≡ true → failed h.md.content_length.ec ≡ false
  pub invalid_length : failed h.md.content_length.ec ≡ true → h.md.transfer_encoding.count ≡ 0
  pub chunked_counts : h.md.transfer_encoding.is_chunked ≡ true → 0 < h.md.transfer_encoding.count
  pub request_chunked :
      h.kind ≡ request → 0 < h.md.transfer_encoding.count → h.md.transfer_encoding.is_chunked ≡ true

said_lem :
    (h : Header) (k : Kind)
    → h.kind ≡ k
    → k ≢ fields
    → h.md.payload_override ≡ false
    → IsRegular h
    → said (update_payload h).md.payload (update_payload h).md.payload_size ≡ body_length h
unfolding said update_payload body_length
said_lem h fields e ne o r = absurd (ne refl)
said_lem h request e ne o r = ground arith
said_lem h response e ne o r = ground arith

-- Of a request or a response with no manual override, with at most one of Content-Length and
-- Transfer-Encoding, the latter valid and, in a request, ending with chunked, and the former valid in
-- a response that never has a body, the payload kind and size that `update_payload` stores say what
-- RFC 7230, section 3.3.3, does of a message that does not answer HEAD or CONNECT. It is assumed that
-- only a Transfer-Encoding that is counted is marked chunked.
pub update_payload-said :
    (h : Header)
    → h.kind ≢ fields
    → h.md.payload_override ≡ false
    → IsRegular h
    → said (update_payload h).md.payload (update_payload h).md.payload_size ≡ body_length h
update_payload-said h ne o r = said_lem h h.kind refl ne o r

agrees_or_rejects :
    (h : Header) (k : Kind)
    → h.kind ≡ k
    → k ≢ fields
    → h.md.payload_override ≡ false
    → (h.md.transfer_encoding.is_chunked ≡ true → 0 < h.md.transfer_encoding.count)
    → (h.kind ≡ request
        → 0 < h.md.transfer_encoding.count
        → h.md.transfer_encoding.is_chunked ≡ true)
    → (said (update_payload h).md.payload (update_payload h).md.payload_size ≡ body_length h)
      ⊎ ((update_payload h).md.payload ≡ Payload.error)
unfolding said update_payload body_length
agrees_or_rejects h fields e ne o c r = absurd (ne refl)
agrees_or_rejects h request e ne o c r = ground arith
agrees_or_rejects h response e ne o c r = ground arith

-- Of a request or a response with no manual override, whatever its framing fields are, but for a
-- request whose Transfer-Encoding does not end with chunked, `update_payload` stores what RFC 7230,
-- section 3.3.3, says, of a message that does not answer HEAD or CONNECT, or an error. It is assumed
-- that only a Transfer-Encoding that is counted is marked chunked.
pub update_payload-rejects :
    (h : Header)
    → h.kind ≢ fields
    → h.md.payload_override ≡ false
    → (h.md.transfer_encoding.is_chunked ≡ true → 0 < h.md.transfer_encoding.count)
    → (h.kind ≡ request
        → 0 < h.md.transfer_encoding.count
        → h.md.transfer_encoding.is_chunked ≡ true)
    → (said (update_payload h).md.payload (update_payload h).md.payload_size ≡ body_length h)
      ⊎ ((update_payload h).md.payload ≡ Payload.error)
update_payload-rejects h ne o c r = agrees_or_rejects h h.kind refl ne o c r
