-- ===== src/Header/Framing.antt =====
-- `header::update_payload` and `on_start_line`: how the length of the body is determined.
use http_proto.Base.{ℕ, ◌/◌, Bool, ◌&&◌, ◌||◌, ◌==◌, ltb, if◌then◌else◌}
use http_proto.Types.{failed, Kind, response, Payload, Header}

abbrev pub set_payload : Header → Payload → ℕ → Header
set_payload h p n = record h { md = record h.md { payload = p; payload_size = n } }

-- From the first test of Content-Length on; `otherwise` is what a message without framing has.
unfoldable pub framed_payload : Header → Payload → Header
framed_payload h otherwise =
    if ltb 0 h.md.content_length.count
    then (if ltb 0 h.md.content_length.value
        then set_payload h Payload.size h.md.content_length.value
        else set_payload h Payload.none 0)
    else if h.md.transfer_encoding.is_chunked
    then set_payload h Payload.chunked 0
    else set_payload h otherwise 0

-- 1xx, 204 and 304 have no payload.
abbrev pub is_bodiless : ℕ → Bool
is_bodiless s = s / 100 == 1 || s == 204 || s == 304

unfoldable pub response_payload : Header → Header
unfolding framed_payload
response_payload h =
    if is_bodiless h.status_int
    then set_payload h Payload.none 0
    else framed_payload h Payload.to_eof

unfoldable pub payload_by_kind : Kind → Header → Header
unfolding response_payload framed_payload
payload_by_kind response h = response_payload h
payload_by_kind _ h = framed_payload h Payload.none

unfoldable pub update_payload : Header → Header
unfolding payload_by_kind
update_payload h =
    if h.md.payload_override
    then h
    else if failed h.md.content_length.ec
    then set_payload h Payload.error 0
    else if failed h.md.transfer_encoding.ec
    then set_payload h Payload.error 0
    else if ltb 0 h.md.content_length.count && ltb 0 h.md.transfer_encoding.count
    then set_payload h Payload.error 0
    else payload_by_kind h.kind h

unfoldable pub on_start_line : Header → Header
unfolding update_payload
on_start_line h = update_payload h
