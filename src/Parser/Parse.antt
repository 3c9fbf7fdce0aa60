-- ===== src/Parser/Parse.antt =====
-- `parse`, `on_headers` and `body` of src/parser.cpp, of a parser that keeps the body in place.
use Prim.Native.Nat.{min}
use http_proto.Base.{
  ℕ, ◌+◌, ◌-◌, ◌%◌, ◌^◌, Bool, true, false, not, ◌&&◌, ◌||◌, [], ◌==◌, leb, ltb, if◌then◌else◌,
  Bytes, length, take, drop,
}
use http_proto.Types
use http_proto.Types.{
  ErrorCode, success, failure, Header, Payload, http_1_1, no_metadata, need_data, end_of_stream,
  incomplete, in_place_overflow, body_too_large, bad_payload, max_offset,
}
use http_proto.Header.{table_space, is_error}
use http_proto.Rules.Value.{is_need_more}
use http_proto.Workspace.{Outcome, returns, throws, logic_error, reserve_front, reserve_back}
use http_proto.Serializer.State.{then_}
use http_proto.Parser.Calls.{is_chunked, is_size, is_none, max_overread, difference}
use http_proto.Parser.State.{Parts, State, reset, start, header, body, set_body, complete, Parser}

module _ (x : Parts) where
  -- What is left in `fb_` behind the header.
  unfoldable pub overread : Parser x → Bytes
  overread p = drop p.h.size (x.flat.contents p.fb)

  -- `fb_.capacity() - h_.size`
  unfoldable pub behind_header : Parser x → ℕ
  behind_header p = difference (x.flat.capacity p.fb) p.h.size

  -- The capacity of `cb0_` for a payload of known size: never more than `max_overread` beyond it.
  unfoldable pub cb0_capacity : Parser x → ℕ
  cb0_capacity p =
      let n = (behind_header p + p.cfg.min_buffer + p.cfg.max_codec) % 2 ^ 64 in
      if ltb p.h.md.payload_size n && leb (max_overread p.cfg) (n - p.h.md.payload_size)
      then p.h.md.payload_size + max_overread p.cfg
      else n

  unfoldable pub failed_with : Types.Error → Parser x → Outcome (Parser x × ErrorCode)
  failed_with e p = returns (record p { st = reset }, failure e)

  unfoldable pub succeeded : Parser x → Outcome (Parser x × ErrorCode)
  succeeded p = returns (p, success)

  unfoldable pub without_payload : Parser x → Parser x
  without_payload p = record p {
    cb0 = x.circular.make (behind_header p) (overread p);
    body_avail = 0;
    body_total = 0;
    body_in_cb0 = true;
    st = complete;
  }

  unfoldable pub with_size : Parser x → Parser x
  with_size p =
      let n = min (length (overread p)) p.h.md.payload_size in
      record p {
        cb0 = x.circular.make (cb0_capacity p) (overread p);
        body_avail = n;
        body_total = n;
        payload_remain = p.h.md.payload_size - n;
        body_in_cb0 = true;
        st = body;
      }

  unfoldable pub until_eof : Parser x → Parser x
  until_eof p =
      let n = (behind_header p + p.cfg.min_buffer + p.cfg.max_codec) % 2 ^ 64 in
      record p {
        cb0 = x.circular.make n (overread p);
        body_avail = length (overread p);
        body_total = length (overread p);
        body_in_cb0 = true;
        st = body;
      }

  unfoldable pub buffered : Parser x → Parser x
  buffered p = record p {
    cb0 = x.circular.make (behind_header p) (overread p);
    body_avail = 0;
    body_total = 0;
    body_in_cb0 = false;
    st = body;
  }

  -- `on_headers`, from `reserve_front` on.
  unfoldable pub on_payload : Parser x → Outcome (Parser x × ErrorCode)
  on_payload p =
      if is_none p.h.md.payload || p.head_response
      then succeeded (without_payload p)
      else if is_chunked p.h.md.payload
      then succeeded (buffered p)
      else if not (is_size p.h.md.payload)
      then succeeded (until_eof p)
      else if ltb p.cfg.body_limit p.h.md.payload_size
      then failed_with body_too_large p
      else succeeded (with_size p)

  unfoldable pub on_headers : Parser x → Outcome (Parser x × ErrorCode)
  on_headers p =
      if is_error p.h.md.payload
      then failed_with bad_payload p
      else then_ (reserve_front p.h.size p.ws) (λ w.
        then_ (reserve_back (table_space p.h.count) w.0) (λ v. on_payload (record p { ws = v.0 })))

  -- From the label `do_body` on.
  unfoldable pub parse_body : Parser x → Outcome (Parser x × ErrorCode)
  parse_body p =
      if is_chunked p.h.md.payload
      then throws logic_error
      else if is_size p.h.md.payload
      then (if ltb p.body_avail p.h.md.payload_size
          then (if p.got_eof
              then returns (p, failure incomplete)
              else if x.circular.capacity p.cb0 == 0
              then returns (p, failure in_place_overflow)
              else returns (p, failure need_data))
          else succeeded (record p { st = complete }))
      else if ltb p.cfg.body_limit p.body_avail
      then failed_with body_too_large p
      else if not p.got_eof
      then returns (p, failure need_data)
      else succeeded (record p { st = complete })

  -- What `parse` does when the headers are complete.
  unfoldable pub after_headers : Outcome (Parser x × ErrorCode) → Outcome (Parser x × ErrorCode)
  after_headers (throws t) = throws t
  after_headers (returns (p, failure e)) = returns (p, failure e)
  after_headers (returns (p, success)) = go_on p.st p
    where
      go_on : State → Parser x → Outcome (Parser x × ErrorCode)
      go_on complete p = succeeded p
      go_on _ p = parse_body p

  unfoldable pub parsed : Parser x → Header × ErrorCode → Outcome (Parser x × ErrorCode)
  parsed p (h, success) = after_headers (on_headers (record p { h = h }))
  parsed p (h, failure e) =
      let q : Parser x = record p { h = h } in
      if not (is_need_more e)
      then failed_with e q
      else if not p.got_eof
      then returns (q, failure e)
      else if x.flat.size p.fb == 0
      then returns (record q { st = complete }, failure end_of_stream)
      else failed_with incomplete q

  unfoldable pub parse_in : State → Parser x → Outcome (Parser x × ErrorCode)
  parse_in reset p = throws logic_error
  parse_in start p = throws logic_error
  parse_in header p = parsed p (x.parse_header p.h (x.flat.contents p.fb))
  parse_in body p = parse_body p
  parse_in set_body p = throws logic_error
  parse_in complete p = succeeded p

  unfoldable pub parse : Parser x → Outcome (Parser x × ErrorCode)
  parse p = parse_in p.st p

  unfoldable pub body_in : State → Parser x → Bytes
  body_in complete p = take p.body_avail (x.circular.contents p.cb0)
  body_in _ p = []

  unfoldable pub body_of : Parser x → Bytes
  body_of p = body_in p.st p

  -- ## Observers

  unfoldable pub got_header : Parser x → Bool
  got_header p = header_in p.st
    where
      header_in : State → Bool
      header_in reset = false
      header_in start = false
      header_in header = false
      header_in _ = true

  unfoldable pub is_complete : Parser x → Bool
  is_complete p = complete_in p.st
    where
      complete_in : State → Bool
      complete_in complete = true
      complete_in _ = false

  unfoldable pub is_end_of_stream : Parser x → Bool
  is_end_of_stream p = ended p.st p.got_eof
    where
      ended : State → Bool → Bool
      ended reset eof = true
      ended complete eof = eof
      ended _ eof = false
