-- ===== src/Parser/Ended.antt =====
-- The end of the stream, the message after a message, and calls out of order.
use http_proto.Types.{incomplete}
use http_proto.Parser.Calls.{commit_eof, commit_eof_in, max_overread}
use http_proto.Base.{
  ℕ, ◌≤◌, ◌≡◌, refl, ap, ◌∙◌, true, false, [], ◌++◌, ltb, Bytes, length, ◌-◌, arith,
}
use http_proto.Types.{failure, Payload}
use http_proto.Workspace.{returns}
use http_proto.Serializer.State.{then_}
use http_proto.Parser.State.{Parts, complete, Parser}
use http_proto.Parser.Delivered.{IsReading}
use http_proto.Parser.Calls.{is_chunked, is_size}
use http_proto.Parser.Parse.{parse, parse_in, parse_body, body_of, body_in}

module _ (x : Parts) where
  parse_body-incomplete :
      (p : Parser x)
      → p.h.md.payload ≡ Payload.size
      → ltb p.body_avail p.h.md.payload_size ≡ true
      → p.got_eof ≡ true
      → parse_body x p ≡ returns (p, failure incomplete)
  unfolding parse_body
  parse_body-incomplete p y z e =
      let c : is_chunked p.h.md.payload ≡ false = ap is_chunked y in
      let d : is_size p.h.md.payload ≡ true = ap is_size y in rw (c, d, z, e) refl

  -- If the stream ends while the parser reads a body of `n` octets and holds fewer, `parse` fails
  -- with `incomplete`, and `body` is empty.
  pub commit_eof-parse :
      (n : ℕ) (o : Bytes) (p : Parser x)
      → IsReading x n o p
      → (t : Parser x) × (then_ (commit_eof x p) (parse x) ≡ returns (t, failure incomplete))
        × (body_of x t ≡ [])
  unfolding commit_eof commit_eof_in then_ parse parse_in parse_body body_of body_in
  commit_eof-parse n o p r =
      let t : Parser x = record p { nprepare = 0; got_eof = true } in
      let u = r.size in
      let v = r.avail in
      let w = r.partial in
      let l : ltb p.body_avail p.h.md.payload_size ≡ true = ground arith in
      (
        t,
        ap (λ z. then_ (commit_eof_in x z (record p { nprepare = 0 })) (parse x)) r.in_body
            ∙ ap (λ z. parse_in x z t) r.in_body
            ∙ parse_body-incomplete t r.sized l refl,
        ap (λ z. body_in x z t) r.in_body,
      )

  -- ## The next message

  -- The buffers when a message is complete: the header and all that was read behind it stand in `fb_`,
  -- the same without the header in `cb0_`, `body` of that is the body, and the storage that is
  -- reserved is that of the header.
  pub record IsRead (hdr bdy rest : Bytes) (p : Parser x) : Type 0 where
    pub is_complete : p.st ≡ complete
    pub in_cb0 : p.body_in_cb0 ≡ true
    pub header_size : p.h.size ≡ length hdr
    pub reserved : p.ws.front - p.ws.begin ≡ length hdr
    pub avail : p.body_avail ≡ length bdy
    pub flat_held : x.flat.contents p.fb ≡ hdr ++ (bdy ++ rest)
    pub held : x.circular.contents p.cb0 ≡ bdy ++ rest
    pub fits : length (bdy ++ rest) ≤ max_overread p.cfg
