-- ===== src/Tests/Parsers.antt =====
-- A parser over concrete buffers, and a header parser that takes four octets for every header.
use http_proto.Base.{
  ℕ, ◌-◌, ◌≡◌, inl, inr, refl, Bool-cases, ap, sym, Bool, true, false, [], ◌∷◌, ◌++◌, Bytes, codes,
  drop, length, leb, if◌then◌else◌, arith,
}
use http_proto.Types.{Header, ErrorCode, success, failure, Payload, incomplete}
use http_proto.Types
use http_proto.Workspace.{Space, returns, throws, length_error}
use http_proto.Serializer.State.{then_}
use http_proto.Serializer.Arrays.{join}
use http_proto.Parser.State.{Storage, IsStorage, Parts, header, body, complete, Config, Parser}
use http_proto.Parser.Calls.{
  prepare, commit, commit_eof, difference, prepare_in, commit_in, commit_body,
}
use http_proto.Parser.Parse.{parse, body_of, parse_in, parse_body}
use http_proto.Parser.Delivered.{feed, Waits, IsReading, Progress}
use http_proto.Parser.Bodies.{Fed, stop, piece, feed-Progress, Fed-complete}
use http_proto.Parser.Ended.{commit_eof-parse}
use http_proto.Parser.Full.{prepare-overfull, feed-half}
use http_proto.Tests.Samples.{empty_request}

record Flat : Type 0 where
  room : ℕ
  held : Bytes

abbrev flat : Storage
flat = record {
  Buffer = Flat;
  make = λ n s. record { room = n; held = s };
  size = λ b. length b.held;
  capacity = λ b. b.room;
  contents = λ b. b.held;
  prepare = λ n b. if leb n (b.room - length b.held) then returns b else throws length_error;
  commit = λ s b. record b { held = b.held ++ s };
  consume = λ n b. record b { held = drop n b.held };
}

-- The same, where `capacity` is what is free.
abbrev ring : Storage
ring = record flat { capacity = λ b. b.room - length b.held }

prepared :
    (b c : Flat) (t : Bool) → (if t then returns b else throws length_error) ≡ returns c → b ≡ c
prepared b c true e = cc e
prepared b c false e = absurd (cc e)

full_lem :
    (b : Flat) (t : Bool)
    → t ≡ false
    → (if t then returns b else throws length_error) ≡ throws length_error
full_lem b t e = rw e refl

ring-IsStorage : IsStorage ring
ring-IsStorage = record {
  size_contents = λ b. refl;
  contents-make = λ n s h. refl;
  contents-commit = λ n s b b' e h.
      ap (λ c. c.held ++ s) (sym (prepared b b' (leb n (b.room - length b.held)) e));
  prepare_room = λ n b h. elim (Bool-cases (leb n (b.room - length b.held))) [
    | inl e ↦ (b, rw e refl)
    | inr e ↦ absurd (ground arith)
  ];
  prepare_full = λ n b h. full_lem b (leb n (b.room - length b.held)) (ground arith);
  contents-consume = λ n b h. refl;
}

-- A request of six octets of body.
abbrev sized_request : Header
sized_request = record empty_request {
  size = 4;
  md = record empty_request.md { payload = Payload.size; payload_size = 6 };
}

abbrev parts : Parts
parts = record { flat = flat; circular = ring; parse_header = λ h s. (sized_request, success) }

abbrev block : Space
block = record {
  allocated = true;
  begin = 1000;
  front = 1000;
  head = 2024;
  back = 2024;
  last = 2024;
  objects = [];
}

abbrev config : Config
config = record { max_size = 100; min_buffer = 50; max_prepare = 3; body_limit = 64; max_codec = 0 }

abbrev at_header : Parser parts
at_header = record {
  cfg = config;
  ws = block;
  h = empty_request;
  fb = record { room = 150; held = codes "HEADab" };
  cb0 = record { room = 0; held = [] };
  st = header;
  nprepare = 0;
  body_avail = 0;
  body_total = 0;
  payload_remain = 0;
  body_in_cb0 = false;
  got_eof = false;
  head_response = false;
}

abbrev parsed_header : Parser parts
parsed_header = record at_header { h = sized_request }

-- Two octets of the body have come with the header.
abbrev reading : Parser parts
reading = record parsed_header {
  cb0 = record { room = 140; held = codes "ab" };
  st = body;
  body_avail = 2;
  body_total = 2;
  payload_remain = 4;
  body_in_cb0 = true;
}

reading-IsReading : IsReading parts 6 (codes "ab") reading
reading-IsReading = record {
  in_body = refl;
  still_open = refl;
  sized = refl;
  size = refl;
  held = refl;
  avail = refl;
  remain = refl;
  partial = omega arith;
}

abbrev nearly : Parser parts
nearly = record reading {
  cb0 = record { room = 140; held = codes "abcde" };
  nprepare = 3;
  body_avail = 5;
  payload_remain = 1;
}

feed-Progress_example :
    (t : Parser parts) × (ec : ErrorCode) × (feed parts (codes "cde") reading ≡ returns (t, ec))
    × Progress parts 6 (codes "abcde") t ec
unfolding difference
feed-Progress_example =
    feed-Progress parts ring-IsStorage 6 (codes "ab") (codes "cde") reading reading-IsReading
      (omega arith, omega arith)

nearly-Fed : Fed parts ring-IsStorage reading (codes "cde" ∷ []) nearly
unfolding feed prepare prepare_in commit commit_in commit_body parse parse_in parse_body then_
    difference
nearly-Fed =
    piece reading nearly nearly (codes "cde") [] (failure Types.need_data)
      (omega arith, omega arith) refl (stop nearly)

Fed-complete_example :
    (t : Parser parts) × (feed parts (codes "fG") nearly ≡ returns (t, success))
    × (t.st ≡ complete)
    × (body_of parts t ≡ codes "abcdef")
unfolding join difference
Fed-complete_example =
    Fed-complete parts ring-IsStorage 6 (codes "ab") (codes "fG") reading nearly (codes "cde" ∷ [])
      reading-IsReading nearly-Fed (omega arith) (omega arith, omega arith) (omega arith)

commit_eof-parse_example :
    (t : Parser parts) × (then_ (commit_eof parts reading) (parse parts)
      ≡ returns (t, failure incomplete))
    × (body_of parts t ≡ [])
commit_eof-parse_example = commit_eof-parse parts 6 (codes "ab") reading reading-IsReading

-- A request with its body, and the beginning of the next one.
abbrev read : Parser parts
read = record reading {
  ws = record block { front = 1004 };
  fb = record { room = 150; held = codes "HEADabcdefNEXT" };
  cb0 = record { room = 140; held = codes "abcdefNEXT" };
  st = complete;
  body_avail = 6;
  payload_remain = 0;
}

-- A buffer of six octets that holds four of them.
abbrev overfull : Parser parts
overfull = record reading {
  cb0 = record { room = 6; held = codes "abcd" };
  body_avail = 4;
  payload_remain = 2;
}

overfull-IsReading : IsReading parts 6 (codes "abcd") overfull
overfull-IsReading = record {
  in_body = refl;
  still_open = refl;
  sized = refl;
  size = refl;
  held = refl;
  avail = refl;
  remain = refl;
  partial = omega arith;
}

prepare-overfull_example : prepare parts overfull ≡ throws length_error
prepare-overfull_example =
    prepare-overfull parts ring-IsStorage 6 (codes "abcd") overfull overfull-IsReading (omega arith)
      (omega arith) (omega arith) (omega arith)

-- A buffer of eight octets that holds four of them.
abbrev half_full : Parser parts
half_full = record overfull { cb0 = record { room = 8; held = codes "abcd" } }

half_full-IsReading : IsReading parts 6 (codes "abcd") half_full
half_full-IsReading = record {
  in_body = refl;
  still_open = refl;
  sized = refl;
  size = refl;
  held = refl;
  avail = refl;
  remain = refl;
  partial = omega arith;
}

feed-half_example :
    ((q : Parser parts) × (prepare parts half_full ≡ returns (q, 0)))
    × ((t : Parser parts) × (ec : ErrorCode) × (feed parts [] half_full ≡ returns (t, ec))
        × IsReading parts 6 (codes "abcd") t
        × Waits parts t ec)
feed-half_example =
    feed-half parts ring-IsStorage 6 (codes "abcd") half_full half_full-IsReading refl
