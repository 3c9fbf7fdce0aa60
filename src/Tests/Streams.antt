-- ===== src/Tests/Streams.antt =====
-- A serializer over a concrete circular buffer.
use mathlib.Core.Option.{none, some}
use http_proto.Base.{
  ℕ, ◌+◌, ◌-◌, ◌≡◌, refl, ap, ◌∙◌, sym, true, false, List, [], ◌∷◌, ◌++◌, Bytes, codes, take, drop,
  length, take-append-drop, arith,
}
use http_proto.Types.{Header}
use http_proto.Workspace.{
  Space, Outcome, returns, throws, logic_error, reserve_front, push_array, placed, bump_down,
  emplace,
}
use http_proto.Serializer.Arrays.{array, consume_items, buffer_size, join}
use http_proto.Serializer.Chunks.{chunk_header, read_size, decode, chunks}
use http_proto.Serializer.Decoded.{read_size-chunk_header, decode-chunks}
use http_proto.Serializer.Consumed.{Leaves, consume_items-Leaves}
use http_proto.Serializer.State.{Read, Externals, IsBuffers, Serializer, stream, then_, contents}
use http_proto.Serializer.Calls.{consume, stream_capacity}
use http_proto.Serializer.Start.{
  start_stream, start_init, initial, reserve_chunked, start_buffered, make_array, take_storage,
  header_octets, start_with_buffers, start_buffers,
}
use http_proto.Serializer.Conserved.{Consumes, consume-Consumes}
use http_proto.Serializer.Rounds.{round}
use http_proto.Serializer.Sent.{consume-empties}
use http_proto.Serializer.Transfer.{send, coded}
use http_proto.Serializer.Streamed.{start_stream-send, send-decode}
use http_proto.Serializer.Buffered.{framed, start_with_buffers-round}
use http_proto.Tests.Samples.{empty_request}

record Ring : Type 0 where
  room : ℕ
  held : Bytes

-- Two octets stand at the end of the storage, the others at its beginning.
abbrev ring : Externals
ring = record {
  Buffer = Ring;
  make = λ n. record { room = n; held = [] };
  size = λ b. length b.held;
  capacity = λ b. b.room;
  parts = λ b. (take 2 b.held, drop 2 b.held);
  commit = λ s b. record { room = b.room - length s; held = b.held ++ s };
  consume = λ n b. record { room = b.room + n; held = drop n b.held };
  Source = List Read;
  read = λ s n. (s, record { failed = true; octets = []; finished = true });
  buffer_octets = 16;
  array_overhead = 32;
  max_align = 16;
}

held_lem : (b : Ring) → contents ring b ≡ b.held
unfolding contents
held_lem b = take-append-drop 2 b.held

ring-IsBuffers : IsBuffers ring
unfolding contents
ring-IsBuffers = record {
  size_contents = λ b. ap length (sym (held_lem b));
  contents-make = λ n. refl;
  capacity-make = λ n. refl;
  contents-commit = λ s b h.
      held_lem (record { room = b.room - length s; held = b.held ++ s })
      ∙ ap (λ z. z ++ s) (sym (held_lem b));
  capacity-commit = λ s b h. refl;
  contents-consume = λ n b h.
      held_lem (record { room = b.room + n; held = drop n b.held })
      ∙ ap (drop n) (sym (held_lem b));
  capacity-consume = λ n b h. refl;
}

abbrev block : Space
block = record {
  allocated = true;
  begin = 1000;
  front = 1000;
  head = 2024;
  back = 2024;
  last = 2024;
  objects = [];
}

abbrev idle : Serializer ring
idle = record {
  ws = block;
  buf = [];
  src = none;
  out = none;
  prepped = array [];
  hp_size = 0;
  chunk_header = [];
  chunk_close = [];
  last_chunk = [];
  style = stream;
  more = false;
  is_done = false;
  is_header_done = false;
  is_chunked = false;
  is_expect_continue = false;
}

abbrev chunked_request : Header
chunked_request = record empty_request {
  md = record empty_request.md {
    transfer_encoding = record empty_request.md.transfer_encoding { is_chunked = true };
  };
}

result : Outcome (Serializer ring) → Serializer ring
result (returns s) = s
result (throws t) = idle

started : Serializer ring
started = result (start_stream ring chunked_request idle)

abbrev hello : Bytes
hello = codes "Hello"

start_stream-send_example :
    (t : Serializer ring) × (send ring (hello ∷ codes "!" ∷ []) started
      ≡ returns (t, header_octets chunked_request ++ coded true (hello ∷ codes "!" ∷ [])))
    × (t.is_done ≡ true)
unfolding started result start_stream start_init initial reserve_chunked start_buffered make_array
    take_storage then_ reserve_front push_array placed bump_down stream_capacity array
start_stream-send_example =
    start_stream-send ring ring-IsBuffers chunked_request idle started hello (codes "!" ∷ []) refl
      refl (omega arith)

send-decode_example :
    (t : Serializer ring) × (o : Bytes) × (send ring (hello ∷ codes "!" ∷ []) started
      ≡ returns (t, header_octets chunked_request ++ o))
    × (decode (length o) o ≡ some (join (hello ∷ codes "!" ∷ []), []))
unfolding started result start_stream start_init initial reserve_chunked start_buffered make_array
    take_storage then_ reserve_front push_array placed bump_down stream_capacity array
send-decode_example =
    send-decode ring ring-IsBuffers chunked_request idle started hello (codes "!" ∷ []) refl refl
      refl (omega arith) (omega arith)

abbrev body : List Bytes
body = hello ∷ codes "!" ∷ []

with_body : Serializer ring
with_body = result (start_with_buffers ring 24 8 body chunked_request idle)

start_with_buffers-round_example :
    (t : Serializer ring) × (round ring with_body
      ≡ returns (t, header_octets chunked_request ++ framed true body))
    × (t.is_done ≡ true)
unfolding with_body result start_with_buffers start_init initial reserve_chunked start_buffers
    make_array then_ reserve_front push_array emplace placed bump_down array buffer_size
start_with_buffers-round_example =
    start_with_buffers-round ring chunked_request 24 8 body idle with_body refl refl

-- The header partly consumed, the body before it.
abbrev halfway : Serializer ring
halfway = record idle { prepped = array (codes "\r\n" ∷ [] ∷ hello ∷ []) }

consume-Consumes_example : Consumes ring 4 (codes "\r\n" ∷ [] ∷ hello ∷ []) (consume ring 4 halfway)
unfolding array
consume-Consumes_example = consume-Consumes ring 4 halfway refl refl

-- The body is prepared, another octet is committed behind it.
abbrev late : Serializer ring
late = record idle {
  prepped = array (hello ∷ []);
  is_header_done = true;
  out = some (record { room = 10; held = hello ++ codes "!" });
}

consume-empties_example :
    (t : Serializer ring) × (b : Ring) × (consume ring 5 late ≡ returns t)
    × (t.out ≡ some b)
    × (contents ring b ≡ [])
    × (t.is_done ≡ true)
unfolding array buffer_size
consume-empties_example =
    consume-empties ring ring-IsBuffers late (record { room = 10; held = hello ++ codes "!" }) refl
      refl refl refl refl

read_size-chunk_header_example :
    (length (chunk_header 0x1f) ≡ 18)
    × (read_size none (chunk_header 0x1f ++ hello) ≡ some (0x1f, hello))
read_size-chunk_header_example = read_size-chunk_header 0x1f hello (omega arith)

decode-chunks_example : decode 3 (chunks body ++ hello) ≡ some (join body, hello)
decode-chunks_example = decode-chunks 3 body hello (omega arith) (omega arith)

consume_items-Leaves_example :
    Leaves 6 (hello ∷ hello ∷ []) logic_error (consume_items 6 (hello ∷ hello ∷ []))
consume_items-Leaves_example = consume_items-Leaves 6 (hello ∷ hello ∷ [])
