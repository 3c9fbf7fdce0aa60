-- ===== src/Serializer/Started.antt =====
-- What `start_init` and `make_array` leave, and a message whose body is a sequence of buffers.
use http_proto.Types.{Header}
use http_proto.Workspace.{reserve_front, push_array}
use http_proto.Serializer.Outcomes.{Each, Each-then, Always, Each-any}
use http_proto.Serializer.Arrays.{array}
use http_proto.Serializer.Start.{make_array, reserve_chunked, initial, start_init}
use http_proto.Base.{
  ◌*◌, ◌≡◌, refl, Bool, false, List, if◌then◌else◌, Bytes, length, replicate, if_cases,
}
use http_proto.Workspace.{Space, returns}
use http_proto.Serializer.Chunks.{last_chunk, crlf}
use http_proto.Serializer.State.{Externals, Serializer}

module _ (x : Externals) (m : Header) where
  -- A serializer as `start_init` leaves it.
  abbrev pub after_init : Bool → Bool → Serializer x → Serializer x
  after_init c k base = record base {
    is_done = false;
    is_header_done = false;
    is_expect_continue = k;
    is_chunked = c;
    chunk_close = (if c then crlf else base.chunk_close);
    last_chunk = (if c then last_chunk else base.last_chunk);
  }

  abbrev pub IsReady : Serializer x → Type 0
  IsReady t =
      (base : Serializer x) × (t
        ≡ after_init m.md.transfer_encoding.is_chunked m.md.expect.is_100_continue base)

  pub start_init-IsReady : (s : Serializer x) → Each IsReady (start_init x m s)
  unfolding start_init initial reserve_chunked
  start_init-IsReady s =
      let c = m.md.transfer_encoding.is_chunked in
      if_cases (Each IsReady) c (reserve_chunked x (initial x m s)) (returns (initial x m s))
        (λ e.
          Each-then Always IsReady (reserve_front 25 s.ws) _ (Each-any (reserve_front 25 s.ws))
            (λ w _. (record s { ws = w.0; chunk_header = replicate 18 0 }, rw e refl)))
        (λ e. (s, rw e refl))

  abbrev pub IsArrayed : List Bytes → Serializer x → Serializer x → Type 0
  IsArrayed bs s t = (w : Space) × (t ≡ record s { ws = w; prepped = array bs })

  pub make_array-IsArrayed :
      (bs : List Bytes) (s : Serializer x) → Each (IsArrayed bs s) (make_array x bs s)
  unfolding make_array
  make_array-IsArrayed bs s =
      let r = push_array x.array_overhead x.max_align (x.buffer_octets * length bs) s.ws in
      Each-then (λ _. Unit) (IsArrayed bs s) r _ (Each-any r) (λ w _. (w.0, refl))
