-- ===== src/Serializer/Start.antt =====
-- `reset` and the functions `start` of src/serializer.cpp, without a filter.
use mathlib.Core.Option.{none, some}
use http_proto.Base.{
  ℕ, ◌*◌, true, false, not, List, [], ◌∷◌, ◌++◌, ◌==◌, ltb, if◌then◌else◌, Bytes, length, replicate,
  take,
}
use http_proto.Types.{Header}
use http_proto.Workspace.{
  Space, Outcome, returns, throws, Thrown, invalid_argument, logic_error, length_error,
  reserve_front, push_array, clear, emplace,
}
use http_proto.Workspace
use http_proto.Serializer.Arrays.{array, buffer_size}
use http_proto.Serializer.Chunks.{chunk_header, last_chunk, crlf}
use http_proto.Serializer.State.{Externals, empty, buffers, source, stream, Serializer, then_}

-- `{m.ph_->cbuf, m.ph_->size}`
unfoldable pub header_octets : Header → Bytes
header_octets h = take h.size h.cbuf

module _ (x : Externals) where
  unfoldable pub reset : Serializer x → Serializer x
  reset s = record s {
    chunk_header = [];
    chunk_close = [];
    last_chunk = [];
    more = false;
    is_done = false;
    is_chunked = false;
    is_expect_continue = false;
    out = none;
    ws = clear s.ws;
  }

  -- `make_array(n)`: the elements are of `n` empty buffers, then the caller fills them by `bs`.
  unfoldable pub make_array : List Bytes → Serializer x → Outcome (Serializer x)
  make_array bs s =
      then_ (push_array x.array_overhead x.max_align (x.buffer_octets * length bs) s.ws)
        (λ w. returns (record s { ws = w.0; prepped = array bs }))

  -- The 25 octets of `chunked_overhead_`.
  unfoldable pub reserve_chunked : Serializer x → Outcome (Serializer x)
  reserve_chunked s = then_ (reserve_front 25 s.ws) (λ w. returns (record s {
    ws = w.0;
    chunk_header = replicate 18 0;
    chunk_close = crlf;
    last_chunk = last_chunk;
  }))

  unfoldable pub initial : Header → Serializer x → Serializer x
  initial m s = record s {
    is_done = false;
    is_header_done = false;
    is_expect_continue = m.md.expect.is_100_continue;
    is_chunked = m.md.transfer_encoding.is_chunked;
  }

  unfoldable pub start_init : Header → Serializer x → Outcome (Serializer x)
  start_init m s =
      if m.md.transfer_encoding.is_chunked
      then reserve_chunked (initial m s)
      else returns (initial m s)

  unfoldable pub check_last_chunk : Serializer x → Outcome (Serializer x)
  check_last_chunk s = if ltb (Workspace.size s.ws) 5 then throws length_error else returns s

  unfoldable pub start_empty_with : Header → Serializer x → Outcome (Serializer x)
  start_empty_with m s =
      if not s.is_chunked
      then make_array (header_octets m ∷ []) s
      else then_ (make_array (header_octets m ∷ last_chunk ∷ []) s) check_last_chunk

  unfoldable pub start_empty : Header → Serializer x → Outcome (Serializer x)
  start_empty m s =
      then_ (start_init m s) (λ s. start_empty_with m (record s { style = empty; more = true }))

  -- `start_buffers`, with `buf_` filled
  unfoldable pub start_buffers : Header → Serializer x → Outcome (Serializer x)
  start_buffers m s =
      if not s.is_chunked
      then then_ (make_array (header_octets m ∷ s.buf) s)
          (λ s. returns (record s { more = ltb 0 (buffer_size s.buf) }))
      else if buffer_size s.buf == 0
      then then_ (make_array (header_octets m ∷ s.last_chunk ∷ []) s)
          (λ s. returns (record s { more = false }))
      else then_
          (make_array
            (header_octets m
              ∷ chunk_header (buffer_size s.buf)
              ∷ (s.buf ++ (s.chunk_close ∷ s.last_chunk ∷ [])))
            (record s { chunk_header = chunk_header (buffer_size s.buf) }))
          (λ s. returns (record s { more = true }))

  -- `start(m, body)`: the sequence, an object of `n` octets, is kept in the block, and its buffers
  -- are listed in an array there.
  unfoldable pub start_with_buffers :
      ℕ → ℕ → List Bytes → Header → Serializer x → Outcome (Serializer x)
  start_with_buffers n align body m s = then_ (start_init m s) (λ s.
      then_ (emplace n align s.ws) (λ w.
        then_ (push_array x.array_overhead x.max_align (x.buffer_octets * length body) w.0)
          (λ v. start_buffers m (record s { ws = v.0; buf = body; style = buffers }))))

  unfoldable pub take_storage : Serializer x → Outcome (Serializer x)
  take_storage s =
      if ltb (Workspace.size s.ws) 1
      then throws length_error
      else returns (record s { out = some (x.make (Workspace.size s.ws)); more = true })

  -- The array of a source or a stream: the header first, room for what follows it.
  unfoldable pub start_buffered : Header → Serializer x → Outcome (Serializer x)
  start_buffered m s =
      then_ (make_array (header_octets m ∷ replicate (if s.is_chunked then 5 else 2) []) s)
        take_storage

  unfoldable pub start_source : Header → x.Source → Serializer x → Outcome (Serializer x)
  start_source m src s = start_buffered m (record s { style = source; src = some src })

  -- `start<Source>(m, args)`: the source is an object of `n` octets in the block.
  unfoldable pub start_with_source :
      ℕ → ℕ → x.Source → Header → Serializer x → Outcome (Serializer x)
  start_with_source n align src m s =
      then_ (start_init m s)
        (λ s. then_ (emplace n align s.ws) (λ w. start_source m src (record s { ws = w.0 })))

  unfoldable pub start_stream : Header → Serializer x → Outcome (Serializer x)
  start_stream m s = then_ (start_init m s) (λ s. start_buffered m (record s { style = stream }))
