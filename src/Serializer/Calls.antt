-- ===== src/Serializer/Calls.antt =====
-- `prepare` and `consume` of src/serializer.cpp, without a filter, and the calls of a stream.
use mathlib.Core.Option.{Option, none, some}
use http_proto.Base.{
  ℕ, suc, ◌-◌, Bool, true, false, not, ◌&&◌, ◌||◌, List, [], ◌∷◌, ◌++◌, ◌==◌, ltb, if◌then◌else◌,
  Bytes, length, replicate,
}
use http_proto.Types.{need_data, expect_100_continue}
use http_proto.Workspace.{Outcome, returns, throws, invalid_argument, logic_error}
use http_proto.Serializer.Arrays.{Array, array, buffer_size, consume_items, with_items, set}
use http_proto.Serializer.Arrays
use http_proto.Serializer.Chunks.{chunk_header}
use http_proto.Serializer.State.{
  Read, Externals, Style, empty, buffers, source, stream, Serializer, Prepared, ready, failed_with,
  then_, out_size,
}

abbrev pub is_stream : Style → Bool
is_stream stream = true
is_stream _ = false

abbrev pub is_source : Style → Bool
is_source source = true
is_source _ = false

abbrev pub is_empty_style : Style → Bool
is_empty_style empty = true
is_empty_style _ = false

abbrev pub is_buffers : Style → Bool
is_buffers buffers = true
is_buffers _ = false

-- The size of the first of the buffers
unfoldable pub first_length : List Bytes → ℕ
first_length [] = 0
first_length (b ∷ bs) = length b

unfoldable pub first : List Bytes → List Bytes
first [] = []
first (b ∷ bs) = b ∷ []

-- `for(buffers::const_buffer const& b : output.data()) prepped_[n++] = b;`
unfoldable pub put : ℕ → List Bytes → List Bytes → List Bytes
put n [] items = items
put n (b ∷ bs) items = put (suc n) bs (set n b items)

module _ (x : Externals) where
  -- `output.data()`, a pair of buffers
  unfoldable pub out_parts : Option x.Buffer → List Bytes
  out_parts none = []
  out_parts (some b) = (x.parts b).0 ∷ (x.parts b).1 ∷ []

  unfoldable pub received : Serializer x → x.Buffer → x.Source × Read → Serializer x
  received s b (src, r) = record s {
    src = some src;
    more = not r.finished;
    out = some (x.commit r.octets b);
  }

  -- `src_->read(input.prepare(input.capacity()))`; its error is not looked at.
  unfoldable pub read_source : Serializer x → Option x.Source → Option x.Buffer → Serializer x
  read_source s (some src) (some b) = received s b (x.read src (x.capacity b))
  read_source s none b = s
  read_source s (some src) none = s

  unfoldable pub read_more : Serializer x → Serializer x
  read_more s = if is_source s.style && s.more then read_source s s.src s.out else s

  -- What the user must have consumed before the next call.
  unfoldable pub is_unconsumed : Serializer x → Bool
  is_unconsumed s =
      if s.is_header_done
      then ltb 0 (buffer_size s.prepped.items)
      else not (buffer_size s.prepped.items == first_length s.prepped.items)

  -- The buffers that follow the header.
  unfoldable pub output : Serializer x → List Bytes
  output s =
      if not s.is_chunked
      then out_parts s.out
      else (if s.more || ltb 0 (out_size x s.out)
          then chunk_header (out_size x s.out) ∷ (out_parts s.out ++ (s.chunk_close ∷ []))
          else [])
        ++ (if not s.more then s.last_chunk ∷ [] else [])

  -- From the label `end` on, the header written by `write_chunk_header` in place.
  unfoldable pub fill : Serializer x → Serializer x
  fill s = record s {
    prepped = record s.prepped {
      items =
          (if s.is_header_done
            then put 0 (output s) (replicate s.prepped.capacity [])
            else put 1 (output s) s.prepped.items);
    };
    chunk_header =
        (if s.is_chunked && (s.more || ltb 0 (out_size x s.out))
          then chunk_header (out_size x s.out)
          else s.chunk_header);
  }

  unfoldable pub filled : Serializer x → Outcome (Serializer x × Prepared)
  filled s = returns (s, ready s.prepped.items)

  unfoldable pub prepare_body : Serializer x → Outcome (Serializer x × Prepared)
  prepare_body s =
      if is_stream s.style && (s.more && (out_size x s.out == 0))
      then returns (s, failed_with need_data)
      else filled (fill s)

  unfoldable pub prepare : Serializer x → Outcome (Serializer x × Prepared)
  prepare s =
      if s.is_done
      then throws logic_error
      else if s.is_expect_continue
      then (if not s.is_header_done
          then returns (s, ready (first s.prepped.items))
          else returns (record s { is_expect_continue = false }, failed_with expect_100_continue))
      else if is_empty_style s.style || is_buffers s.style
      then returns (s, ready s.prepped.items)
      else if is_unconsumed s
      then throws logic_error
      else prepare_body (read_more s)

  -- ## consume

  unfoldable pub emptied : Option x.Buffer → Option x.Buffer
  emptied none = none
  emptied (some b) = if ltb 0 (x.size b) then some (x.consume (x.size b) b) else some b

  -- `more_`, when nothing is left of what was prepared
  unfoldable pub more_left : Serializer x → Bool
  more_left s =
      if is_buffers s.style
      then false
      else if is_empty_style s.style && not s.is_expect_continue
      then false
      else s.more

  unfoldable pub drained : Serializer x → Serializer x
  drained s =
      if buffer_size s.prepped.items == 0
      then record s { more = more_left s; out = emptied s.out; is_done = not (more_left s) }
      else s

  unfoldable pub with_prepped : Serializer x → Array → Serializer x
  with_prepped s a = record s { prepped = a }

  unfoldable pub consume_rest : ℕ → Serializer x → Outcome (Serializer x)
  consume_rest n s = then_ (Arrays.consume n s.prepped) (λ a. returns (drained (with_prepped s a)))

  unfoldable pub consume_header : ℕ → Serializer x → Outcome (Serializer x)
  consume_header n s =
      let hn = first_length s.prepped.items in
      if ltb n hn
      then then_ (Arrays.consume n s.prepped) (λ a. returns (with_prepped s a))
      else then_ (Arrays.consume hn s.prepped) (λ a.
        consume_rest (n - hn) (record (with_prepped s a) { is_header_done = true; hp_size = hn }))

  unfoldable pub header_size : Serializer x → ℕ
  header_size s = if s.is_header_done then s.hp_size else first_length s.prepped.items

  unfoldable pub consume : ℕ → Serializer x → Outcome (Serializer x)
  consume n s =
      if s.is_done
      then throws logic_error
      else if s.is_expect_continue && ltb (header_size s) n
      then throws invalid_argument
      else if not s.is_header_done
      then consume_header n s
      else consume_rest n s

  -- ## A stream

  unfoldable pub stream_capacity : Serializer x → ℕ
  stream_capacity s = capacity_of s.out
    where
      capacity_of : Option x.Buffer → ℕ
      capacity_of none = 0
      capacity_of (some b) = x.capacity b

  unfoldable pub stream_size : Serializer x → ℕ
  stream_size s = out_size x s.out

  unfoldable pub is_full : Serializer x → Bool
  is_full s = stream_capacity s == 0

  unfoldable pub committed : Bytes → Option x.Buffer → Option x.Buffer
  committed w none = none
  committed w (some b) = some (x.commit w b)

  -- `prepare()`, the octets `w` written to what it returned, and `commit(w.size())`
  unfoldable pub commit : Bytes → Serializer x → Outcome (Serializer x)
  commit w s =
      if length w == 0 then throws logic_error else returns (record s { out = committed w s.out })

  unfoldable pub close : Serializer x → Outcome (Serializer x)
  close s = if not s.more then throws logic_error else returns (record s { more = false })
