-- ===== src/Serializer/Streamed.antt =====
-- From `start_stream` to the last octet of a message.
use mathlib.Core.Option.{some}
use mathlib.Core.Path.{subst}
use http_proto.Types.{Header}
use http_proto.Workspace
use http_proto.Workspace.{reserve_front, push_array}
use http_proto.Serializer.Chunks.{decode}
use http_proto.Serializer.Decoded.{IsChunk, decode-whole}
use http_proto.Serializer.Rounds.{at_rest}
use http_proto.Serializer.Outcomes.{Each, Each-then, Each-weaken, Each-returns}
use http_proto.Serializer.Started.{
  after_init, IsReady, start_init-IsReady, IsArrayed, make_array-IsArrayed,
}
use http_proto.Serializer.Transfer.{send, Fits, coded, send-at_rest}
use http_proto.Serializer.Arrays.{array}
use http_proto.Serializer.Start.{
  header_octets, make_array, start_init, take_storage, start_buffered, start_stream,
}
use http_proto.Base.{
  ℕ, ◌<◌, ◌^◌, ◌≡◌, refl, ap, ◌∙◌, sym, Bool, true, false, List, [], ◌∷◌, ◌++◌, ltb, if◌then◌else◌,
  Bytes, length, replicate, arith, All, if_either,
}
use http_proto.Workspace.{Space, Outcome, returns, throws, Thrown, logic_error}
use http_proto.Serializer.Arrays.{join}
use http_proto.Serializer.Chunks.{chunks}
use http_proto.Serializer.State.{Externals, IsBuffers, stream, Serializer}
use http_proto.Serializer.Calls.{stream_capacity}

module _ (x : Externals) (m : Header) where
  abbrev rows : Bool → List Bytes
  rows c = header_octets m ∷ replicate (if c then 5 else 2) []

  -- A serializer as `start_stream` leaves it: the header prepared, the storage empty.
  abbrev IsStarted : Bool → Serializer x → Type 0
  IsStarted c t =
      (base : Serializer x) × (n : ℕ) × (t
        ≡ at_rest x base c false (rows c) (x.make n) base.chunk_header base.hp_size true)

  IsStored : Serializer x → Serializer x → Type 0
  IsStored s t = (n : ℕ) × (t ≡ record s { out = some (x.make n); more = true })

  take_storage-IsStored : (s : Serializer x) → Each (IsStored s) (take_storage x s)
  unfolding take_storage IsStored
  take_storage-IsStored s =
      if_either (Each (IsStored s)) (ltb (Workspace.size s.ws) 1) (throws Thrown.length_error)
        (returns (record s { out = some (x.make (Workspace.size s.ws)); more = true })) tt
        (Workspace.size s.ws, refl)

  ready_stream : Bool → Serializer x → Serializer x
  ready_stream c base = record (after_init x m c false base) { style = stream }

  started :
      (c : Bool) (base t u : Serializer x)
      → IsArrayed x m (rows c) (ready_stream c base) t
      → IsStored t u
      → IsStarted c u
  unfolding IsStored ready_stream array
  started true base t u (w, e) (n, f) = (record base { ws = w }, n, rw (f, e) refl)
  started false base t u (w, e) (n, f) = (record base { ws = w }, n, rw (f, e) refl)

  start_buffered-IsStarted :
      (c : Bool) (base : Serializer x)
      → Each (IsStarted c) (start_buffered x m (ready_stream c base))
  unfolding start_buffered ready_stream
  start_buffered-IsStarted c base =
      let s = ready_stream c base in
      let r = make_array x (rows c) s in
      Each-then (IsArrayed x m (rows c) s) (IsStarted c) r (take_storage x)
        (make_array-IsArrayed x m (rows c) s)
        (λ t a.
          Each-weaken (IsStored t) (IsStarted c) (take_storage x t) (λ u. started c base t u a)
            (take_storage-IsStored t))

  start_stream-IsStarted :
      (s : Serializer x)
      → m.md.expect.is_100_continue ≡ false
      → Each (IsStarted m.md.transfer_encoding.is_chunked) (start_stream x m s)
  unfolding start_stream ready_stream header_octets start_buffered
  start_stream-IsStarted s k =
      let c = m.md.transfer_encoding.is_chunked in
      Each-then (IsReady x m) (IsStarted c) (start_init x m s) _ (start_init-IsReady x m s)
        (λ t (base, e). rw (e, k) (start_buffered-IsStarted c base))

module _ (x : Externals) (laws : IsBuffers x) where
  send-IsStarted :
      (m : Header) (c : Bool) (s : Serializer x) (w : Bytes) (ws : List Bytes)
      → IsStarted x m c s
      → All (Fits x (stream_capacity x s)) (w ∷ ws)
      → (t : Serializer x) × (send x (w ∷ ws) s ≡ returns (t, header_octets m ++ coded c (w ∷ ws)))
        × (t.is_done ≡ true)
  unfolding stream_capacity
  send-IsStarted m c s w ws (base, n, e) f =
      let b = x.make n in
      let k : stream_capacity x s ≡ n = rw e (laws.capacity-make n) in
      subst
        (λ z.
          (t : Serializer x) × (send x (w ∷ ws) z
            ≡ returns (t, header_octets m ++ coded c (w ∷ ws)))
          × (t.is_done ≡ true))
        (sym e)
        (send-at_rest x laws base c false (rows x m c) b base.chunk_header base.hp_size n
          (header_octets m) w ws refl (laws.contents-make n) (laws.capacity-make n)
          (subst (λ z. All (Fits x z) (w ∷ ws)) k f))

  -- A stream that was started, over a circular buffer as documented, of a message without `Expect:
  -- 100-continue`: whatever is written in rounds of commit, prepare and consume, the last one
  -- closed, no write empty or larger than the storage, the octets that are prepared and consumed
  -- are the header of the message and then the body, in one chunk for each write and the last
  -- chunk where the message is chunked, and the serializer is done.
  pub start_stream-send :
      (m : Header) (s s' : Serializer x) (w : Bytes) (ws : List Bytes)
      → m.md.expect.is_100_continue ≡ false
      → start_stream x m s ≡ returns s'
      → All (Fits x (stream_capacity x s')) (w ∷ ws)
      → (t : Serializer x) × (send x (w ∷ ws) s'
          ≡ returns (t, header_octets m ++ coded m.md.transfer_encoding.is_chunked (w ∷ ws)))
        × (t.is_done ≡ true)
  start_stream-send m s s' w ws k e f =
      send-IsStarted m m.md.transfer_encoding.is_chunked s' w ws
        (Each-returns (IsStarted x m m.md.transfer_encoding.is_chunked) (start_stream x m s) s'
          (start_stream-IsStarted x m s k) e)
        f

  Fits-IsChunk : (n : ℕ) (ss : List Bytes) → n < 2 ^ 64 → All (Fits x n) ss → All IsChunk ss
  Fits-IsChunk n [] b f = tt
  Fits-IsChunk n (s ∷ ss) b (f, fs) = ((f.0, omega arith), Fits-IsChunk n ss b fs)

  -- A stream that was started, of a chunked message without `Expect: 100-continue`, over storage
  -- of less than 2 ^ 64 octets: whatever is written in rounds, no write empty or larger than the
  -- storage, behind the header stands what the reader of the chunked coding takes for exactly the
  -- octets written, with nothing left over.
  pub send-decode :
      (m : Header) (s s' : Serializer x) (w : Bytes) (ws : List Bytes)
      → m.md.expect.is_100_continue ≡ false
      → m.md.transfer_encoding.is_chunked ≡ true
      → start_stream x m s ≡ returns s'
      → All (Fits x (stream_capacity x s')) (w ∷ ws)
      → stream_capacity x s' < 2 ^ 64
      → (t : Serializer x) × (o : Bytes) × (send x (w ∷ ws) s' ≡ returns (t, header_octets m ++ o))
        × (decode (length o) o ≡ some (join (w ∷ ws), []))
  unfolding coded
  send-decode m s s' w ws k c e f b =
      let (t, q, d) = start_stream-send m s s' w ws k e f in
      (
        t,
        chunks (w ∷ ws),
        q ∙ ap (λ z. returns (t, header_octets m ++ coded z (w ∷ ws))) c,
        decode-whole (w ∷ ws) (Fits-IsChunk (stream_capacity x s') (w ∷ ws) b f),
      )
