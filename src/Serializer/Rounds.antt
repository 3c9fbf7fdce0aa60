-- ===== src/Serializer/Rounds.antt =====
-- A stream used in rounds: octets are committed, the serializer prepares, all of it is consumed.
use mathlib.Core.Option.{some}
use mathlib.Core.List.{append_assoc, append-nil}
use http_proto.Base.{
  ℕ, ◌+◌, ◌-◌, ◌<◌, ◌≡◌, refl, ap, ◌∙◌, sym, Bool, true, false, not, ◌&&◌, List, [], ◌∷◌, ◌++◌,
  ◌==◌, ltb, if◌then◌else◌, Bytes, length, replicate, arith,
}
use http_proto.Workspace.{Outcome, returns, throws, logic_error}
use http_proto.Serializer.Arrays.{Array, buffer_size, join, consume_items, with_items}
use http_proto.Serializer.Arrays
use http_proto.Serializer.Consumed.{length-join, Leaves, consume_items-Leaves, drop-all}
use http_proto.Serializer.Chunks.{chunk_header, last_chunk, crlf, chunk}
use http_proto.Serializer.State.{
  Externals, IsBuffers, stream, Serializer, Prepared, ready, failed_with, then_, out_size, contents,
}
use http_proto.Serializer.Calls.{
  prepare, prepare_body, filled, fill, output, out_parts, put, read_more, is_unconsumed, consume,
  consume_header, consume_rest, with_prepped, drained, first_length,
}

-- All the octets consumed, nothing is left.
consume_items-all :
    (bs : List Bytes)
    → (cs : List Bytes) × (consume_items (buffer_size bs) bs ≡ returns cs) × (buffer_size cs ≡ 0)
consume_items-all bs =
    all_of bs (consume_items (buffer_size bs) bs) refl (consume_items-Leaves (buffer_size bs) bs)
  where
    all_of :
        (bs : List Bytes) (r : Outcome (List Bytes))
        → consume_items (buffer_size bs) bs ≡ r
        → Leaves (buffer_size bs) bs logic_error r
        → (cs : List Bytes) × (consume_items (buffer_size bs) bs ≡ returns cs)
          × (buffer_size cs ≡ 0)
    all_of bs (throws t) e (l, q) = absurd (omega arith)
    all_of bs (returns cs) e (l, q) = (
      cs,
      e,
      sym (length-join cs)
          ∙ ap length (q ∙ drop-all (buffer_size bs) (join bs) (omega (arith, length-join bs))),
    )

consume_items-first : (b : Bytes) (bs : List Bytes) → consume_items (length b) (b ∷ bs) ≡ returns bs
unfolding consume_items
consume_items-first b bs = ground arith

-- What is on the wire of the octets of a round.
unfoldable pub payload : Bool → Bool → Bytes → Bytes
payload false more s = s
payload true true s = chunk s
payload true false s = chunk s ++ last_chunk

-- What of the header is not consumed yet.
abbrev pub Lead : Bool → Bool → List Bytes → Bytes → Type 0
Lead c true items hdr = (buffer_size items ≡ 0) × (hdr ≡ [])
Lead c false items hdr = items ≡ hdr ∷ replicate (if c then 5 else 2) []

and_false : (b : Bool) → (b && false) ≡ false
and_false true = refl
and_false false = refl

module _ (x : Externals) where
  -- All that `prepare` returned is consumed; on an error nothing is.
  unfoldable pub sent : Serializer x × Prepared → Outcome (Serializer x × Bytes)
  sent (s, ready bs) = then_ (consume x (buffer_size bs) s) (λ t. returns (t, join bs))
  sent (s, failed_with e) = returns (s, [])

  unfoldable pub round : Serializer x → Outcome (Serializer x × Bytes)
  round s = then_ (prepare x s) sent

  -- Between two rounds of a stream.
  abbrev pub at_rest :
      Serializer x → Bool → Bool → List Bytes → x.Buffer → Bytes → ℕ → Bool → Serializer x
  at_rest base chunked done items b ch hp more = record base {
    style = stream;
    more = more;
    is_done = false;
    is_header_done = done;
    is_chunked = chunked;
    is_expect_continue = false;
    prepped = record { items = items; capacity = if chunked then 6 else 3 };
    out = some b;
    chunk_header = ch;
    hp_size = hp;
    chunk_close = (if chunked then crlf else base.chunk_close);
    last_chunk = (if chunked then last_chunk else base.last_chunk);
  }

  pub consume-rest :
      (s : Serializer x)
      → (cs : List Bytes) × (consume_rest x (buffer_size s.prepped.items) s
          ≡ returns (drained x (with_prepped x s (record s.prepped { items = cs }))))
        × (buffer_size cs ≡ 0)
  unfolding consume_rest Arrays.consume then_ with_items
  consume-rest s = let (cs, e, z) = consume_items-all s.prepped.items in (cs, rw e refl, z)

  pub consume-done :
      (n : ℕ) (s : Serializer x)
      → s.is_done ≡ false
      → s.is_expect_continue ≡ false
      → s.is_header_done ≡ true
      → consume x n s ≡ consume_rest x n s
  unfolding consume
  consume-done n s d e h = rw (d, e, h) refl

  pub consume-header :
      (b : Bytes) (bs : List Bytes) (s : Serializer x)
      → s.is_done ≡ false
      → s.is_expect_continue ≡ false
      → s.is_header_done ≡ false
      → s.prepped.items ≡ b ∷ bs
      → consume x (buffer_size s.prepped.items) s
        ≡ consume_rest x (buffer_size bs) (record s {
          prepped = record s.prepped { items = bs };
          is_header_done = true;
          hp_size = length b;
        })
  unfolding consume consume_header Arrays.consume then_ with_items first_length buffer_size
      with_prepped
  consume-header b bs s d e h i =
      let lo : ltb (length b + buffer_size bs) (length b) ≡ false = ground arith in
      let m : length b + buffer_size bs - length b ≡ buffer_size bs = omega arith in
      rw (d, e, h, i, lo, consume_items-first b bs, m) refl

  module _ (laws : IsBuffers x) where
    unconsumed_lem :
        (c d : Bool) (items : List Bytes) (hdr : Bytes)
        → Lead c d items hdr
        → (if d then ltb 0 (buffer_size items) else not (buffer_size items == first_length items))
          ≡ false
    unfolding first_length buffer_size
    unconsumed_lem c true items hdr (e, f) = rw e refl
    unconsumed_lem true false items hdr e = rw e (ground arith)
    unconsumed_lem false false items hdr e = rw e (ground arith)

    pub prepare-fill :
        (s : Serializer x) (c d : Bool) (items : List Bytes) (b : x.Buffer) (ch : Bytes) (hp : ℕ)
        (more : Bool) (hdr : Bytes)
        → Lead c d items hdr
        → 0 < x.size b
        → prepare x (at_rest s c d items b ch hp more)
          ≡ filled x (fill x (at_rest s c d items b ch hp more))
    unfolding prepare prepare_body read_more is_unconsumed out_size
    prepare-fill s c d items b ch hp more hdr l h =
        let z : (x.size b == 0) ≡ false = ground arith in
        rw (unconsumed_lem c d items hdr l, z, and_false more) refl

    contents-append :
        (b : x.Buffer) (s : Bytes) → contents x b ++ s ≡ (x.parts b).0 ++ ((x.parts b).1 ++ s)
    unfolding contents
    contents-append b s = append_assoc (x.parts b).0 (x.parts b).1 s

    chunk_parts :
        (b : x.Buffer)
        → chunk (contents x b)
          ≡ chunk_header (x.size b) ++ ((x.parts b).0 ++ ((x.parts b).1 ++ crlf))
    unfolding chunk
    chunk_parts b = rw (laws.size_contents b, contents-append b crlf) refl

    contents_parts : (b : x.Buffer) → contents x b ≡ (x.parts b).0 ++ (x.parts b).1
    unfolding contents
    contents_parts b = refl

    pub join-fill :
        (s : Serializer x) (c d : Bool) (items : List Bytes) (b : x.Buffer) (ch : Bytes) (hp : ℕ)
        (more : Bool) (hdr : Bytes)
        → Lead c d items hdr
        → 0 < x.size b
        → join (fill x (at_rest s c d items b ch hp more)).prepped.items
          ≡ hdr ++ payload c more (contents x b)
    unfolding fill output out_parts put Arrays.set join payload out_size
    join-fill s false true items b ch hp more hdr (e, f) h =
        rw (f, contents_parts b) (simp append-nil refl)
    join-fill s false false items b ch hp more hdr e h =
        rw (e, contents_parts b) (simp append-nil refl)
    join-fill s true true items b ch hp true hdr (e, f) h = rw (f, chunk_parts b) refl
    join-fill s true true items b ch hp false hdr (e, f) h =
        let z : ltb 0 (x.size b) ≡ true = ground arith in
        rw (f, z, chunk_parts b) (simp append_assoc refl)
    join-fill s true false items b ch hp true hdr e h = rw (e, chunk_parts b) refl
    join-fill s true false items b ch hp false hdr e h =
        let z : ltb 0 (x.size b) ≡ true = ground arith in
        rw (e, z, chunk_parts b) (simp append_assoc refl)
