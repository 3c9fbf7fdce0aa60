-- ===== src/Serializer/Sent.antt =====
-- One round of a stream, and a whole transfer.
use mathlib.Core.Option.{some}
use http_proto.Serializer.Rounds.{
  at_rest, sent, round, payload, Lead, consume-rest, consume-done, consume-header, prepare-fill,
  join-fill,
}
use http_proto.Base.{
  ℕ, suc, ◌+◌, ◌<◌, ◌≡◌, refl, ap, ◌∙◌, Bool, true, false, not, List, [], ◌∷◌, ◌++◌, ltb,
  if◌then◌else◌, Bytes, length, replicate, arith, if_cases, ltb-false,
}
use http_proto.Workspace.{returns}
use http_proto.Serializer.Arrays.{Array, buffer_size, join, consume_items, with_items}
use http_proto.Serializer.Arrays
use http_proto.Serializer.Consumed.{drop-all}
use http_proto.Serializer.State.{Externals, IsBuffers, stream, Serializer, then_, contents}
use http_proto.Serializer.Calls.{
  filled, fill, output, put, consume, with_prepped, drained, emptied, more_left,
}

module _ (x : Externals) (laws : IsBuffers x) where
  emptied_lem :
      (b : x.Buffer)
      → (b' : x.Buffer) × (emptied x (some b) ≡ some b')
        × (contents x b' ≡ [])
        × (x.capacity b' ≡ x.capacity b + x.size b)
  unfolding emptied
  emptied_lem b =
      if_cases
        (λ o.
          (b' : x.Buffer) × (o ≡ some b')
          × (contents x b' ≡ [])
          × (x.capacity b' ≡ x.capacity b + x.size b))
        (ltb 0 (x.size b)) (some (x.consume (x.size b) b)) (some b)
        (λ _. (
          x.consume (x.size b) b,
          refl,
          laws.contents-consume (x.size b) b (omega arith)
              ∙ drop-all (x.size b) (contents x b) (omega (arith, laws.size_contents b)),
          laws.capacity-consume (x.size b) b (omega arith),
        ))
        (λ h.
          let z = ltb-false 0 (x.size b) h in
          (b, refl, drop-all 0 (contents x b) (omega (arith, laws.size_contents b)), omega arith))

  put-header :
      (n : ℕ) (bs : List Bytes) (h : Bytes) (items : List Bytes)
      → put (suc n) bs (h ∷ items) ≡ h ∷ put n bs items
  unfolding put Arrays.set
  put-header n [] h items = refl
  put-header n (b ∷ bs) h items = put-header (suc n) bs h (Arrays.set n b items)

  module _ (s : Serializer x) (c : Bool) (items : List Bytes) (b : x.Buffer) (ch : Bytes) (hp : ℕ)
      (more : Bool) (hdr : Bytes) where
    -- All that was prepared can be consumed, and the header is done then.
    consume-fill :
        (d : Bool)
        → Lead c d items hdr
        → let t = fill x (at_rest x s c d items b ch hp more) in
          (cs : List Bytes) × (hp' : ℕ) × (consume x (buffer_size t.prepped.items) t
            ≡ returns (drained x (at_rest x s c true cs b t.chunk_header hp' more)))
          × (buffer_size cs ≡ 0)
    unfolding fill with_prepped
    consume-fill true (e, f) =
        let t = fill x (at_rest x s c true items b ch hp more) in
        let (cs, q, z) = consume-rest x t in
        (cs, hp, consume-done x (buffer_size t.prepped.items) t refl refl refl ∙ q, z)
    consume-fill false e =
        let t = fill x (at_rest x s c false items b ch hp more) in
        let bs =
          put 0 (output x (at_rest x s c false items b ch hp more))
            (replicate (if c then 5 else 2) []) in
        let i : t.prepped.items ≡ hdr ∷ bs =
          ap (λ z. put 1 (output x (at_rest x s c false items b ch hp more)) z) e
          ∙ put-header 0 (output x (at_rest x s c false items b ch hp more)) hdr
              (replicate (if c then 5 else 2) []) in
        let u : Serializer x = record t {
          prepped = record t.prepped { items = bs };
          is_header_done = true;
          hp_size = length hdr;
        } in
        let (cs, q, z) = consume-rest x u in
        (cs, length hdr, consume-header x hdr bs t refl refl refl i ∙ q, z)

    round-drained :
        (d : Bool)
        → Lead c d items hdr
        → 0 < x.size b
        → (cs : List Bytes) × (ch' : Bytes) × (hp' : ℕ) × (round x
              (at_rest x s c d items b ch hp more)
            ≡ returns (
              drained x (at_rest x s c true cs b ch' hp' more),
              hdr ++ payload c more (contents x b),
            ))
          × (buffer_size cs ≡ 0)
    unfolding round sent filled then_
    round-drained d l h =
        let t = fill x (at_rest x s c d items b ch hp more) in
        let (cs, hp', q, z) = consume-fill d l in
        (
          cs,
          t.chunk_header,
          hp',
          rw
              (
                prepare-fill x laws s c d items b ch hp more hdr l h,
                q,
                join-fill x laws s c d items b ch hp more hdr l h,
              )
              refl,
          z,
        )

  drained-all :
      (s : Serializer x) (c : Bool) (cs : List Bytes) (b b' : x.Buffer) (ch : Bytes) (hp : ℕ)
      (more : Bool)
      → buffer_size cs ≡ 0
      → emptied x (some b) ≡ some b'
      → drained x (at_rest x s c true cs b ch hp more)
        ≡ record (at_rest x s c true cs b' ch hp more) { is_done = not more }
  unfolding drained more_left
  drained-all s c cs b b' ch hp more z e = rw (z, e) refl

  -- The octets of the round, framed, are what is left of the header and what was committed; the
  -- serializer is ready for more, with all of its storage, or done.
  pub round-at_rest :
      (s : Serializer x) (c d : Bool) (items : List Bytes) (b : x.Buffer) (ch : Bytes) (hp : ℕ)
      (more : Bool) (hdr : Bytes)
      → Lead c d items hdr
      → 0 < x.size b
      → (cs : List Bytes) × (b' : x.Buffer) × (ch' : Bytes) × (hp' : ℕ) × (round x
            (at_rest x s c d items b ch hp more)
          ≡ returns (
            record (at_rest x s c true cs b' ch' hp' more) { is_done = not more },
            hdr ++ payload c more (contents x b),
          ))
        × (buffer_size cs ≡ 0)
        × (contents x b' ≡ [])
        × (x.capacity b' ≡ x.capacity b + x.size b)
  round-at_rest s c d items b ch hp more hdr l h =
      let (cs, ch', hp', q, z) = round-drained s c items b ch hp more hdr d l h in
      let (b', e, k, w) = emptied_lem b in
      let o = hdr ++ payload c more (contents x b) in
      (
        cs,
        b',
        ch',
        hp',
        q ∙ ap (λ t. returns (t, o)) (drained-all s c cs b b' ch' hp' more z e),
        z,
        k,
        w,
      )

  -- When all that was prepared is consumed, of a stream whose header is done, that is not done and
  -- waits for no 100-continue, the storage is empty afterwards, whatever it held: octets committed
  -- after `prepare` are lost. The serializer is done if the stream is closed.
  pub consume-empties :
      (s : Serializer x) (b : x.Buffer)
      → s.is_done ≡ false
      → s.is_expect_continue ≡ false
      → s.is_header_done ≡ true
      → s.style ≡ stream
      → s.out ≡ some b
      → (t : Serializer x) × (b' : x.Buffer) × (consume x (buffer_size s.prepped.items) s
          ≡ returns t)
        × (t.out ≡ some b')
        × (contents x b' ≡ [])
        × (t.is_done ≡ not s.more)
  unfolding drained with_prepped more_left
  consume-empties s b d e h y o =
      let (cs, q, z) = consume-rest x s in
      let (b', k, w, _) = emptied_lem b in
      (
        drained x (with_prepped x s (record s.prepped { items = cs })),
        b',
        consume-done x (buffer_size s.prepped.items) s d e h ∙ q,
        rw (z, o, k) refl,
        w,
        rw (z, y) refl,
      )
