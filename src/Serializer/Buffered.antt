-- ===== src/Serializer/Buffered.antt =====
-- A message whose body is a sequence of buffers of the user.
use mathlib.Core.List.{append_assoc}
use http_proto.Types.{Header}
use http_proto.Workspace.{push_array, emplace}
use http_proto.Serializer.Rounds.{sent, round, consume-rest, consume-header}
use http_proto.Serializer.Outcomes.{Each, Each-then, Always, Each-any, Each-returns}
use http_proto.Serializer.Started.{
  after_init, IsReady, start_init-IsReady, IsArrayed, make_array-IsArrayed,
}
use http_proto.Serializer.Arrays.{array}
use http_proto.Serializer.Start.{
  header_octets, make_array, start_init, start_buffers, start_with_buffers,
}
use http_proto.Base.{
  ℕ, ◌*◌, ◌≡◌, refl, ap, ◌∙◌, Bool, true, false, List, [], ◌∷◌, ◌++◌, ◌==◌, if◌then◌else◌, Bytes,
  length, if_cases,
}
use http_proto.Workspace.{returns}
use http_proto.Serializer.Arrays.{buffer_size, join}
use http_proto.Serializer.Consumed.{length-join, join-append}
use http_proto.Serializer.Chunks.{chunk_header, last_chunk, crlf, chunk}
use http_proto.Serializer.State.{Externals, buffers, Serializer, ready, then_}
use http_proto.Serializer.Calls.{prepare, consume, with_prepped, drained, more_left}

-- The body on the wire: one chunk of all the buffers, where there is a body.
pub framed : Bool → List Bytes → Bytes
framed false body = join body
framed true body = if buffer_size body == 0 then last_chunk else chunk (join body) ++ last_chunk

framed-parts :
    (body : List Bytes)
    → join (chunk_header (buffer_size body) ∷ (body ++ (crlf ∷ last_chunk ∷ [])))
      ≡ chunk (join body) ++ last_chunk
unfolding join chunk
framed-parts body =
    rw (length-join body, join-append body (crlf ∷ last_chunk ∷ [])) (simp append_assoc refl)

module _ (x : Externals) (m : Header) where
  -- A serializer with a header and a body in buffers before it.
  abbrev pub IsPrepared : Bytes → Serializer x → Type 0
  IsPrepared wire t =
      (bs : List Bytes) × (t.prepped.items ≡ header_octets m ∷ bs)
      × (join bs ≡ wire)
      × (t.is_done ≡ false)
      × (t.is_expect_continue ≡ false)
      × (t.is_header_done ≡ false)
      × (t.style ≡ buffers)

  start_buffers-IsPrepared :
      (c : Bool) (body : List Bytes) (base : Serializer x)
      → Each
          (IsPrepared (framed c body))
          (start_buffers x m (record (after_init x m c false base) { buf = body; style = buffers }))
  unfolding start_buffers framed array join
  start_buffers-IsPrepared false body base =
      let s : Serializer x = record (after_init x m false false base) {
        buf = body;
        style = buffers;
      } in
      let bs = header_octets m ∷ body in
      Each-then (IsArrayed x m bs s) (IsPrepared (join body)) (make_array x bs s) _
        (make_array-IsArrayed x m bs s)
        (λ t (w, e). rw e (body, refl, refl, refl, refl, refl, refl))
  start_buffers-IsPrepared true body base =
      let n = buffer_size body in
      let s : Serializer x = record (after_init x m true false base) {
        buf = body;
        style = buffers;
      } in
      let u : Serializer x = record s { chunk_header = chunk_header n } in
      let none_ = header_octets m ∷ last_chunk ∷ [] in
      let all = header_octets m ∷ chunk_header n ∷ (body ++ (crlf ∷ last_chunk ∷ [])) in
      if_cases (Each (IsPrepared (if n == 0 then last_chunk else chunk (join body) ++ last_chunk)))
        (n == 0) (then_ (make_array x none_ s) (λ s. returns (record s { more = false })))
        (then_ (make_array x all u) (λ s. returns (record s { more = true })))
        (λ h.
          Each-then (IsArrayed x m none_ s)
            (IsPrepared (if n == 0 then last_chunk else chunk (join body) ++ last_chunk))
            (make_array x none_ s) _ (make_array-IsArrayed x m none_ s)
            (λ t (w, e). rw (e, h) (last_chunk ∷ [], refl, refl, refl, refl, refl, refl)))
        (λ h.
          Each-then (IsArrayed x m all u)
            (IsPrepared (if n == 0 then last_chunk else chunk (join body) ++ last_chunk))
            (make_array x all u) _ (make_array-IsArrayed x m all u)
            (λ t (w, e).
              rw (e, h)
                (
                  chunk_header n ∷ (body ++ (crlf ∷ last_chunk ∷ [])),
                  refl,
                  framed-parts body,
                  refl,
                  refl,
                  refl,
                  refl,
                )))

  prepare-IsPrepared :
      (wire : Bytes) (t : Serializer x)
      → IsPrepared wire t
      → prepare x t ≡ returns (t, ready t.prepped.items)
  unfolding prepare
  prepare-IsPrepared wire t (bs, i, j, d, e, h, y) = rw (d, e, y) refl

  round-IsPrepared :
      (wire : Bytes) (t : Serializer x)
      → IsPrepared wire t
      → (u : Serializer x) × (round x t ≡ returns (u, header_octets m ++ wire)) × (u.is_done ≡ true)
  unfolding round sent then_ drained with_prepped more_left join
  round-IsPrepared wire t p =
      let (bs, i, j, d, e, h, y) = p in
      let t' : Serializer x = record t {
        prepped = record t.prepped { items = bs };
        is_header_done = true;
        hp_size = length (header_octets m);
      } in
      let (cs, q, z) = consume-rest x t' in
      let v = drained x (with_prepped x t' (record t'.prepped { items = cs })) in
      let k : join t.prepped.items ≡ header_octets m ++ wire =
        ap join i ∙ ap (λ z. header_octets m ++ z) j in
      let o : consume x (buffer_size t.prepped.items) t ≡ returns v =
        consume-header x (header_octets m) bs t d e h i ∙ q in
      (
        v,
        ap (λ r. then_ r (sent x)) (prepare-IsPrepared wire t p)
            ∙ ap (λ r. then_ r (λ u. returns (u, join t.prepped.items))) o
            ∙ ap (λ z. returns (v, z)) k,
        rw (z, y) refl,
      )

  start_with_buffers-IsPrepared :
      (n align : ℕ) (body : List Bytes) (s : Serializer x)
      → m.md.expect.is_100_continue ≡ false
      → Each
          (IsPrepared (framed m.md.transfer_encoding.is_chunked body))
          (start_with_buffers x n align body m s)
  unfolding start_with_buffers start_buffers header_octets
  start_with_buffers-IsPrepared n align body s k =
      let c = m.md.transfer_encoding.is_chunked in
      let P = IsPrepared (framed c body) in
      Each-then (IsReady x m) P (start_init x m s) _ (start_init-IsReady x m s) (λ t (base, e).
        let r = emplace n align t.ws in
        Each-then Always P r _ (Each-any r) (λ w _.
          let a = push_array x.array_overhead x.max_align (x.buffer_octets * length body) w.0 in
          Each-then Always P a _ (Each-any a)
            (λ v _. rw (e, k) (start_buffers-IsPrepared c body (record base { ws = v.0 })))))

  -- A message started with a body in buffers, without `Expect: 100-continue`: where there is storage
  -- for it, what `prepare` returns is the header and then the body, as one chunk and the last chunk
  -- where the message is chunked, and the serializer is done when all of it is consumed.
  pub start_with_buffers-round :
      (n align : ℕ) (body : List Bytes) (s s' : Serializer x)
      → m.md.expect.is_100_continue ≡ false
      → start_with_buffers x n align body m s ≡ returns s'
      → (t : Serializer x) × (round x s'
          ≡ returns (t, header_octets m ++ framed m.md.transfer_encoding.is_chunked body))
        × (t.is_done ≡ true)
  start_with_buffers-round n align body s s' k e =
      let P = IsPrepared (framed m.md.transfer_encoding.is_chunked body) in
      round-IsPrepared (framed m.md.transfer_encoding.is_chunked body) s' (
        Each-returns P (start_with_buffers x n align body m s) s'
          (start_with_buffers-IsPrepared n align body s k) e)
