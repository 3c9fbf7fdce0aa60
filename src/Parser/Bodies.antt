-- ===== src/Parser/Bodies.antt =====
-- A body from its first octets behind the header to its last piece.
use mathlib.Core.Path.{subst}
use mathlib.Core.List.{append_assoc, append-nil}
use http_proto.Base.{
  ℕ, ◌≤◌, ◌<◌, ◌≡◌, inl, inr, refl, ap, ◌∙◌, sym, false, List, [], ◌∷◌, ◌++◌, Bytes, length,
  length-append, take, arith,
}
use http_proto.Types.{ErrorCode, success}
use http_proto.Workspace.{Outcome, returns, throws}
use http_proto.Serializer.State.{then_}
use http_proto.Parser.State.{IsStorage, Parts, body, complete, Parser}
use http_proto.Parser.Delivered.{feed, room, IsReading, Progress, prepare-body, fed_lem}
use http_proto.Serializer.Arrays.{join}
use http_proto.Parser.Calls.{prepare, commit}
use http_proto.Parser.Parse.{parse, body_of}

result_or : {A : Type 0} → A → Outcome A → A
result_or a (returns b) = b
result_or a (throws t) = a

module _ (x : Parts) (laws : IsStorage x.circular) where
  -- The octets are no more than `prepare` returns, and `prepare` does not throw.
  abbrev pub HasRoom : Bytes → Parser x → Type 0
  HasRoom s p = (length s ≤ room x p) × (room x p ≤ x.circular.capacity p.cb0)

  prepare-returns :
      (p : Parser x) (k : ℕ) (b : x.circular.Buffer)
      → p.st ≡ body
      → p.got_eof ≡ false
      → room x p ≡ k
      → x.circular.prepare k p.cb0 ≡ returns b
      → prepare x p ≡ returns (record p { cb0 = b; nprepare = k }, k)
  unfolding then_
  prepare-returns p k b a e m r = prepare-body x p a e ∙ rw (m, r) refl

  -- A piece of a body of `n` octets, of which the parser holds the first ones, where what `prepare`
  -- asks the buffer for is within its free space, and the piece within that: it is taken, and
  -- `parse` succeeds, with the message complete and the first `n` octets as its body, or reads on,
  -- and fails with `need_data` when the buffer has free space left, with `in_place_overflow` when it
  -- has none.
  pub feed-Progress :
      (n : ℕ) (o s : Bytes) (p : Parser x)
      → IsReading x n o p
      → HasRoom s p
      → (t : Parser x) × (ec : ErrorCode) × (feed x s p ≡ returns (t, ec))
        × Progress x n (o ++ s) t ec
  unfolding feed then_
  feed-Progress n o s p r (l, free) =
      let k = room x p in
      let (b, e) = laws.prepare_room k p.cb0 free in
      let q : Parser x = record p { cb0 = b; nprepare = k } in
      let (t, ec, f, g) =
        fed_lem x laws n o s p q r r.in_body r.still_open refl refl refl
          (laws.contents-commit k s p.cb0 b e l ∙ ap (λ z. z ++ s) r.held) l in
      (
        t,
        ec,
        ap (λ z. then_ z (λ u. then_ (commit x s u.0) (parse x)))
              (prepare-returns p k b r.in_body r.still_open refl e)
            ∙ f,
        g,
      )

  -- Pieces fed one after the other, each with room for it.
  pub data Fed : Parser x → List Bytes → Parser x → Type 0 where
    stop : (p : Parser x) → Fed p [] p
    piece :
        (p q r : Parser x) (s : Bytes) (ss : List Bytes) (ec : ErrorCode)
        → HasRoom s p
        → feed x s p ≡ returns (q, ec)
        → Fed q ss r
        → Fed p (s ∷ ss) r

  Progress-of :
      (n : ℕ) (o s : Bytes) (p q : Parser x) (ec : ErrorCode)
      → IsReading x n o p
      → HasRoom s p
      → feed x s p ≡ returns (q, ec)
      → Progress x n (o ++ s) q ec
  unfolding result_or
  Progress-of n o s p q ec i rm e =
      let (t, ec', e', g) = feed-Progress n o s p i rm in
      let u : (t, ec') ≡ (q, ec) = ap (λ r. result_or (t, ec') r) (sym e' ∙ e) in
      subst (λ z. Progress x n (o ++ s) z.0 z.1) u g

  -- As long as octets are missing, the parser holds all the pieces and reads on.
  pub Fed-Reading :
      (n : ℕ) (o : Bytes) (p q : Parser x) (ss : List Bytes)
      → IsReading x n o p
      → Fed p ss q
      → length (o ++ join ss) < n
      → IsReading x n (o ++ join ss) q
  unfolding join
  Fed-Reading n o _ _ _ r (stop p) h = subst (λ z. IsReading x n z p) (sym (append-nil o)) r
  Fed-Reading n o _ _ _ i (piece p q t s ss ec rm e f) h =
      let k = append_assoc o s (join ss) in
      elim (Progress-of n o s p q ec i rm e) [
        | inl (j, c) ↦
            subst (λ z. IsReading x n z t) k
              (Fed-Reading n (o ++ s) q t ss j f (subst (λ z. length z < n) (sym k) h))
        | inr (d, c) ↦
            let l = d.enough in
            absurd (omega (arith, length-append (o ++ s) (join ss), ap length k))
      ]

  -- A body of `n` octets, of which the parser holds the first ones, `o`, read in pieces, where each
  -- time what `prepare` asks the buffer for is within its free space, and the piece within that, with `o` and all pieces but the last too few, and enough with the
  -- last: `parse` succeeds then, the message is complete, and `body` is the first `n` octets of
  -- `o` and all pieces together.
  pub Fed-complete :
      (n : ℕ) (o s : Bytes) (p q : Parser x) (ss : List Bytes)
      → IsReading x n o p
      → Fed p ss q
      → length (o ++ join ss) < n
      → HasRoom s q
      → n ≤ length ((o ++ join ss) ++ s)
      → (t : Parser x) × (feed x s q ≡ returns (t, success))
        × (t.st ≡ complete)
        × (body_of x t ≡ take n ((o ++ join ss) ++ s))
  Fed-complete n o s p q ss i f h rm l =
      let (t, ec, e, g) = feed-Progress n (o ++ join ss) s q (Fed-Reading n o p q ss i f h) rm in
      elim g [
        | inl (j, c) ↦ let m = j.partial in absurd (omega arith)
        | inr (d, c) ↦ (t, e ∙ ap (λ z. returns (t, z)) c, d.is_complete, d.whole)
      ]
