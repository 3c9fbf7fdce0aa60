-- ===== src/Parser/Full.antt =====
-- A buffer of the body that holds as much as it has free, src/parser.cpp.
use http_proto.Base.{ℕ, ◌^◌, ◌<◌, ◌≡◌, refl, ◌∙◌, Bytes, [], inl, inr, length-append, arith}
use http_proto.Workspace.{returns, throws, length_error}
use mathlib.Core.List.{append-nil}
use mathlib.Core.Path.{subst}
use http_proto.Types.{ErrorCode}
use http_proto.Serializer.State.{then_}
use http_proto.Parser.State.{IsStorage, Parts, Parser}
use http_proto.Parser.Delivered.{feed, Waits, room, IsReading, prepare-body}
use http_proto.Parser.Bodies.{feed-Progress}
use http_proto.Parser.Calls.{difference, prepare}

module _ (x : Parts) (laws : IsStorage x.circular) where
  room-overfull :
      (p : Parser x)
      → x.circular.capacity p.cb0 < x.circular.size p.cb0
      → x.circular.size p.cb0 < 2 ^ 63
      → p.cfg.max_prepare < 2 ^ 63
      → room x p ≡ p.cfg.max_prepare
  unfolding difference
  room-overfull p a b c = omega arith

  -- A parser that reads a body, and whose buffer holds more octets than it has free, asks the
  -- buffer for `max_prepare` octets whatever is free, so that `prepare` throws `length_error` when
  -- fewer are free; `max_prepare` and the octets held are fewer than 2 ^ 63.
  pub prepare-overfull :
      (n : ℕ) (o : Bytes) (p : Parser x)
      → IsReading x n o p
      → x.circular.capacity p.cb0 < x.circular.size p.cb0
      → x.circular.size p.cb0 < 2 ^ 63
      → p.cfg.max_prepare < 2 ^ 63
      → x.circular.capacity p.cb0 < p.cfg.max_prepare
      → prepare x p ≡ throws length_error
  unfolding then_
  prepare-overfull n o p r a b c d =
      let k = room-overfull p a b c in
      let e = laws.prepare_full p.cfg.max_prepare p.cb0 d in
      prepare-body x p r.in_body r.still_open ∙ rw (k, e) refl

  room-half : (p : Parser x) → x.circular.capacity p.cb0 ≡ x.circular.size p.cb0 → room x p ≡ 0
  unfolding difference
  room-half p e = omega arith

  -- A parser that reads a body, and whose buffer holds as many octets as it has free: `prepare` returns
  -- no space, and when `parse` is called after it, octets of the body are missing still, and it
  -- fails with `need_data` or `in_place_overflow`.
  pub feed-half :
      (n : ℕ) (o : Bytes) (p : Parser x)
      → IsReading x n o p
      → x.circular.capacity p.cb0 ≡ x.circular.size p.cb0
      → ((q : Parser x) × (prepare x p ≡ returns (q, 0)))
        × ((t : Parser x) × (ec : ErrorCode) × (feed x [] p ≡ returns (t, ec))
            × IsReading x n o t
            × Waits x t ec)
  unfolding then_
  feed-half n o p r e =
      let k = room-half p e in
      let (b, f) = laws.prepare_room 0 p.cb0 (omega arith) in
      let (t, ec, g, w) = feed-Progress x laws n o [] p r (omega arith, omega (arith, k)) in
      (
        (
          record p { cb0 = b; nprepare = 0 },
          prepare-body x p r.in_body r.still_open ∙ rw (k, f) refl,
        ),
        elim w [
          | inl (i, c) ↦ (t, ec, g, subst (λ z. IsReading x n z t) (append-nil o) i, c)
          | inr (d, c) ↦
              let l = d.enough in let m = r.partial in absurd (omega (arith, length-append o []))
        ],
      )
