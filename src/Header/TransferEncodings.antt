-- ===== src/Header/TransferEncodings.antt =====
-- Transfer-Encoding over all fields of a message: `on_insert_transfer_encoding` as a whole.
use http_proto.Base.{
  ◌+◌, ◌≡◌, refl, Bool, true, false, List, [], ◌∷◌, ◌++◌, arith, Bytes, length, length-append,
  if◌then◌else◌, Bool-cases, inl, inr,
}
use http_proto.Field
use http_proto.Types.{Error, success, failed, TransferEncoding, Encoding, Header}
use http_proto.Grammar.{ok, err, Grammar}
use http_proto.Header.{find, subrange}
use http_proto.Header.Insert.{
  take_codings, take_values, codings_of, bad_codings, bad_value, on_insert_transfer_encoding,
}
use http_proto.Header.Framing.{update_payload}
use http_proto.Header.Codings.{
  Accepted, ids, scanned, fresh, recount, take_codings_nil, take_codings_refused,
  take_codings-recount, take_codings-append, take_codings-Accepted,
}
use http_proto.Rfc.TransferEncoding.{TransferCoding}

-- The values of the fields parse, to these codings in order.
pub data Joined (g : Grammar) : List Bytes → List TransferCoding → Type 0 where
  none : Joined g [] []
  more :
      {v : Bytes} {vs : List Bytes} {ks ls : List TransferCoding}
      → codings_of g v ≡ ok ks
      → Joined g vs ls
      → Joined g (v ∷ vs) (ks ++ ls)

take_values_cons :
    (g : Grammar) (v : Bytes) (vs : List Bytes) (ks : List TransferCoding) (t : TransferEncoding)
    → codings_of g v ≡ ok ks
    → let r = take_codings ks (recount t (t.codings + length ks)) in
      take_values g (v ∷ vs) t ≡ (if r.1 then take_values g vs r.0 else r.0)
unfolding take_values
take_values_cons g v vs ks t e = rw e

take_values_nil : (g : Grammar) (t : TransferEncoding) → take_values g [] t ≡ t
unfolding take_values
take_values_nil g t = refl

take_values_bad :
    (g : Grammar) (v : Bytes) (vs : List Bytes) (t : TransferEncoding) {x : Error}
    → codings_of g v ≡ err x
    → take_values g (v ∷ vs) t ≡ bad_value t
unfolding take_values
take_values_bad g v vs t e = rw e

-- The fields are scanned as one list of codings.
take_values-Joined :
    (g : Grammar) {vs : List Bytes} {ks : List TransferCoding} (t : TransferEncoding)
    → Joined g vs ks
    → ((take_codings ks t).1 ≡ true
        → take_values g vs t ≡ recount (take_codings ks t).0 (t.codings + length ks))
      × ((take_codings ks t).1 ≡ false → take_values g vs t ≡ bad_codings t)
take_values-Joined g t none = ground (arith, take_values_nil g t, take_codings_nil t)
take_values-Joined g t (more {v} {vs} {ks} {ls} e j) =
    let a : TransferEncoding = (take_codings ks t).0 in
    let c = t.codings + length ks in
    ground (
      arith,
      length-append ks ls,
      take_values_cons g v vs ks t e,
      take_codings-recount ks t c,
      take_codings-append ks ls t,
      take_codings_refused ks t,
      take_codings-recount ls a c,
      take_codings_refused ls a,
      take_values-Joined g (recount a c) j,
    )

update_payload-transfer_encoding :
    (h : Header) → (update_payload h).md.transfer_encoding ≡ h.md.transfer_encoding
unfolding update_payload
update_payload-transfer_encoding h = ground arith

-- Unless an earlier error stands, the handler scans all fields anew.
insert_scans :
    (g : Grammar) (h : Header)
    → failed h.md.transfer_encoding.ec ≡ false
    → (on_insert_transfer_encoding g h).md.transfer_encoding
      ≡ take_values g
          (subrange h (find h Field.transfer_encoding))
          (fresh (h.md.transfer_encoding.count + 1) 0)
unfolding on_insert_transfer_encoding
insert_scans g h good = rw good (update_payload-transfer_encoding _)

-- The values of the Transfer-Encoding fields parse to these codings, and no earlier error stands.
abbrev pub Scans : Grammar → Header → List TransferCoding → Type 0
Scans g h ks =
    (failed h.md.transfer_encoding.ec ≡ false)
    × Joined g (subrange h (find h Field.transfer_encoding)) ks

-- If all Transfer-Encoding values parse and no earlier error stands, then the metadata has no error
-- exactly when the codings, taken over all fields, are in the language, and it then holds their
-- number, whether they end in chunked, and the effective encoding; otherwise the message is
-- neither chunked nor encoded.
pub on_insert_transfer_encoding_lem :
    (g : Grammar) (h : Header) (ks : List TransferCoding)
    → Scans g h ks
    → let t = (on_insert_transfer_encoding g h).md.transfer_encoding in
      ((b : Bool) (e : Encoding)
        → Accepted (ids ks) b e
        → t ≡ record {
          ec = success;
          count = h.md.transfer_encoding.count + 1;
          codings = length ks;
          is_chunked = b;
          encoding = e;
        })
      × (failed t.ec ≡ false → (b : Bool) × (e : Encoding) × Accepted (ids ks) b e)
      × (failed t.ec ≡ true → t ≡ bad_codings (fresh (h.md.transfer_encoding.count + 1) 0))
on_insert_transfer_encoding_lem g h ks (good, j) =
    let n = h.md.transfer_encoding.count + 1 in
    let scan = insert_scans g h good in
    let all = take_values-Joined g (fresh n 0) j in
    let language = take_codings-Accepted ks n 0 in
    let accepted = language.1 in
    (
      λ b e a. ground (arith, scan, all, language.0 b e a),
      λ fine. elim (Bool-cases (take_codings ks (fresh n 0)).1) [
        | inl yes_all ↦ accepted yes_all
        | inr refused ↦ absurd (ground (arith, scan, all))
      ],
      λ bad. elim (Bool-cases (take_codings ks (fresh n 0)).1) [
        | inl yes_all ↦
            let (b, e, a) = accepted yes_all in ground (arith, scan, all, language.0 b e a)
        | inr refused ↦ ground (arith, scan, all)
      ],
    )

-- If the values of two Transfer-Encoding fields are a list that sets an encoding and one that does
-- not parse, then the metadata has an error, and still the encoding of the first.
pub stale_encoding :
    (g : Grammar) (h : Header) (v w : Bytes) (ks : List TransferCoding) (e : Encoding)
    → failed h.md.transfer_encoding.ec ≡ false
    → subrange h (find h Field.transfer_encoding) ≡ v ∷ w ∷ []
    → codings_of g v ≡ ok ks
    → Accepted (ids ks) false e
    → {x : Error} → codings_of g w ≡ err x
    → let t = (on_insert_transfer_encoding g h).md.transfer_encoding in
      (failed t.ec ≡ true) × (t.encoding ≡ e)
stale_encoding g h v w ks e good vs first a second =
    let n = h.md.transfer_encoding.count + 1 in
    let m = 0 + length ks in
    ground (
      arith,
      insert_scans g h good,
      take_values_cons g v (w ∷ []) ks (fresh n 0) first,
      (take_codings-Accepted ks n m).0 false e a,
      take_values_bad g w [] (scanned (fresh n m) false e) second,
    )
