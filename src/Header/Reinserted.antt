-- ===== src/Header/Reinserted.antt =====
-- What the erase handlers of src/detail/header.cpp rebuild from the table.
use http_proto.Base.{
  ℕ, zero, suc, ◌-◌, ◌<◌, ◌≡◌, ◌≢◌, refl, true, List, [], ◌∷◌, arith, Bytes, All, ◌==◌,
  if◌then◌else◌, take,
}
use http_proto.Field
use http_proto.Field.{Field}
use http_proto.Types.{
  failed, request, no_connection, no_content_length, no_upgrade, no_expect, Entry, Header, Metadata,
}
use http_proto.Grammar.{Grammar}
use http_proto.Header.{rows, value_of, values_with_id}
use http_proto.Header.Framing.{update_payload}
use http_proto.Header.Insert.{
  insert_expect, on_insert_expect, on_insert_connection, on_insert_content_length,
  on_insert_upgrade,
}
use http_proto.Header.Erase.{
  reinsert, on_erase_expect, on_erase_connection, on_erase_content_length, on_erase_upgrade,
}
use http_proto.Header.Lengths.{add_expects}

-- The metadata does not bear on the values.
values_with_id-md :
    (h : Header) (m : Metadata) (id : Field) (es : List Entry)
    → values_with_id (record h { md = m }) id es ≡ values_with_id h id es
unfolding values_with_id
values_with_id-md h m id [] = refl
values_with_id-md h m id (e ∷ es) = ground (arith, values_with_id-md h m id es)

values_with_id_cons :
    (h : Header) (id : Field) (e : Entry) (es : List Entry)
    → values_with_id h id (e ∷ es)
      ≡ (if e.id == id then value_of h e ∷ values_with_id h id es else values_with_id h id es)
unfolding values_with_id
values_with_id_cons h id e es = refl

values_with_id_nil : (h : Header) (id : Field) → values_with_id h id [] ≡ []
unfolding values_with_id
values_with_id_nil h id = refl

reinsert_cons :
    (insert : Bytes → Header → Header) (id : Field) (n : ℕ) (e : Entry) (es : List Entry)
    (h : Header)
    → reinsert insert id (suc n) (e ∷ es) h
      ≡ reinsert insert id n es (if e.id == id then insert (value_of h e) h else h)
unfolding reinsert
reinsert_cons insert id n e es h = refl

reinsert-zero :
    (insert : Bytes → Header → Header) (id : Field) (es : List Entry) (h : Header)
    → reinsert insert id zero es h ≡ h
unfolding reinsert
reinsert-zero insert id es h = refl

reinsert_nil :
    (insert : Bytes → Header → Header) (id : Field) (n : ℕ) (h : Header)
    → reinsert insert id (suc n) [] h ≡ h
unfolding reinsert
reinsert_nil insert id n h = refl

-- One more Expect in a request.
on_insert_expect_parts :
    (g : Grammar) (v : Bytes) (h : Header) (es : List Entry)
    → h.kind ≡ request
    → ((on_insert_expect g v h).kind ≡ request)
      × ((on_insert_expect g v h).md.expect ≡ insert_expect g true v h.md.expect)
      × (values_with_id (on_insert_expect g v h) Field.expect es ≡ values_with_id h Field.expect es)
unfolding on_insert_expect
on_insert_expect_parts g v h es k =
    (k, rw k, values_with_id-md h (on_insert_expect g v h).md Field.expect es)

reinsert_expect :
    (g : Grammar) (n : ℕ) (es : List Entry) (h : Header)
    → h.kind ≡ request
    → (reinsert (on_insert_expect g) Field.expect n es h).md.expect
      ≡ add_expects g (values_with_id h Field.expect (take n es)) h.md.expect
reinsert_expect g zero es h k =
    ground (
      arith,
      reinsert-zero (on_insert_expect g) Field.expect es h,
      values_with_id_nil h Field.expect,
    )
reinsert_expect g (suc n) [] h k =
    ground
      (arith, reinsert_nil (on_insert_expect g) Field.expect n h, values_with_id_nil h Field.expect)
reinsert_expect g (suc n) (e ∷ es) h k = ground (
  arith,
  reinsert_cons (on_insert_expect g) Field.expect n e es h,
  values_with_id_cons h Field.expect e (take n es),
  on_insert_expect_parts g (value_of h e) h (take n es) k,
  reinsert_expect g n es h k,
  reinsert_expect g n es (on_insert_expect g (value_of h e) h),
)

-- After one of several Expect fields of a request has been erased, the metadata is that of the
-- Expect fields in the table, added in their order.
pub on_erase_expect_lem :
    (g : Grammar) (h : Header)
    → h.kind ≡ request
    → 1 < h.md.expect.count
    → (on_erase_expect g h).md.expect
      ≡ add_expects g (values_with_id h Field.expect (rows h)) no_expect
unfolding on_erase_expect
on_erase_expect_lem g h k c =
    let reset : Header = record h { md = record h.md { expect = no_expect } } in
    ground (
      arith,
      reinsert_expect g h.count h.tab reset k,
      values_with_id-md h reset.md Field.expect (rows h),
    )

update_payload-content_length :
    (h : Header) → (update_payload h).md.content_length ≡ h.md.content_length
unfolding update_payload
update_payload-content_length h = ground arith

-- No row of the list has the id.
abbrev pub Lacks : Field → List Entry → Type 0
Lacks id es = All (λ e. e.id ≢ id) es

reinsert_none :
    (insert : Bytes → Header → Header) (id : Field) (n : ℕ) (es : List Entry) (h : Header)
    → Lacks id (take n es)
    → reinsert insert id n es h ≡ h
unfolding reinsert
reinsert_none insert id zero es h l = refl
reinsert_none insert id (suc n) [] h l = refl
reinsert_none insert id (suc n) (e ∷ es) h l = ground (arith, reinsert_none insert id n es h l.1)

-- If the first rows of the table, one fewer than the count of Connection fields, hold none, then
-- after erasing one Connection field the metadata is that of no Connection field. With the rows
-- taken by its own count, the same holds of Content-Length if it has an error, and of Upgrade.
pub on_erase_loses :
    (g : Grammar) (h : Header)
    → (Lacks Field.connection (take (h.md.connection.count - 1) h.tab)
        → (on_erase_connection g h).md.connection ≡ no_connection)
      × (Lacks Field.content_length (take (h.md.content_length.count - 1) h.tab)
          → failed h.md.content_length.ec ≡ true
          → (on_erase_content_length g h).md.content_length ≡ no_content_length)
      × (Lacks Field.upgrade (take (h.md.upgrade.count - 1) h.tab)
          → (on_erase_upgrade g h).md.upgrade ≡ no_upgrade)
unfolding on_erase_connection on_erase_content_length on_erase_upgrade
on_erase_loses g h = (
  λ l. rw (reinsert_none (on_insert_connection g) Field.connection _ h.tab _ l),
  λ l bad.
      let reset : Header = record h { md = record h.md { content_length = no_content_length } } in
      let n = h.md.content_length.count - 1 in
      ground (
        arith,
        update_payload-content_length reset,
        reinsert_none (on_insert_content_length g) Field.content_length n h.tab reset l,
      ),
  λ l.
      let reset : Header = record h { md = record h.md { upgrade = no_upgrade } } in
      let n = h.md.upgrade.count - 1 in
      ground (arith, reinsert_none (on_insert_upgrade g) Field.upgrade n h.tab reset l),
)
