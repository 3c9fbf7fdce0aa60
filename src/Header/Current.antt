-- ===== src/Header/Current.antt =====
-- The calls of the metadata handlers of src/detail/header.cpp as events, and whether the payload
-- members of the metadata are up to date after them.
use http_proto.Base.{
  ℕ, zero, suc, ◌≡◌, ◌≢◌, ◌-◌, inl, inr, false, List, [], ◌∷◌, arith, ◌==◌, Bool-cases, if_either,
  Bytes,
}
use http_proto.Field
use http_proto.Field.{Field}
use http_proto.Types.{
  failed, request, Payload, Connection, ContentLength, no_connection, no_content_length, Expect,
  no_expect, no_transfer_encoding, Upgrade, no_upgrade, Entry, Header,
}
use http_proto.Grammar.{Grammar}
use http_proto.Header.{value_of}
use http_proto.Header.Framing.{update_payload, on_start_line}
use http_proto.Header.Insert.{
  on_insert_content_length, on_insert_expect, on_insert_transfer_encoding, on_insert_upgrade,
  on_insert,
}
use http_proto.Header.Erase.{
  reinsert, on_erase_connection, on_erase_content_length, on_erase_expect,
  on_erase_transfer_encoding, on_erase_upgrade, on_erase_special, on_erase, on_erase_all_special,
  on_erase_all,
}
use http_proto.Header.Inserting.{
  IsCurrent, update_payload-IsCurrent, insert_connection-IsCurrent, insert_expect-IsCurrent,
  insert_upgrade-IsCurrent, failed_transfer_encoding-IsCurrent, Unchanged-IsCurrent,
  insert-IsCurrent,
}

-- Re-insertion runs a handler on each row that has the id.
reinsert-IsCurrent :
    (insert : Bytes → Header → Header) (id : Field) (n : ℕ) (es : List Entry) (h : Header)
    → ((v : Bytes) (k : Header) → IsCurrent k → IsCurrent (insert v k))
    → IsCurrent h
    → IsCurrent (reinsert insert id n es h)
unfolding reinsert
reinsert-IsCurrent insert id zero es h keep c = c
reinsert-IsCurrent insert id (suc n) [] h keep c = c
reinsert-IsCurrent insert id (suc n) (e ∷ es) h keep c =
    reinsert-IsCurrent insert id n es _ keep
      (if_either IsCurrent (e.id == id) _ _ (keep (value_of h e) h c) c)

-- Connection, Expect and Upgrade do not bear on the payload.
connection-IsCurrent :
    (h : Header) (x : Connection)
    → IsCurrent h
    → IsCurrent (record h { md = record h.md { connection = x } })
unfolding update_payload
connection-IsCurrent h x c = ground arith

expect-IsCurrent :
    (h : Header) (x : Expect)
    → IsCurrent h
    → IsCurrent (record h { md = record h.md { expect = x } })
unfolding update_payload
expect-IsCurrent h x c = ground arith

upgrade-IsCurrent :
    (h : Header) (x : Upgrade)
    → IsCurrent h
    → IsCurrent (record h { md = record h.md { upgrade = x } })
unfolding update_payload
upgrade-IsCurrent h x c = ground arith

erase_connection-IsCurrent :
    (g : Grammar) (h : Header) → IsCurrent h → IsCurrent (on_erase_connection g h)
unfolding on_erase_connection
erase_connection-IsCurrent g h c =
    reinsert-IsCurrent _ _ _ h.tab _ (insert_connection-IsCurrent g) (connection-IsCurrent h _ c)

erase_expect-IsCurrent : (g : Grammar) (h : Header) → IsCurrent h → IsCurrent (on_erase_expect g h)
unfolding on_erase_expect
erase_expect-IsCurrent g h c =
    let reset = expect-IsCurrent h no_expect c in
    ground (
      arith,
      expect-IsCurrent h (record h.md.expect { count = h.md.expect.count - 1 }) c,
      reset,
      reinsert-IsCurrent (on_insert_expect g) Field.expect h.count h.tab
          (record h { md = record h.md { expect = no_expect } }) (insert_expect-IsCurrent g) reset,
    )

erase_upgrade-IsCurrent :
    (g : Grammar) (h : Header) → IsCurrent h → IsCurrent (on_erase_upgrade g h)
unfolding on_erase_upgrade
erase_upgrade-IsCurrent g h c =
    let reset = upgrade-IsCurrent h no_upgrade c in
    ground (
      arith,
      reset,
      reinsert-IsCurrent (on_insert_upgrade g) Field.upgrade (h.md.upgrade.count - 1) h.tab
          (record h { md = record h.md { upgrade = no_upgrade } }) (insert_upgrade-IsCurrent g)
          reset,
    )

-- The second decrement may leave a count of 0 for a moment, so this goes through the handler.
uncount_transfer_encoding-IsCurrent :
    (g : Grammar) (h : Header) (n : ℕ)
    → IsCurrent h
    → IsCurrent (
        on_insert_transfer_encoding g (record h {
          md = record h.md { transfer_encoding = record h.md.transfer_encoding { count = n } };
        }))
unfolding on_insert_transfer_encoding
uncount_transfer_encoding-IsCurrent g h n c = elim (Bool-cases (failed h.md.transfer_encoding.ec)) [
  | inl bad ↦ rw bad (failed_transfer_encoding-IsCurrent h _ bad c)
  | inr good ↦ rw good (update_payload-IsCurrent _)
]

erase_transfer_encoding-IsCurrent :
    (g : Grammar) (h : Header) → IsCurrent h → IsCurrent (on_erase_transfer_encoding g h)
unfolding on_erase_transfer_encoding
erase_transfer_encoding-IsCurrent g h c =
    let n = h.md.transfer_encoding.count - 1 in
    if_either IsCurrent (n == 0) _ _ (update_payload-IsCurrent _)
      (uncount_transfer_encoding-IsCurrent g h (n - 1) c)

erase_content_length-IsCurrent :
    (g : Grammar) (h : Header) → IsCurrent h → IsCurrent (on_erase_content_length g h)
unfolding on_erase_content_length
erase_content_length-IsCurrent g h c =
    let d : ContentLength = record h.md.content_length { count = h.md.content_length.count - 1 } in
    ground (
      arith,
      Unchanged-IsCurrent h d,
      update_payload-IsCurrent
          (record h { md = record h.md { content_length = no_content_length } }),
      update_payload-IsCurrent (
          reinsert (on_insert_content_length g) Field.content_length (h.md.content_length.count - 1)
            h.tab (record h { md = record h.md { content_length = no_content_length } })),
    )

erase_special-IsCurrent :
    (g : Grammar) (id : Field) (h : Header) → IsCurrent h → IsCurrent (on_erase_special g id h)
unfolding on_erase_special
erase_special-IsCurrent g id h c = ground (
  arith,
  erase_connection-IsCurrent g h c,
  erase_content_length-IsCurrent g h c,
  erase_expect-IsCurrent g h c,
  erase_transfer_encoding-IsCurrent g h c,
  erase_upgrade-IsCurrent g h c,
)

erase-IsCurrent :
    (g : Grammar) (id : Field) (h : Header) → IsCurrent h → IsCurrent (on_erase g id h)
unfolding on_erase
erase-IsCurrent g id h c = ground (arith, erase_special-IsCurrent g id h c)

erase_all_special-IsCurrent :
    (id : Field) (h : Header) → IsCurrent h → IsCurrent (on_erase_all_special id h)
unfolding on_erase_all_special
erase_all_special-IsCurrent id h c = ground (
  arith,
  connection-IsCurrent h no_connection c,
  upgrade-IsCurrent h no_upgrade c,
  update_payload-IsCurrent (record h { md = record h.md { content_length = no_content_length } }),
  update_payload-IsCurrent (record h { md = record h.md { expect = no_expect } }),
  update_payload-IsCurrent
      (record h { md = record h.md { transfer_encoding = no_transfer_encoding } }),
)

erase_all-IsCurrent : (id : Field) (h : Header) → IsCurrent h → IsCurrent (on_erase_all id h)
unfolding on_erase_all
erase_all-IsCurrent id h c = ground (arith, erase_all_special-IsCurrent id h c)

-- The calls that the containers and the parser make after they have changed the fields.
pub data Event : Type 0 where
  start_line_changed : Event
  inserted : Field → Bytes → Event
  erased erased_all : Field → Event

unfoldable pub handle : Grammar → Event → Header → Header
handle g start_line_changed h = on_start_line h
handle g (inserted id v) h = on_insert g id v h
handle g (erased id) h = on_erase g id h
handle g (erased_all id) h = on_erase_all id h

-- Whatever metadata event is handled, a payload kind and size that were what `update_payload`
-- computes from the rest of the header are so afterwards.
pub handle-IsCurrent :
    (g : Grammar) (e : Event) (h : Header) → IsCurrent h → IsCurrent (handle g e h)
unfolding handle on_start_line
handle-IsCurrent g start_line_changed h c = update_payload-IsCurrent h
handle-IsCurrent g (inserted id v) h c = insert-IsCurrent g id v h c
handle-IsCurrent g (erased id) h c = erase-IsCurrent g id h c
handle-IsCurrent g (erased_all id) h c = erase_all-IsCurrent id h c

-- The payload of a request is not to_eof if it is what `update_payload` computes and is not
-- overridden.
pub request-ne-to_eof :
    (h : Header)
    → h.kind ≡ request
    → h.md.payload_override ≡ false
    → IsCurrent h
    → h.md.payload ≢ Payload.to_eof
unfolding update_payload
request-ne-to_eof h k o c = ground arith
