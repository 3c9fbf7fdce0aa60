-- ===== src/Header/Inserting.antt =====
-- The predicate that the payload members of the metadata are up to date, they are what
-- `update_payload` of src/detail/header.cpp computes, and the insertion handlers against it.
use http_proto.Base.{ℕ, ◌<◌, ◌≡◌, refl, ◌⊎◌, inl, inr, Bool, true, false, arith, Bool-cases, Bytes}
use http_proto.Field.{Field}
use http_proto.Types.{failed, ContentLength, Header}
use http_proto.Grammar.{Grammar}
use http_proto.Header.Framing.{update_payload}
use http_proto.Header.Insert.{
  insert_content_length, update_if, on_insert_content_length, on_insert_connection,
  on_insert_expect, on_insert_transfer_encoding, on_insert_upgrade, on_insert_special, on_insert,
}

abbrev pub IsCurrent : Header → Type 0
IsCurrent h =
    ((update_payload h).md.payload ≡ h.md.payload)
    × ((update_payload h).md.payload_size ≡ h.md.payload_size)

pub update_payload-IsCurrent : (h : Header) → IsCurrent (update_payload h)
unfolding update_payload
update_payload-IsCurrent h = ground arith

-- What does not bear on the payload: a change of Connection, Expect or Upgrade keeps it current.
pub insert_connection-IsCurrent :
    (g : Grammar) (v : Bytes) (h : Header) → IsCurrent h → IsCurrent (on_insert_connection g v h)
unfolding update_payload on_insert_connection
insert_connection-IsCurrent g v h c = ground arith

pub insert_expect-IsCurrent :
    (g : Grammar) (v : Bytes) (h : Header) → IsCurrent h → IsCurrent (on_insert_expect g v h)
unfolding update_payload on_insert_expect
insert_expect-IsCurrent g v h c = ground arith

pub insert_upgrade-IsCurrent :
    (g : Grammar) (v : Bytes) (h : Header) → IsCurrent h → IsCurrent (on_insert_upgrade g v h)
unfolding update_payload on_insert_upgrade
insert_upgrade-IsCurrent g v h c = ground arith

pub failed_transfer_encoding-IsCurrent :
    (h : Header) (n : ℕ)
    → failed h.md.transfer_encoding.ec ≡ true
    → IsCurrent h
    → IsCurrent (record h {
      md = record h.md { transfer_encoding = record h.md.transfer_encoding { count = n } };
    })
unfolding update_payload
failed_transfer_encoding-IsCurrent h n e c = ground arith

insert_transfer_encoding-IsCurrent :
    (g : Grammar) (h : Header) → IsCurrent h → IsCurrent (on_insert_transfer_encoding g h)
unfolding on_insert_transfer_encoding
insert_transfer_encoding-IsCurrent g h c = elim (Bool-cases (failed h.md.transfer_encoding.ec)) [
  | inl bad ↦ rw bad (failed_transfer_encoding-IsCurrent h _ bad c)
  | inr good ↦ rw good (update_payload-IsCurrent _)
]

-- What a Content-Length handler may leave without an update: both failed, or only the count of a
-- present field changed.
abbrev Unchanged : ContentLength → ContentLength → Type 0
Unchanged c d =
    ((failed c.ec ≡ true) × (failed d.ec ≡ true))
    ⊎ ((failed c.ec ≡ false)
        × (failed d.ec ≡ false)
        × (c.value ≡ d.value)
        × (0 < c.count)
        × (0 < d.count))

pub Unchanged-IsCurrent :
    (h : Header) (d : ContentLength)
    → Unchanged h.md.content_length d
    → IsCurrent h
    → IsCurrent (record h { md = record h.md { content_length = d } })
unfolding update_payload
Unchanged-IsCurrent h d (inl failures) c = ground arith
Unchanged-IsCurrent h d (inr same) c = ground arith

insert_content_length-Unchanged :
    (g : Grammar) (v : Bytes) (c : ContentLength)
    → (insert_content_length g v c).1 ≡ false
    → Unchanged c (insert_content_length g v c).0
unfolding insert_content_length
insert_content_length-Unchanged g v c h = ground arith

update_if-IsCurrent :
    (b : Bool) (h : Header) (d : ContentLength)
    → (b ≡ false → Unchanged h.md.content_length d)
    → IsCurrent h
    → IsCurrent (update_if b (record h { md = record h.md { content_length = d } }))
update_if-IsCurrent true h d u c = update_payload-IsCurrent _
update_if-IsCurrent false h d u c = Unchanged-IsCurrent h d (u refl) c

insert_content_length-IsCurrent :
    (g : Grammar) (v : Bytes) (h : Header)
    → IsCurrent h
    → IsCurrent (on_insert_content_length g v h)
unfolding on_insert_content_length
insert_content_length-IsCurrent g v h c =
    update_if-IsCurrent _ h _ (insert_content_length-Unchanged g v h.md.content_length) c

insert_special-IsCurrent :
    (g : Grammar) (id : Field) (v : Bytes) (h : Header)
    → IsCurrent h
    → IsCurrent (on_insert_special g id v h)
unfolding on_insert_special
insert_special-IsCurrent g id v h c = ground (
  arith,
  insert_content_length-IsCurrent g v h c,
  insert_connection-IsCurrent g v h c,
  insert_expect-IsCurrent g v h c,
  insert_transfer_encoding-IsCurrent g h c,
  insert_upgrade-IsCurrent g v h c,
)

pub insert-IsCurrent :
    (g : Grammar) (id : Field) (v : Bytes) (h : Header)
    → IsCurrent h
    → IsCurrent (on_insert g id v h)
unfolding on_insert
insert-IsCurrent g id v h c = ground (arith, insert_special-IsCurrent g id v h c)
