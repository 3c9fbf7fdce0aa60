-- ===== src/Header/Kept.antt =====
-- What `header::on_insert` and `header::on_start_line`, src/detail/header.cpp, change of the header.
use http_proto.Base.{◌≡◌, refl, if_either, Bytes, arith}
use http_proto.Field.{Field}
use http_proto.Types.{Header, failed}
use http_proto.Grammar.{Grammar}
use http_proto.Header.Framing.{
  framed_payload, response_payload, payload_by_kind, update_payload, on_start_line,
}
use http_proto.Header.Insert.{
  insert_content_length, on_insert_content_length, on_insert_connection, on_insert_expect,
  on_insert_transfer_encoding, on_insert_upgrade, on_insert_special, on_insert,
}

-- The two headers differ in the metadata at most.
abbrev pub Keeps : Header → Header → Type 0
Keeps h k = k ≡ record h { md = k.md }

pub update_payload-Keeps : (h : Header) → Keeps h (update_payload h)
unfolding update_payload payload_by_kind framed_payload response_payload
update_payload-Keeps h = ground arith

pub on_start_line-Keeps : (h : Header) → Keeps h (on_start_line h)
unfolding on_start_line
on_start_line-Keeps h = update_payload-Keeps h

insert_content_length-Keeps :
    (g : Grammar) (v : Bytes) (h : Header) → Keeps h (on_insert_content_length g v h)
unfolding on_insert_content_length
insert_content_length-Keeps g v h =
    let c = insert_content_length g v h.md.content_length in
    let k : Header = record h { md = record h.md { content_length = c.0 } } in
    if_either (Keeps h) c.1 (update_payload k) k (update_payload-Keeps k) refl

insert_transfer_encoding-Keeps :
    (g : Grammar) (h : Header) → Keeps h (on_insert_transfer_encoding g h)
unfolding on_insert_transfer_encoding
insert_transfer_encoding-Keeps g h =
    if_either (Keeps h) (failed h.md.transfer_encoding.ec) _ _ refl (update_payload-Keeps _)

insert_special-Keeps :
    (g : Grammar) (id : Field) (v : Bytes) (h : Header) → Keeps h (on_insert_special g id v h)
unfolding on_insert_special on_insert_connection on_insert_expect on_insert_upgrade
insert_special-Keeps g id v h =
    ground (arith, insert_content_length-Keeps g v h, insert_transfer_encoding-Keeps g h)

-- `on_insert` changes nothing of the header but its metadata, whatever the field and its value are.
pub on_insert-Keeps :
    (g : Grammar) (id : Field) (v : Bytes) (h : Header) → Keeps h (on_insert g id v h)
unfolding on_insert
on_insert-Keeps g id v h = ground (arith, insert_special-Keeps g id v h)
