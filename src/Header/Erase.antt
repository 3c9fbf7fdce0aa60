-- ===== src/Header/Erase.antt =====
-- `header::on_erase`, its handlers and `on_erase_all`: the metadata after a field has been removed.
-- The assertions that the counts are not 0 are hypotheses of the theorems that need them.
use http_proto.Base.{ℕ, zero, suc, ◌-◌, List, [], ◌∷◌, not, ◌==◌, if◌then◌else◌, Bytes}
use http_proto.Field
use http_proto.Field.{Field}
use http_proto.Types.{
  failed, fields, no_connection, no_content_length, no_expect, no_transfer_encoding, no_upgrade,
  Entry, Header,
}
use http_proto.Grammar.{Grammar}
use http_proto.Header.{is_request, value_of}
use http_proto.Header.Framing.{update_payload}
use http_proto.Header.Insert.{
  on_insert_connection, on_insert_content_length, on_insert_expect, on_insert_transfer_encoding,
  on_insert_upgrade,
}

-- `while(n > 0)`: the first `n` rows of the table, of which those with the id are inserted again.
-- A loop that runs past the table has no defined behaviour; here it ends.
unfoldable pub reinsert : (Bytes → Header → Header) → Field → ℕ → List Entry → Header → Header
reinsert insert id zero es h = h
reinsert insert id (suc n) [] h = h
reinsert insert id (suc n) (e ∷ es) h =
    reinsert insert id n es (if e.id == id then insert (value_of h e) h else h)

unfoldable pub on_erase_connection : Grammar → Header → Header
on_erase_connection g h =
    let n = h.md.connection.count - 1 in
    reinsert (on_insert_connection g) Field.connection n h.tab
      (record h { md = record h.md { connection = no_connection } })

unfoldable pub on_erase_content_length : Grammar → Header → Header
on_erase_content_length g h =
    let c = h.md.content_length in
    let n = c.count - 1 in
    if n == 0
    then update_payload (record h { md = record h.md { content_length = no_content_length } })
    else if not (failed c.ec)
    then record h { md = record h.md { content_length = record c { count = n } } }
    else update_payload (
        reinsert (on_insert_content_length g) Field.content_length n h.tab
          (record h { md = record h.md { content_length = no_content_length } }))

unfoldable pub on_erase_expect : Grammar → Header → Header
on_erase_expect g h =
    let n = h.md.expect.count - 1 in
    if not (is_request h.kind)
    then record h { md = record h.md { expect = record h.md.expect { count = n } } }
    else if n == 0
    then record h { md = record h.md { expect = no_expect } }
    else reinsert (on_insert_expect g) Field.expect h.count h.tab
        (record h { md = record h.md { expect = no_expect } })

unfoldable pub on_erase_transfer_encoding : Grammar → Header → Header
on_erase_transfer_encoding g h =
    let t = h.md.transfer_encoding in
    let n = t.count - 1 in
    if n == 0
    then update_payload (record h { md = record h.md { transfer_encoding = no_transfer_encoding } })
    else on_insert_transfer_encoding g
        (record h { md = record h.md { transfer_encoding = record t { count = n - 1 } } })

unfoldable pub on_erase_upgrade : Grammar → Header → Header
on_erase_upgrade g h =
    let n = h.md.upgrade.count - 1 in
    let reset : Header = record h { md = record h.md { upgrade = no_upgrade } } in
    if n == 0 then reset else reinsert (on_insert_upgrade g) Field.upgrade n h.tab reset

unfoldable pub on_erase_special : Grammar → Field → Header → Header
on_erase_special g id h =
    if id == Field.connection
    then on_erase_connection g h
    else if id == Field.content_length
    then on_erase_content_length g h
    else if id == Field.expect
    then on_erase_expect g h
    else if id == Field.transfer_encoding
    then on_erase_transfer_encoding g h
    else if id == Field.upgrade
    then on_erase_upgrade g h
    else h

unfoldable pub on_erase : Grammar → Field → Header → Header
unfolding on_erase_special
on_erase g id h = elim h.kind [ fields ↦ h | _ ↦ on_erase_special g id h ]

-- All fields with the id are gone.
unfoldable pub on_erase_all_special : Field → Header → Header
on_erase_all_special id h =
    if id == Field.connection
    then record h { md = record h.md { connection = no_connection } }
    else if id == Field.content_length
    then update_payload (record h { md = record h.md { content_length = no_content_length } })
    else if id == Field.expect
    then update_payload (record h { md = record h.md { expect = no_expect } })
    else if id == Field.transfer_encoding
    then update_payload (record h { md = record h.md { transfer_encoding = no_transfer_encoding } })
    else if id == Field.upgrade
    then record h { md = record h.md { upgrade = no_upgrade } }
    else h

unfoldable pub on_erase_all : Field → Header → Header
unfolding on_erase_all_special
on_erase_all id h = elim h.kind [ fields ↦ h | _ ↦ on_erase_all_special id h ]
