-- ===== src/Fields/Set.antt =====
-- `set`, `erase` by id and `reserve_bytes` of src/fields_base.cpp, and the setters of
-- src/message_base.cpp that are built on them.
use mathlib.Core.Option.{Option, none, some}
use http_proto.Base.{
  ℕ, zero, suc, ◌+◌, ◌-◌, Bool, true, not, ◌&&◌, List, [], ◌∷◌, ◌==◌, if◌then◌else◌, take, Bytes,
  length, codes,
}
use http_proto.Base.Splice.{write_at}
use http_proto.Field
use http_proto.Field.{Field}
use http_proto.Types.{Entry, Header}
use http_proto.Names.Fields.{to_string, string_to_field}
use http_proto.Grammar.{Result, ok, err, Grammar}
use http_proto.Header.{find, find_name}
use http_proto.Rules.Name.{verify_field_name}
use http_proto.Rules.Value.{FieldValue, verify_field_value}
use http_proto.Fields.{offset}
use http_proto.Fields.Insert.{reserve, insert_impl_unchecked}
use http_proto.Fields.EraseAll.{id_at, erase_all_impl}
use http_proto.Fields.Checked.{returned, insert_impl}
use http_proto.Message.NumberString.{number_string}

-- `length(i)`
unfoldable pub length_at : Header → ℕ → ℕ
length_at h i = offset h (i + 1) - offset h i

-- `ft[i].nn`
unfoldable pub nn_at : List Entry → ℕ → ℕ
nn_at [] i = 0
nn_at (e ∷ es) zero = e.nn
nn_at (e ∷ es) (suc i) = nn_at es i

module _ (alloc : ℕ → Bytes) where
  -- What follows `op.reserve`; the new memory is filled with the octets in use, and the table.
  unfoldable pub reserved : Header → Option (Option ℕ) → Option Header
  reserved h none = none
  reserved h (some none) = some h
  reserved h (some (some n)) =
      some (record h { cbuf = write_at (alloc n) 0 (take h.size h.cbuf); owned = true; cap = n })

  -- `none` is a `length_error`.
  unfoldable pub reserve_bytes : ℕ → Header → Option Header
  unfolding reserved
  reserve_bytes n h = reserved h (reserve h n)

  module _ (g : Grammar) where
    -- The new field is put behind all others.
    unfoldable pub append_value : Field → Bytes → FieldValue → Header → Option (Result Header)
    unfolding returned
    append_value id name v h =
        returned (insert_impl_unchecked alloc g id name v.value h.count v.has_obs_fold h)

    unfoldable pub replace_in :
        ℕ → Field → Field → Bytes → FieldValue → Option Header → Option (Result Header)
    unfolding append_value
    replace_in i0 old id name v none = none
    replace_in i0 old id name v (some h) = append_value id name v (erase_all_impl i0 old h).0

    -- A field that exists is erased, with all that have its id, when there is room for the new one.
    unfoldable pub replace_value : ℕ → Field → Bytes → FieldValue → Header → Option (Result Header)
    unfolding replace_in reserve_bytes
    replace_value i0 id name v h =
        if i0 == h.count
        then append_value id name v h
        else replace_in i0 (id_at h.tab i0) id name v
            (reserve_bytes (h.size - length_at h i0 + (nn_at h.tab i0 + 2 + length v.value + 2)) h)

    unfoldable pub set_verified :
        ℕ → Field → Bytes → Header → Result FieldValue → Option (Result Header)
    unfolding replace_value
    set_verified i0 id name h (err e) = some (err e)
    set_verified i0 id name h (ok v) = replace_value i0 id name v h

    -- `set(field, value)`; the first field with the id is at `find(id)`.
    unfoldable pub set_id : Field → Bytes → Header → Option (Result Header)
    unfolding set_verified
    set_id id value h = set_verified (find h id) id (to_string id) h (verify_field_value value)

    unfoldable pub set_named : Bytes → Bytes → Header → Result Bytes → Option (Result Header)
    unfolding set_verified
    set_named name value h (err e) = some (err e)
    set_named name value h (ok n) =
        set_verified (find_name g h name) (string_to_field name) name h (verify_field_value value)

    -- `set(name, value)`
    unfoldable pub set_name : Bytes → Bytes → Header → Option (Result Header)
    unfolding set_named
    set_name name value h = set_named name value h (verify_field_name g name)

    -- `message_base::set_content_length`
    unfoldable pub set_content_length : ℕ → Header → Option (Result Header)
    unfolding set_id
    set_content_length n h = set_id Field.content_length (number_string n) h

    -- `message_base::set_chunked`; `false` changes nothing.
    unfoldable pub set_chunked : Bool → Header → Option (Result Header)
    set_chunked value h =
        if value && not h.md.transfer_encoding.is_chunked
        then insert_impl alloc g Field.transfer_encoding (to_string Field.transfer_encoding) h.count
            h (codes "chunked")
        else some (ok h)
