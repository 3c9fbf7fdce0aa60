-- ===== src/Fields/Checked.antt =====
-- `fields_base::insert_impl`, src/fields_base.cpp: the name and the value are verified first.
use mathlib.Core.Option.{Option, none, some}
use http_proto.Base.{ℕ, ◌+◌, ◌≤◌, ◌<◌, ◌^◌, ◌≡◌, ap, List, ◌∷◌, ◌++◌, All, Bytes, length}
use http_proto.Field.{Field}
use http_proto.Types.{Header}
use http_proto.Grammar.{Result, ok, err, Grammar}
use http_proto.Header.{bytes_needed}
use http_proto.Rules.ObsFold.{stored}
use http_proto.Rules.Name.{verify_field_name}
use http_proto.Rules.Value.{FieldValue, verify_field_value}
use http_proto.Rules.Unbroken.{IsUnbroken, verify_field_value-IsUnbroken}
use http_proto.Fields.Insert.{growth, line_length, insert_impl_unchecked}
use http_proto.Fields.Represents.{Line, Represents, IsLine}
use http_proto.Fields.Inserted.{new_line, insert_impl_unchecked-Represents}

unfoldable pub returned : Option Header → Option (Result Header)
returned none = none
returned (some h) = some (ok h)

module _ (alloc : ℕ → Bytes) (g : Grammar) (id : Field) (name : Bytes) (before : ℕ)
    (h : Header) where
  with_verified_value : Result FieldValue → Option (Result Header)
  unfolding returned
  with_verified_value (err e) = some (err e)
  with_verified_value (ok v) =
      returned (insert_impl_unchecked alloc g id name v.value before v.has_obs_fold h)

  with_verified_name : Bytes → Result Bytes → Option (Result Header)
  unfolding with_verified_value
  with_verified_name value (err e) = some (err e)
  with_verified_name value (ok n) = with_verified_value (verify_field_value value)

  -- `none` is a `length_error`; after an error the container is as it was.
  unfoldable pub insert_impl : Bytes → Option (Result Header)
  unfolding with_verified_name
  insert_impl value = with_verified_name value (verify_field_name g name)

-- If the name and the value pass their checks, buffer and table describe well-formed lines, and
-- memory, buffer and limits are as for an insertion without checks, then the field is inserted:
-- buffer and table describe the old lines with the new one between `ls` and `rs`, and the stored
-- octets of its value contain no CR and no LF.
pub insert_impl-Represents :
    (alloc : ℕ → Bytes)
    → ((n : ℕ) → length (alloc n) ≡ n)
    → (g : Grammar) {h : Header} {start : Bytes} (ls rs : List Line) (id : Field)
      (name value : Bytes) {n : Bytes} (v : FieldValue)
    → verify_field_name g name ≡ ok n
    → verify_field_value value ≡ ok v
    → All IsLine (ls ++ rs)
    → Represents h start (ls ++ rs)
    → h.cap ≤ length h.cbuf
    → h.size + line_length name v.value < 2 ^ 32
    → growth h.cap (bytes_needed (h.size + line_length name v.value) (h.count + 1)) ≤ h.max_cap
    → (h' : Header) × (insert_impl alloc g id name (length ls) h value ≡ some (ok h'))
      × Represents h' start (ls ++ (new_line id name v.value v.has_obs_fold ∷ rs))
      × IsUnbroken (stored v.has_obs_fold v.value)
unfolding insert_impl
insert_impl-Represents alloc length-alloc g {h} {start} ls rs id name value {n} v en ev w r c small
      m =
    let (h', e, r', _) =
      insert_impl_unchecked-Represents alloc length-alloc g ls rs id name v.value v.has_obs_fold w r
        c small m in
    (h', rw (en, ev) (ap returned e), r', verify_field_value-IsUnbroken value v ev)
