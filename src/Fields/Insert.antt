-- ===== src/Fields/Insert.antt =====
-- `op_t::growth`, `reserve` and `grow`, and `insert_impl_unchecked`, in src/fields_base.cpp. The
-- pointers into the buffer that `move_chars` adjusts are octet strings of their own here.
use mathlib.Core.Option.{Option, none, some}
use http_proto.Base.{
  ℕ, zero, suc, ◌+◌, ◌-◌, ◌%◌, ◌^◌, Bool, true, ◌||◌, List, [], ◌∷◌, ◌++◌, map, ◌==◌, ltb, leb,
  if◌then◌else◌, take, length, Bytes,
}
use http_proto.Base.Splice.{slice, write_at}
use http_proto.Field
use http_proto.Field.{Field}
use http_proto.Types.{Entry, Header, entry_align, max_offset}
use http_proto.Grammar.{Grammar}
use http_proto.Header.{align_up, bytes_needed}
use http_proto.Header.Insert.{on_insert}
use http_proto.Fields.{add_offset, sub_offset, moved_up, offset}
use http_proto.Rules.ObsFold.{remove_obs_fold}

unfoldable pub growth : ℕ → ℕ → ℕ
unfolding align_up
growth n0 m =
    let m1 = align_up m entry_align in if n0 == 0 then m1 else if ltb n0 m1 then m1 else n0

-- `none` is the `length_error` that is thrown; `some none` keeps the buffer, and `some (some n)`
-- replaces it by one of `n` octets.
unfoldable pub reserve : Header → ℕ → Option (Option ℕ)
reserve h bytes =
    let n = growth h.cap bytes in
    if ltb h.max_cap bytes then none else if leb n h.cap then some none else some (some n)

unfoldable pub grow : Header → ℕ → ℕ → Option (Option ℕ)
grow h extra_char extra_field =
    if ltb max_offset extra_char || ltb (max_offset - h.size) extra_char
    then none
    else reserve h (growth h.cap (bytes_needed (h.size + extra_char) (h.count + extra_field)))

abbrev pub is_empty : Bytes → Bool
is_empty s = length s == 0

-- name ":" [ SP value ] CRLF
unfoldable pub field_line : Bytes → Bytes → Bytes
field_line name value =
    name ++ (b':' ∷ (if is_empty value then [] else b' ' ∷ value) ++ (b'\r' ∷ b'\n' ∷ []))

abbrev pub sp_if : Bytes → ℕ
sp_if value = if is_empty value then 0 else 1

abbrev pub line_length : Bytes → Bytes → ℕ
line_length name value = length name + 1 + sp_if value + length value + 2

-- The rows from `before` on move up by one, with their positions.
unfoldable pub insert_row : ℕ → ℕ → Entry → List Entry → List Entry
insert_row zero n e es = e ∷ map (moved_up n) es
insert_row (suc i) n e [] = e ∷ []
insert_row (suc i) n e (d ∷ es) = d ∷ insert_row i n e es

-- `alloc n` is the unspecified contents of `new char[n]`.
module _ (alloc : ℕ → Bytes) where
  -- The buffer after `grow`, with the octets from `pos` on moved up by `n`, and its capacity.
  unfoldable pub make_room : Header → ℕ → ℕ → Option ℕ → Bytes × ℕ
  make_room h pos n none = (write_at h.cbuf (pos + n) (slice pos (h.size - pos) h.cbuf), h.cap)
  make_room h pos n (some cap) = (
    write_at (write_at (alloc cap) 0 (take pos h.cbuf)) (pos + n) (slice pos (h.size - pos) h.cbuf),
    cap,
  )

  unfoldable pub put_line : Header → Field → Bytes → Bytes → ℕ → Bool → Option ℕ → Header
  put_line h id name value before has_obs_fold room =
      let pos = offset h before in
      let n = line_length name value in
      let (buf, cap) = make_room h pos n room in
      let stored = if has_obs_fold then remove_obs_fold value else value in
      let e : Entry = record {
        np = sub_offset pos h.prefix;
        nn = length name % 2 ^ 32;
        vp = add_offset (pos - h.prefix) (length name + 1 + sp_if value);
        vn = length value % 2 ^ 32;
        id = id;
      } in
      record h {
        cbuf = write_at buf pos (field_line name stored);
        owned = true;
        cap = cap;
        tab = insert_row before n e h.tab;
        count = h.count + 1;
        size = add_offset h.size n;
      }

  -- What follows `op.grow`, which throws (`none`) or not.
  unfoldable pub finish_insert :
      Grammar → Field → Bytes → Bytes → ℕ → Bool → Header → Option (Option ℕ) → Option Header
  finish_insert g id name value before has_obs_fold h none = none
  finish_insert g id name value before has_obs_fold h (some room) =
      let h' = put_line h id name value before has_obs_fold room in
      some (if id == Field.unknown then h' else on_insert g id value h')

  -- `none` is a `length_error`, after which the container is as it was.
  unfoldable pub insert_impl_unchecked :
      Grammar → Field → Bytes → Bytes → ℕ → Bool → Header → Option Header
  insert_impl_unchecked g id name value before has_obs_fold h =
      finish_insert g id name value before has_obs_fold h (grow h (line_length name value) 1)
