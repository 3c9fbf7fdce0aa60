-- ===== src/Fields/SetAt.antt =====
-- `set` of a field at a position, src/fields_base.cpp. The pointers of the value that
-- `move_chars` adjusts when it lies in the buffer itself are octet strings of their own here.
use mathlib.Core.Option.{Option, none, some}
use http_proto.Base.{
  ℕ, zero, suc, ◌+◌, ◌-◌, ◌%◌, ◌^◌, Bool, List, [], ◌∷◌, ◌++◌, map, ltb, if◌then◌else◌, take, Bytes,
  length,
}
use http_proto.Base.Splice.{slice, write_at}
use http_proto.Field
use http_proto.Field.{Field}
use http_proto.Types.{Entry, Header}
use http_proto.Grammar.{Result, ok, err, Grammar}
use http_proto.Header.{is_special, value_of}
use http_proto.Header.Insert.{on_insert}
use http_proto.Header.Erase.{on_erase}
use http_proto.Rules.ObsFold.{stored}
use http_proto.Rules.Value.{FieldValue, verify_field_value}
use http_proto.Fields.{offset}
use http_proto.Fields.Insert.{grow, sp_if, is_empty}

-- `tab[i]`
unfoldable pub row_at : List Entry → ℕ → Entry
row_at [] i = record { np = 0; nn = 0; vp = 0; vn = 0; id = Field.unknown }
row_at (e ∷ es) zero = e
row_at (e ∷ es) (suc i) = row_at es i

-- The octets after the colon that a value takes, and its line end apart.
abbrev pub taken_by : Bytes → ℕ
taken_by value = length value + sp_if value

abbrev pub written_value : Bytes → Bool → Bytes
written_value value fold = if is_empty value then [] else b' ' ∷ stored fold value

abbrev pub line_end : Bytes
line_end = b'\r' ∷ b'\n' ∷ []

-- `p + dn`, where `dn` is by how much the line grows.
abbrev pub shifted : Bytes → Bytes → ℕ → ℕ
shifted new old p = p + taken_by new - taken_by old

-- The same for an `offset_type`.
abbrev pub shifted_offset : Bytes → Bytes → ℕ → ℕ
shifted_offset new old p = (p + taken_by new + 2 ^ 32 - taken_by old) % 2 ^ 32

-- `ft[j] + dn`
abbrev pub shift_row : Bytes → Bytes → Entry → Entry
shift_row new old e = record e {
  np = shifted_offset new old e.np;
  vp = shifted_offset new old e.vp;
}

-- The loop over the rows behind row `i`, and that row.
unfoldable pub update_rows : ℕ → Bytes → Bytes → List Entry → List Entry
update_rows i new old [] = []
update_rows zero new old (e ∷ es) =
    record e { vp = (e.np + e.nn + 1 + sp_if new) % 2 ^ 32; vn = length new % 2 ^ 32 }
    ∷ map (shift_row new old) es
update_rows (suc i) new old (e ∷ es) = e ∷ update_rows i new old es

-- A row hidden from the handlers.
unfoldable pub hide_row : ℕ → List Entry → List Entry
hide_row i [] = []
hide_row zero (e ∷ es) = record e { id = Field.unknown } ∷ es
hide_row (suc i) (e ∷ es) = e ∷ hide_row i es

-- The metadata, when the field is special: the row is hidden while `on_erase` runs.
unfoldable pub update_special : Grammar → ℕ → ℕ → Field → Header → Header
unfolding row_at hide_row
update_special g i pos0 id h =
    let hidden : Header = record h {
      cbuf = write_at h.cbuf pos0 (0 ∷ []);
      tab = hide_row i h.tab;
    } in
    let erased = on_erase g id hidden in
    let restored : Header = record erased { cbuf = h.cbuf; tab = h.tab } in
    on_insert g id (value_of h (row_at h.tab i)) restored

module _ (alloc : ℕ → Bytes) where
  -- The buffer with the new line: in new memory, or in place, where the value is written before the
  -- octets behind the line are moved.
  unfoldable pub rewrite_line : Header → ℕ → Bytes → Bytes → Bool → Option ℕ → Bytes
  rewrite_line h i new old fold (some cap) =
      let pos1 = offset h (i + 1) in
      let dest = offset h i + (row_at h.tab i).nn + 1 in
      let head = write_at (alloc cap) 0 (take dest h.cbuf) in
      let line = write_at head dest (written_value new fold ++ line_end) in
      write_at line (shifted new old pos1) (slice pos1 (h.size - pos1) h.cbuf)
  rewrite_line h i new old fold none =
      let pos1 = offset h (i + 1) in
      let dest = offset h i + (row_at h.tab i).nn + 1 in
      let written = write_at h.cbuf dest (written_value new fold) in
      let moved = write_at written (shifted new old pos1) (slice pos1 (h.size - pos1) written) in
      write_at moved (dest + taken_by new) line_end

  module _ (g : Grammar) where
    unfoldable pub finish_set :
        ℕ → Bytes → Bytes → Bool → Header → Option (Option ℕ) → Option (Result Header)
    unfolding row_at update_rows update_special rewrite_line
    finish_set i new old fold h none = none
    finish_set i new old fold h (some room) =
        let k : Header = record h {
          cbuf = rewrite_line h i new old fold room;
          cap = elim room [ none ↦ h.cap | some n ↦ n ];
          tab = update_rows i new old h.tab;
          size = shifted_offset new old h.size;
        } in
        let id = (row_at h.tab i).id in
        some (ok (if is_special h id then update_special g i (offset h i) id k else k))

    -- The buffer grows by what the value grows, which leaves out a space that comes in.
    unfoldable pub set_valid : ℕ → FieldValue → Header → Option (Result Header)
    unfolding finish_set
    set_valid i v h =
        let old = value_of h (row_at h.tab i) in
        finish_set i v.value old v.has_obs_fold h (
          if ltb (taken_by old) (taken_by v.value)
          then grow h (length v.value - length old) 0
          else some none)

    unfoldable pub set_checked : ℕ → Header → Result FieldValue → Option (Result Header)
    unfolding set_valid
    set_checked i h (err e) = some (err e)
    set_checked i h (ok v) = set_valid i v h

    -- `set(iterator, value)`
    unfoldable pub set_at : ℕ → Bytes → Header → Option (Result Header)
    unfolding set_checked
    set_at i value h = set_checked i h (verify_field_value value)
