-- ===== src/Fields.antt =====
-- src/fields_base.cpp: the container of fields, over the buffer and the table of `detail::header`.
-- The character area and the table share one allocation in the program; here they are two lists.

pub mod Insert
pub mod Represents
pub mod Erased
pub mod EraseAll
pub mod Room
pub mod Inserted
pub mod Checked
pub mod Set
pub mod SetAt
pub mod Erase
pub mod Copy
pub mod Copied
pub mod Removed
pub mod Reserved
pub mod Appended
pub mod Replaced
pub mod Replacing
use http_proto.Base.{
  ℕ, zero, suc, ◌+◌, ◌-◌, ◌*◌, ◌%◌, ◌^◌, Bool, true, false, List, [], ◌∷◌, ◌++◌, map, ◌==◌, ltb,
  leb, if◌then◌else◌, take, drop, length, get_elem?, Bytes,
}
use http_proto.Base.Splice.{slice, write_at}
use http_proto.Field
use http_proto.Field.{Field}
use http_proto.Types.{Entry, Header, entry_align, max_offset}
use http_proto.Grammar.{Grammar}
use http_proto.Header.{align_up, bytes_needed, table_space}
use http_proto.Header.Insert.{on_insert}
use http_proto.Header.Erase.{on_erase, on_erase_all}
use http_proto.Rules.ObsFold.{remove_obs_fold}

-- Casts to `offset_type`, of a sum and of a difference of `size_t`.
abbrev pub add_offset : ℕ → ℕ → ℕ
add_offset a d = (a + d) % 2 ^ 32

abbrev pub sub_offset : ℕ → ℕ → ℕ
sub_offset a d = (a + 2 ^ 64 - d) % 2 ^ 32

-- `entry::operator+` and `entry::operator-`
abbrev pub moved_up : ℕ → Entry → Entry
moved_up d e = record e { np = add_offset e.np d; vp = add_offset e.vp d }

abbrev pub moved_down : ℕ → Entry → Entry
moved_down d e = record e { np = sub_offset e.np d; vp = sub_offset e.vp d }

-- Where the i-th field begins in the buffer; the final CRLF is the last "field".
abbrev np_at : List Entry → ℕ → ℕ
np_at [] i = 0
np_at (e ∷ es) zero = e.np
np_at (e ∷ es) (suc i) = np_at es i

unfoldable pub offset : Header → ℕ → ℕ
offset h i =
    if i == 0 then h.prefix else if ltb i h.count then h.prefix + np_at h.tab i else h.size - 2

-- The loop `ft[i] = ft[i + 1] - n`.
unfoldable pub erase_row : ℕ → ℕ → List Entry → List Entry
erase_row i n [] = []
erase_row zero n (e ∷ es) = map (moved_down n) es
erase_row (suc i) n (e ∷ es) = e ∷ erase_row i n es

unfoldable pub raw_erase : ℕ → Header → Header
raw_erase i h =
    let p0 = offset h i in
    let p1 = offset h (i + 1) in
    record h {
      cbuf = write_at h.cbuf p0 (slice p1 (h.size - p1) h.cbuf);
      count = h.count - 1;
      tab = erase_row i (p1 - p0) h.tab;
      size = sub_offset h.size (p1 - p0);
    }

-- `erase_impl`: erase one field and update the metadata.
unfoldable pub erase_impl : Grammar → ℕ → Field → Header → Header
unfolding raw_erase
erase_impl g i id h = let h' = raw_erase i h in if id == Field.unknown then h' else on_erase g id h'
