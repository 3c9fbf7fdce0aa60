-- ===== src/Header.antt =====
-- src/detail/header.cpp: the header's accessors, and the metadata handlers in the child modules.
-- Counts are at most the number of fields, below 2 ^ 32, so the `size_t` counters cannot wrap.
pub mod Parse
pub mod Framing
pub mod Insert
pub mod Erase
pub mod Inserting
pub mod Current
pub mod Framed
pub mod Lengths
pub mod Codings
pub mod TransferEncodings
pub mod Reinserted
pub mod Kept
pub mod Read
pub mod ReadAll
pub mod ReadStart
pub mod Rounds
pub mod Parsed
use http_proto.Base.{
  ℕ, zero, suc, ◌+◌, ◌-◌, ◌*◌, ◌/◌, Bool, true, false, not, ◌&&◌, ◌||◌, List, [], ◌∷◌, ◌==◌, ltb,
  if◌then◌else◌, take, drop, Bytes,
}
use http_proto.Base.Splice.{slice}
use http_proto.Field
use http_proto.Field.{Field}
use http_proto.Types.{
  Kind, fields, request, response, Payload, is_http_1_1, Entry, Header, entry_size, entry_align,
}
use http_proto.Grammar.{Grammar}

-- The rows of the table that are in use, first field first.
abbrev pub rows : Header → List Entry
rows h = take h.count h.tab

abbrev pub name_of : Header → Entry → Bytes
name_of h e = slice (h.prefix + e.np) e.nn h.cbuf

abbrev pub value_of : Header → Entry → Bytes
value_of h e = slice (h.prefix + e.vp) e.vn h.cbuf

-- `find(field)`: the index of the first row with the id, or the number of rows.
unfoldable pub find_id : Field → List Entry → ℕ
find_id id [] = 0
find_id id (e ∷ es) = if e.id == id then 0 else suc (find_id id es)

unfoldable pub find : Header → Field → ℕ
unfolding find_id
find h id = find_id id (rows h)

-- `find(string_view)`
unfoldable pub find_name_in : Grammar → Header → Bytes → List Entry → ℕ
find_name_in g h name [] = 0
find_name_in g h name (e ∷ es) =
    if g.ci_is_equal (name_of h e) name then 0 else suc (find_name_in g h name es)

unfoldable pub find_name : Grammar → Header → Bytes → ℕ
unfolding find_name_in
find_name g h name = find_name_in g h name (rows h)

-- The values of the rows with this id.
unfoldable pub values_with_id : Header → Field → List Entry → List Bytes
values_with_id h id [] = []
values_with_id h id (e ∷ es) =
    let rest = values_with_id h id es in if e.id == id then value_of h e ∷ rest else rest

-- The iteration of `fields_view_base::subrange` from a row with a known id: that row, and then
-- each later one with the id of the row before it.
unfoldable pub subrange_from : Header → List Entry → List Bytes
unfolding values_with_id
subrange_from h [] = []
subrange_from h (e ∷ es) = value_of h e ∷ values_with_id h e.id es

abbrev pub subrange : Header → ℕ → List Bytes
subrange h i = subrange_from h (drop i (rows h))

unfoldable pub is_special : Header → Field → Bool
is_special h id = elim h.kind [
  | fields ↦ false
  | _ ↦
      id == Field.connection
      || id == Field.content_length
      || id == Field.expect
      || id == Field.transfer_encoding
      || id == Field.upgrade
]

abbrev pub is_request : Kind → Bool
is_request fields = false
is_request request = true
is_request response = false

abbrev pub is_error : Payload → Bool
is_error Payload.error = true
is_error _ = false

abbrev pub is_to_eof : Payload → Bool
is_to_eof Payload.to_eof = true
is_to_eof _ = false

-- `keep_alive` asserts that no request is read to the end of file.
unfoldable pub keep_alive : Header → Bool
keep_alive h =
    if is_error h.md.payload
    then false
    else if is_http_1_1 h.version
    then (if h.md.connection.close then false else not (is_to_eof h.md.payload))
    else if not h.md.connection.keep_alive
    then false
    else not (is_to_eof h.md.payload)

-- detail/align_up.hpp
unfoldable pub align_up : ℕ → ℕ → ℕ
align_up s a = a * ((s + a - 1) / a)

unfoldable pub table_space : ℕ → ℕ
table_space n = n * entry_size

unfoldable pub bytes_needed : ℕ → ℕ → ℕ
unfolding align_up
bytes_needed n k = align_up (if ltb n 19 then 19 else n) entry_align + k * entry_size
