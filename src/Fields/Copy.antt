-- ===== src/Fields/Copy.antt =====
-- The constructors of the container, `copy_impl`, `clear` and `shrink_to_fit`, in
-- src/fields_base.cpp, with the default headers and `assign_to` of src/detail/header.cpp.
use mathlib.Core.Option.{Option, none, some}
use http_proto.Base.{
  ℕ, ◌-◌, Bool, true, false, not, ◌&&◌, [], ltb, leb, if◌then◌else◌, take, Bytes, length, codes,
}
use http_proto.Base.Splice.{write_at}
use http_proto.Types.{
  Kind, fields, request, response, http_1_1, no_metadata, Header, ErrorCode, success, failure,
  entry_align,
}
use http_proto.Names.Methods.{Method}
use http_proto.Grammar.{Grammar}
use http_proto.Header.{align_up, bytes_needed}
use http_proto.Header.Parse.{Limits, count_crlf, parse}
use http_proto.Parser.Calls.{max_capacity}
use http_proto.Fields.Insert.{grow}
use http_proto.Fields.Set.{reserve_bytes}

-- `header(empty)`
unfoldable pub blank : Kind → Header
unfolding max_capacity
blank kind = record {
  kind = kind;
  cbuf = [];
  owned = false;
  cap = 0;
  max_cap = max_capacity;
  size = 0;
  count = 0;
  prefix = 0;
  version = http_1_1;
  md = no_metadata;
  method = Method.unknown;
  method_len = 0;
  target_len = 0;
  status_int = 0;
  status = 0;
  tab = [];
}

-- `get_default`, the constructors with a tag.
unfoldable pub get_default : Kind → Header
unfolding blank
get_default fields = record (blank fields) { cbuf = codes "\r\n"; size = 2 }
get_default request = record (blank request) {
  cbuf = codes "GET / HTTP/1.1\r\n\r\n";
  size = 18;
  prefix = 16;
  method = Method.get;
  method_len = 3;
  target_len = 1;
}
get_default response = record (blank response) {
  cbuf = codes "HTTP/1.1 200 OK\r\n\r\n";
  size = 19;
  prefix = 17;
  status_int = 200;
  status = 200;
}

-- All the members but the memory; `max_cap` goes with them.
unfoldable pub assign_to : Header → Header → Header
assign_to h dest = record h { cbuf = dest.cbuf; owned = dest.owned; cap = dest.cap }

abbrev pub is_default : Header → Bool
is_default h = not h.owned

-- `h`'s octets and rows in the memory of `dest`.
unfoldable pub copied_into : Header → Header → Header
unfolding assign_to
copied_into h dest =
    let k = assign_to h dest in
    record k { cbuf = write_at dest.cbuf 0 (take h.size h.cbuf); tab = take h.count h.tab }

-- `clear()`; the rows are left where they are, and none counts.
unfoldable pub clear_fields : Header → Header
unfolding assign_to get_default
clear_fields h =
    let d = get_default h.kind in
    if h.owned then record (assign_to d h) { cbuf = write_at h.cbuf 0 d.cbuf; tab = h.tab } else h

-- What a constructor from a string does.
pub data Built : Type 0 where
  built : Header → Built
  invalid_argument : Built
  length_error : Built
  system_error : ErrorCode → Built

module _ (alloc : ℕ → Bytes) where
  -- `op.grow`, of a container whose octets are not kept; `none` is a `length_error`.
  unfoldable pub grown : Header → Option (Option ℕ) → Option Header
  grown h none = none
  grown h (some none) = some h
  grown h (some (some n)) = some (record h { cbuf = alloc n; owned = true; cap = n })

  unfoldable pub copied : Header → Option Header → Option Header
  unfolding copied_into
  copied h none = none
  copied h (some k) = some (copied_into h k)

  -- `fields_base(header const&)`
  unfoldable pub copy_of : Header → Option Header
  unfolding copied grown get_default
  copy_of h =
      let d = get_default h.kind in
      if is_default h then some h else copied h (grown d (grow d h.size h.count))

  -- `fields_base(kind, storage_size)`
  unfoldable pub with_storage : Kind → ℕ → Option Header
  unfolding get_default
  with_storage kind storage_size =
      let d = get_default kind in
      if ltb 0 storage_size
      then reserve_bytes alloc storage_size
          (record d { max_cap = align_up storage_size entry_align })
      else some d

  -- `fields_base(kind, storage_size, max_storage_size)`
  unfoldable pub with_max_storage : Kind → ℕ → ℕ → Option Header
  unfolding get_default
  with_max_storage kind storage_size max_storage_size =
      let d = get_default kind in
      let k : Header = record d { max_cap = align_up max_storage_size entry_align } in
      if ltb max_storage_size storage_size
      then none
      else if ltb max_capacity max_storage_size
      then none
      else if ltb 0 storage_size
      then reserve_bytes alloc storage_size k
      else some k

  -- `copy_impl`: in place when there is room.
  unfoldable pub copy_impl : Header → Header → Option Header
  unfolding copied_into copy_of
  copy_impl h dest =
      if not (is_default h) && leb (bytes_needed h.size h.count) dest.cap
      then some (copied_into h dest)
      else copy_of h

  unfoldable pub shrink_to_fit : Header → Option Header
  unfolding copy_of
  shrink_to_fit h = if leb h.cap (bytes_needed h.size h.count) then some h else copy_of h

  -- The limits are those a `header_limits` has by default.
  module _ (g : Grammar) (lim : Limits) where
    unfoldable pub built_with : Header × ErrorCode → Built
    built_with (h, success) = built h
    built_with (h, failure e) = system_error (failure e)

    unfoldable pub parse_copy : Bytes → Option Header → Built
    unfolding built_with
    parse_copy s none = length_error
    parse_copy s (some h) =
        built_with (parse g (length s) lim (record h { cbuf = write_at h.cbuf 0 s }))

    -- The line ends that do not end a field.
    abbrev pub other_lines : Kind → ℕ
    other_lines fields = 1
    other_lines request = 2
    other_lines response = 2

    -- `fields_base(kind, string_view)`
    unfoldable pub from_string : Kind → Bytes → Built
    unfolding parse_copy grown blank
    from_string kind s =
        let n = count_crlf s in
        if ltb n (other_lines kind)
        then invalid_argument
        else parse_copy s (grown (blank kind) (grow (blank kind) (length s) (n - other_lines kind)))
