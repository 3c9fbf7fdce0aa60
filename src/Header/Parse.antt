-- ===== src/Header/Parse.antt =====
-- `count_crlf`, `parse_start_line`, `parse_field` and `header::parse` of src/detail/header.cpp. The
-- range [it, end) is the octets of the buffer from `size` to `new_size`.
use http_proto.Base.{
  ℕ, zero, suc, ◌+◌, ◌-◌, ◌%◌, ◌^◌, Bool, not, ◌&&◌, [], ◌∷◌, ◌==◌, leb, ltb, if◌then◌else◌, Bytes,
  length,
}
use http_proto.Base.Splice.{slice, write_at}
use http_proto.Types.{
  Error, ErrorCode, success, failure, end_of_range, bad_version, headers_limit, start_line_limit,
  field_size_limit, fields_limit, out_of_fuel, reversed_range, Kind, fields, request, response,
  Version, http_1_0, http_1_1, Entry, Header,
}
use http_proto.Names.Methods.{string_to_method}
use http_proto.Names.Fields.{string_to_field}
use http_proto.Grammar.{Result, ok, err, Grammar}
use http_proto.Rules.ObsFold.{remove_obs_fold}
use http_proto.Rules.Value.{is_need_more}
use http_proto.Rules.StartLine.{RequestLine, StatusLine, request_line_rule, status_line_rule}
use http_proto.Rules.Line.{FieldLine, field_rule}
use http_proto.Header.{is_request}
use http_proto.Header.Framing.{on_start_line}
use http_proto.Header.Insert.{on_insert}

-- `header_limits`
pub record Limits : Type 0 where
  pub max_size : ℕ
  pub max_start_line : ℕ
  pub max_field : ℕ
  pub max_fields : ℕ

-- A CR that a CR follows is passed over alone, any other CR with the octet after it.
unfoldable pub count_crlf : Bytes → ℕ
count_crlf [] = 0
count_crlf (c ∷ []) = 0
count_crlf (c ∷ d ∷ s) =
    let skipped = count_crlf s in
    let next = count_crlf (d ∷ s) in
    if c == b'\r' && not (d == b'\r') then (if d == b'\n' then suc skipped else skipped) else next

-- `if(n > limit) n = limit;`
abbrev pub clip : ℕ → ℕ → ℕ
clip limit n = if ltb limit n then limit else n

-- The octets of [it, end).
abbrev pub input : Header → ℕ → Bytes
input h new_size = slice h.size (new_size - h.size) h.cbuf

-- The case labels of the version switch; `h` with the version, and what follows it in `parse_start_line`.
unfoldable pub with_version : ℕ → (Version → Header × ErrorCode) → Header → Header × ErrorCode
with_version v next h =
    if v == 10 then next http_1_0 else if v == 11 then next http_1_1 else (h, failure bad_version)

-- The end of `parse_start_line`, with the number of octets taken.
unfoldable pub line_done : ℕ → Header → Header × ErrorCode
line_done n h = (on_start_line (record h { prefix = n % 2 ^ 32; size = n % 2 ^ 32 }), success)

unfoldable pub start_error : Limits → ℕ → Error → ErrorCode
start_error lim n e =
    if is_need_more e && n == lim.max_start_line then failure start_line_limit else failure e

unfoldable pub take_request :
    Limits → ℕ → Bytes → Header → Result RequestLine × Bytes → Header × ErrorCode
unfolding start_error with_version line_done
take_request lim n it h (err e, rest) = (h, start_error lim n e)
take_request lim n it h (ok (sm, (_, (st, (_, (v, _))))), rest) =
    let k : Header = record h {
      method = string_to_method sm;
      method_len = length sm % 2 ^ 32;
      target_len = length st % 2 ^ 32;
    } in
    with_version v (λ x. line_done (length it - length rest) (record k { version = x })) k

unfoldable pub take_status :
    Limits → ℕ → Bytes → Header → Result StatusLine × Bytes → Header × ErrorCode
unfolding start_error with_version line_done
take_status lim n it h (err e, rest) = (h, start_error lim n e)
take_status lim n it h (ok (v, (_, (code, _))), rest) =
    with_version v
      (λ x.
        line_done (length it - length rest)
          (record h { version = x; status_int = code.v % 2 ^ 16; status = code.st }))
      h

-- `end` is computed from `new_size` before `new_size` is clipped.
unfoldable pub parse_start_line : Grammar → Limits → ℕ → Header → Header × ErrorCode
unfolding take_request take_status
parse_start_line g lim new_size h =
    let it = slice 0 new_size h.cbuf in
    let n = clip lim.max_start_line new_size in
    if is_request h.kind
    then take_request lim n it h (request_line_rule g it)
    else take_status lim n it h (status_line_rule g it)

-- The row of the new field, `n` octets of which stand at `size`; `from` is how far from there the
-- value begins.
abbrev pub new_row : Header → FieldLine → ℕ → Entry
new_row h v from = record {
  np = (h.size - h.prefix) % 2 ^ 32;
  nn = length v.name % 2 ^ 32;
  vp = (h.size + from - h.prefix) % 2 ^ 32;
  vn = length v.value % 2 ^ 32;
  id = string_to_field v.name;
}

-- `parse_field` after the check of the number of fields. The name has no CR, so the removal of
-- obs-folds does not change it; the value is read from the changed buffer.
unfoldable pub add_field : Grammar → ℕ → ℕ → FieldLine → Header → Header
add_field g n from v h =
    let cbuf =
      if v.has_obs_fold
      then write_at h.cbuf h.size (remove_obs_fold (slice h.size n h.cbuf))
      else h.cbuf in
    let k : Header = record h {
      cbuf = cbuf;
      size = (h.size + n) % 2 ^ 32;
      tab = if h.owned then write_at h.tab h.count (new_row h v from ∷ []) else h.tab;
      count = suc h.count;
    } in
    on_insert g (string_to_field v.name) (slice (h.size + from) (length v.value) cbuf) k

abbrev pub is_end_of_range : Error → Bool
is_end_of_range end_of_range = Bool.true
is_end_of_range _ = Bool.false

unfoldable pub take_field :
    Grammar → Limits → ℕ → Bytes → Header → Result FieldLine × Bytes → Header × ErrorCode
unfolding add_field
take_field g lim n it h (err e, rest) =
    if is_end_of_range e
    then (record h { size = (h.size + (length it - length rest)) % 2 ^ 32 }, failure e)
    else if is_need_more e && n == lim.max_field
    then (h, failure field_size_limit)
    else (h, failure e)
take_field g lim n it h (ok v, rest) =
    if leb lim.max_fields h.count
    then (h, failure fields_limit)
    else (add_field g (length it - length rest) (length it - length v.from) v h, success)

-- Where the clipped `new_size` is below `size`, the range of the program is reversed.
unfoldable pub parse_field : Grammar → Limits → ℕ → Header → Header × ErrorCode
unfolding take_field
parse_field g lim new_size h =
    let n = clip lim.max_field new_size in
    let it = input h n in
    let read = take_field g lim n it h (field_rule g it) in
    if ltb n h.size then (h, failure reversed_range) else read

-- The loop, with what follows it.
unfoldable pub after_field :
    Limits → ℕ → (Header → Header × ErrorCode) → Header × ErrorCode → Header × ErrorCode
after_field lim n next (h, success) = next h
after_field lim n next (h, failure e) =
    if is_need_more e && n == lim.max_size
    then (h, failure headers_limit)
    else if is_end_of_range e
    then (h, success)
    else (h, failure e)

unfoldable pub parse_fields : ℕ → Grammar → Limits → ℕ → Header → Header × ErrorCode
unfolding after_field
parse_fields zero g lim n h = (h, failure out_of_fuel)
parse_fields (suc fuel) g lim n h =
    after_field lim n (parse_fields fuel g lim n) (parse_field g lim n h)

-- A field that is added counts towards `max_fields`, so this many rounds are enough.
abbrev pub rounds : Limits → Header → ℕ
rounds lim h = suc (lim.max_fields - h.count)

unfoldable pub after_start : Grammar → Limits → ℕ → Header × ErrorCode → Header × ErrorCode
unfolding parse_fields
after_start g lim n (h, success) = parse_fields (rounds lim h) g lim n h
after_start g lim n (h, failure e) =
    if is_need_more e && n == lim.max_fields then (h, failure headers_limit) else (h, failure e)

abbrev pub has_start_line : Kind → Bool
has_start_line fields = Bool.false
has_start_line request = Bool.true
has_start_line response = Bool.true

-- `header::parse`, with an error code that is clear.
unfoldable pub parse : Grammar → ℕ → Limits → Header → Header × ErrorCode
unfolding after_start parse_start_line parse_field
parse g new_size lim h =
    let n = clip lim.max_size new_size in
    if h.prefix == 0 && has_start_line h.kind
    then after_start g lim n (parse_start_line g lim n h)
    else parse_fields (rounds lim h) g lim n h
