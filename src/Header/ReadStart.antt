-- ===== src/Header/ReadStart.antt =====
-- `parse_start_line` of src/detail/header.cpp reads a start line back.
use mathlib.Core.List.{append_assoc}
use http_proto.Base.{
  ℕ, suc, ◌+◌, ◌-◌, ◌≤◌, ◌<◌, ◌%◌, ◌^◌, ◌≡◌, refl, sym, ap, ◌∙◌, true, [], ◌∷◌, ◌++◌, Bytes, length,
  length-append, All, arith, take, if◌then◌else◌,
}
use http_proto.Base.Splice.{slice, take-append_add}
use http_proto.Types.{
  Kind, fields, request, response, Version, http_1_0, http_1_1, Header, ErrorCode, success,
}
use http_proto.Grammar.{ok, Grammar, IsGrammar}
use http_proto.Names.Methods.{string_to_method}
use http_proto.Names.Statuses.{int_to_status}
use http_proto.Rfc.Chars.{tchars}
use http_proto.Rules.StartLine.{target_chars, ws_vchars, request_line_rule, status_line_rule}
use http_proto.Rules.Starts.{
  IsDigit, code_number, code_of, request_line, status_line, version_number, request_line_rule_lem,
  status_line_rule_lem,
}
use http_proto.Header.{is_request}
use http_proto.Header.Framing.{on_start_line}
use http_proto.Header.Kept.{on_start_line-Keeps}
use http_proto.Header.Parse.{
  Limits, clip, line_done, with_version, take_request, take_status, parse_start_line,
  has_start_line,
}
use http_proto.Header.Read.{Holds, start_of, kept-Holds, line}

-- A start line, or none, by its parts; texts that may not be empty by their first octet and others.
pub data Start : Type 0 where
  no_line : Start
  request_start : ℕ → Bytes → ℕ → Bytes → Version → Start
  status_start : Version → ℕ → ℕ → ℕ → ℕ → Bytes → Start

abbrev pub text : Start → Bytes → Bytes
text no_line rest = rest
text (request_start c method d target v) rest = request_line (c ∷ method) (d ∷ target) v rest
text (status_start v x y z c reason) rest = status_line v x y z (c ∷ reason) rest

-- A method of token octets, a target of visible octets, a status code of digits, and a reason
-- phrase of visible octets and blanks.
abbrev pub IsStart : Start → Type 0
IsStart no_line = Unit
IsStart (request_start c method d target v) =
    All (λ x. tchars x ≡ true) (c ∷ method) × All (λ x. target_chars x ≡ true) (d ∷ target)
IsStart (status_start v x y z c reason) =
    IsDigit x × (IsDigit y × (IsDigit z × All (λ r. ws_vchars r ≡ true) (c ∷ reason)))

abbrev pub kind_of : Start → Kind
kind_of no_line = fields
kind_of (request_start c method d target v) = request
kind_of (status_start v x y z c reason) = response

-- What the header then says of its start line.
abbrev pub with_start : Start → Header → Header
with_start no_line h = h
with_start (request_start c method d target v) h = record h {
  version = v;
  method = string_to_method (c ∷ method);
  method_len = suc (length method) % 2 ^ 32;
  target_len = suc (length target) % 2 ^ 32;
}
with_start (status_start v x y z c reason) h = record h {
  version = v;
  status_int = code_number x y z % 2 ^ 16;
  status = int_to_status (code_number x y z);
}

-- A header of which nothing is read.
pub record IsEmpty (h : Header) : Type 0 where
  pub owned : h.owned ≡ true
  pub prefix_is : h.prefix ≡ 0
  pub size_is : h.size ≡ 0
  pub count_is : h.count ≡ 0
  pub table_is : h.tab ≡ []

text-append : (s : Start) (rest : Bytes) → text s rest ≡ text s [] ++ rest
text-append no_line rest = refl
text-append (request_start c method d target http_1_0) rest = simp append_assoc refl
text-append (request_start c method d target http_1_1) rest = simp append_assoc refl
text-append (status_start http_1_0 x y z c reason) rest = simp append_assoc refl
text-append (status_start http_1_1 x y z c reason) rest = simp append_assoc refl

input-text :
    (s : Start) (rest : Bytes) (k n : ℕ)
    → n ≡ length (text s []) + k
    → slice 0 n (text s rest) ≡ text s (take k rest)
input-text s rest k n e =
    ap (take n) (text-append s rest)
    ∙ take-append_add (text s []) rest k e
    ∙ sym (text-append s (take k rest))

line_done-Holds :
    (n : ℕ) (h : Header) (s : Start) (rest : Bytes)
    → IsEmpty h
    → h.cbuf ≡ text s rest
    → n ≡ length (text s [])
    → n < 2 ^ 32
    → Holds (line_done n h).0 (text s []) [] rest × (start_of (line_done n h).0 ≡ start_of h)
unfolding line_done
line_done-Holds n h s rest i b e small =
    let k : Header = record h { prefix = n % 2 ^ 32; size = n % 2 ^ 32 } in
    (
      kept-Holds k (on_start_line k) (on_start_line-Keeps k) (record {
        buffer = b ∙ text-append s rest;
        owned = i.owned;
        prefix_is = omega arith;
        size_is = omega arith;
        count_is = i.count_is;
        table_is = i.table_is;
      }),
      ap start_of (on_start_line-Keeps k),
    )

line_done-success : (n : ℕ) (h : Header) → line_done n h ≡ ((line_done n h).0, success)
unfolding line_done
line_done-success n h = refl

take_request_lem :
    (lim : Limits) (n : ℕ) (it : Bytes) (h : Header) (c : ℕ) (method : Bytes) (d : ℕ)
    (target : Bytes) (v : Version) (rest : Bytes)
    → take_request lim n it h
        (ok (c ∷ method, (tt, (d ∷ target, (tt, (version_number v, tt))))), rest)
      ≡ line_done (length it - length rest) (with_start (request_start c method d target v) h)
unfolding take_request with_version
take_request_lem lim n it h c method d target http_1_0 rest = refl
take_request_lem lim n it h c method d target http_1_1 rest = refl

take_status_lem :
    (lim : Limits) (n : ℕ) (it : Bytes) (h : Header) (v : Version) (x y z c : ℕ) (reason : Bytes)
    (rest : Bytes)
    → take_status lim n it h
        (ok (version_number v, (tt, (code_of x y z, (tt, (c ∷ reason, tt))))), rest)
      ≡ line_done (length it - length rest) (with_start (status_start v x y z c reason) h)
unfolding take_status with_version
take_status_lem lim n it h http_1_0 x y z c reason rest = refl
take_status_lem lim n it h http_1_1 x y z c reason rest = refl

-- The octets that the start line takes.
taken : (s : Start) (rest : Bytes) → length (text s rest) - length rest ≡ length (text s [])
taken s rest =
    let e = ap length (text-append s rest) in omega (arith, e, length-append (text s []) rest)

with_start-IsEmpty : (s : Start) (h : Header) → IsEmpty h → IsEmpty (with_start s h)
with_start-IsEmpty no_line h i = i
with_start-IsEmpty (request_start c method d target v) h i = record {
  owned = i.owned;
  prefix_is = i.prefix_is;
  size_is = i.size_is;
  count_is = i.count_is;
  table_is = i.table_is;
}
with_start-IsEmpty (status_start v x y z c reason) h i = record {
  owned = i.owned;
  prefix_is = i.prefix_is;
  size_is = i.size_is;
  count_is = i.count_is;
  table_is = i.table_is;
}

with_start-cbuf : (s : Start) (h : Header) → (with_start s h).cbuf ≡ h.cbuf
with_start-cbuf no_line h = refl
with_start-cbuf (request_start c method d target v) h = refl
with_start-cbuf (status_start v x y z c reason) h = refl

abbrev by_kind : Grammar → Limits → ℕ → Bytes → Header → Kind → Header × ErrorCode
by_kind g lim m it h z =
    if is_request z
    then take_request lim m it h (request_line_rule g it)
    else take_status lim m it h (status_line_rule g it)

-- A start line that is there in full is read.
parse_start_line-line_done :
    (g : Grammar) (lim : Limits) (n k : ℕ) (h : Header) (s : Start) (rest : Bytes)
    → IsGrammar g
    → IsStart s
    → has_start_line (kind_of s) ≡ true
    → h.kind ≡ kind_of s
    → h.cbuf ≡ text s rest
    → n ≡ length (text s []) + k
    → parse_start_line g lim n h ≡ line_done (length (text s [])) (with_start s h)
unfolding parse_start_line
parse_start_line-line_done g lim n k h no_line rest gk i line kd b e = absurd (ground arith)
parse_start_line-line_done g lim n k h (request_start c method d target v) rest gk i line kd b e =
    let s = request_start c method d target v in
    let m = clip lim.max_start_line n in
    let it = text s (take k rest) in
    let inp : slice 0 n h.cbuf ≡ it = ap (slice 0 n) b ∙ input-text s rest k n e in
    ap (by_kind g lim m (slice 0 n h.cbuf) h) kd
    ∙ ap (λ z. take_request lim m z h (request_line_rule g z)) inp
    ∙ ap (take_request lim m it h)
        (request_line_rule_lem g c method d target v (take k rest) gk i.0 i.1)
    ∙ take_request_lem lim m it h c method d target v (take k rest)
    ∙ ap (λ z. line_done z (with_start s h)) (taken s (take k rest))
parse_start_line-line_done g lim n k h (status_start v x y z c reason) rest gk i line kd b e =
    let s = status_start v x y z c reason in
    let m = clip lim.max_start_line n in
    let it = text s (take k rest) in
    let inp : slice 0 n h.cbuf ≡ it = ap (slice 0 n) b ∙ input-text s rest k n e in
    let (hx, (hy, (hz, hr))) = i in
    ap (by_kind g lim m (slice 0 n h.cbuf) h) kd
    ∙ ap (λ z. take_status lim m z h (status_line_rule g z)) inp
    ∙ ap (take_status lim m it h)
        (status_line_rule_lem g v x y z c reason (take k rest) gk hx hy hz hr)
    ∙ take_status_lem lim m it h v x y z c reason (take k rest)
    ∙ ap (λ z. line_done z (with_start s h)) (taken s (take k rest))

pub parse_start_line-Holds :
    (g : Grammar) (lim : Limits) (n : ℕ) (h : Header) (s : Start) (rest : Bytes)
    → IsGrammar g
    → IsStart s
    → has_start_line (kind_of s) ≡ true
    → h.kind ≡ kind_of s
    → IsEmpty h
    → h.cbuf ≡ text s rest
    → length (text s []) ≤ n
    → length (text s []) < 2 ^ 32
    → (h' : Header) × (parse_start_line g lim n h ≡ (h', success))
      × Holds h' (text s []) [] rest
      × (start_of h' ≡ start_of (with_start s h))
parse_start_line-Holds g lim n h s rest gk i line kd em b big small =
    let k = n - length (text s []) in
    let p = parse_start_line-line_done g lim n k h s rest gk i line kd b (omega arith) in
    let (q, o) =
      line_done-Holds (length (text s [])) (with_start s h) s rest (with_start-IsEmpty s h em)
        (with_start-cbuf s h ∙ b) refl small in
    ((line_done (length (text s [])) (with_start s h)).0, p ∙ line_done-success _ _, q, o)
