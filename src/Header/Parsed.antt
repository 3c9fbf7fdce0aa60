-- ===== src/Header/Parsed.antt =====
-- `header::parse` of src/detail/header.cpp reads a start line and field lines back.
use http_proto.Base.{
  ℕ, ◌+◌, ◌≤◌, ◌<◌, ◌^◌, ◌≡◌, refl, ap, ◌∙◌, Bool, true, false, ◌&&◌, List, [], ◌++◌, ◌==◌, Bytes,
  length, All, arith, map, if◌then◌else◌,
}
use http_proto.Types.{Header, ErrorCode, success}
use http_proto.Grammar.{Grammar, IsGrammar}
use http_proto.Rules.Reads.{FieldText, IsField}
use http_proto.Fields.Represents.{flat, crlf, Represents}
use http_proto.Header.Parse.{
  Limits, clip, rounds, has_start_line, parse_start_line, after_start, parse_fields, parse,
}
use http_proto.Header.Read.{Holds, start_of, line}
use http_proto.Header.ReadAll.{parse_fields-Represents}
use http_proto.Header.ReadStart.{
  Start, no_line, request_start, status_start, text, IsStart, kind_of, with_start, IsEmpty,
  parse_start_line-Holds,
}

abbrev parse_if : Grammar → Limits → ℕ → Header → Bool → Header × ErrorCode
parse_if g lim n h z =
    let m = clip lim.max_size n in
    if z
    then after_start g lim m (parse_start_line g lim m h)
    else parse_fields (rounds lim h) g lim m h

parse-parse_if :
    (g : Grammar) (lim : Limits) (n : ℕ) (h : Header) (b : Bool)
    → (h.prefix == 0) ≡ true
    → has_start_line h.kind ≡ b
    → parse g n lim h ≡ parse_if g lim n h b
unfolding parse
parse-parse_if g lim n h b z e =
    ap (λ y. parse_if g lim n h (y && has_start_line h.kind)) z ∙ ap (parse_if g lim n h) e

clip_within : (limit n m : ℕ) → m ≤ limit → m ≤ n → m ≤ clip limit n
clip_within limit n m a b = ground arith

Holds-no_line : (h : Header) (rest : Bytes) → IsEmpty h → h.cbuf ≡ rest → Holds h [] [] rest
Holds-no_line h rest i b = record {
  buffer = b;
  owned = i.owned;
  prefix_is = i.prefix_is;
  size_is = i.size_is;
  count_is = i.count_is;
  table_is = i.table_is;
}

parse-started :
    (g : Grammar) (lim : Limits) (n : ℕ) (h : Header) (s : Start) (ts : List FieldText)
    (slack : Bytes)
    → has_start_line (kind_of s) ≡ true
    → IsGrammar g
    → IsStart s
    → All IsField ts
    → h.kind ≡ kind_of s
    → IsEmpty h
    → h.cbuf ≡ text s (flat (map line ts) ++ (crlf ++ slack))
    → length (text s []) + length (flat (map line ts)) + 2 ≤ n
    → length (text s []) + length (flat (map line ts)) + 2 ≤ lim.max_size
    → length (text s []) + length (flat (map line ts)) + 2 ≤ lim.max_field
    → length ts ≤ lim.max_fields
    → length (text s []) + length (flat (map line ts)) + 2 < 2 ^ 32
    → (h' : Header) × (parse g n lim h ≡ (h', success))
      × Represents h' (text s []) (map line ts)
      × (start_of h' ≡ start_of (with_start s h))
unfolding after_start
parse-started g lim n h s ts slack sl gk is fs kd em b there size field count small =
    let m = clip lim.max_size n in
    let c1 = clip_within lim.max_size n _ size there in
    let z : (h.prefix == 0) ≡ true = ground (arith, em.prefix_is) in
    let (h1, p, q, o) =
      parse_start_line-Holds g lim m h s (flat (map line ts) ++ (crlf ++ slack)) gk is sl kd em b
        (omega arith) (omega arith) in
    let s1 = q.size_is in
    let c0 = q.count_is in
    let (h', p', v, o') =
      parse_fields-Represents (rounds lim h1) g lim m h1 (text s []) [] ts slack gk fs q
        (clip_within lim.max_field m _ (omega arith) (omega arith)) (omega arith) (omega arith)
        (omega arith) in
    (
      h',
      parse-parse_if g lim n h true z (ap has_start_line kd ∙ sl) ∙ ap (after_start g lim m) p ∙ p',
      v,
      o' ∙ o,
    )

-- `header::parse` of an empty header, whose buffer begins with a start line of the header's kind,
-- field lines without obs-folds and a CRLF, all of them among the first `n` octets, within the limits
-- on the size and the number of fields, and no longer than the limit on one field, succeeds: buffer
-- and table describe these lines, and the header has the start line's method, version or status.
-- The grammar library is assumed to be as documented.
pub parse-Represents :
    (g : Grammar) (lim : Limits) (n : ℕ) (h : Header) (s : Start) (ts : List FieldText)
    (slack : Bytes)
    → IsGrammar g
    → IsStart s
    → All IsField ts
    → h.kind ≡ kind_of s
    → IsEmpty h
    → h.cbuf ≡ text s (flat (map line ts) ++ (crlf ++ slack))
    → length (text s []) + length (flat (map line ts)) + 2 ≤ n
    → length (text s []) + length (flat (map line ts)) + 2 ≤ lim.max_size
    → length (text s []) + length (flat (map line ts)) + 2 ≤ lim.max_field
    → length ts ≤ lim.max_fields
    → length (text s []) + length (flat (map line ts)) + 2 < 2 ^ 32
    → (h' : Header) × (parse g n lim h ≡ (h', success))
      × Represents h' (text s []) (map line ts)
      × (start_of h' ≡ start_of (with_start s h))
unfolding after_start
parse-Represents g lim n h no_line ts slack = λ gk is fs kd em b there size field count small.
    let m = clip lim.max_size n in
    let c1 = clip_within lim.max_size n _ size there in
    let z : (h.prefix == 0) ≡ true = ground (arith, em.prefix_is) in
    let s0 = em.size_is in
    let c0 = em.count_is in
    let (h', p, q, o) =
      parse_fields-Represents (rounds lim h) g lim m h [] [] ts slack gk fs
        (Holds-no_line h (flat (map line ts) ++ (crlf ++ slack)) em b)
        (clip_within lim.max_field m _ (omega arith) (omega arith)) (omega arith) (omega arith)
        (omega arith) in
    (h', parse-parse_if g lim n h false z (ap has_start_line kd) ∙ p, q, o)
parse-Represents g lim n h (request_start c method d target v) ts slack =
    parse-started g lim n h (request_start c method d target v) ts slack refl
parse-Represents g lim n h (status_start v x y z c reason) ts slack =
    parse-started g lim n h (status_start v x y z c reason) ts slack refl
