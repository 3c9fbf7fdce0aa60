-- ===== src/Header/ReadAll.antt =====
-- `header::parse` of src/detail/header.cpp reads the field lines and the final CRLF.
use mathlib.Core.List.{append_assoc, append-nil}
use mathlib.Core.Path.{subst}
use http_proto.Base.{
  ℕ, zero, suc, ◌+◌, ◌-◌, ◌≤◌, ◌<◌, ◌%◌, ◌^◌, ◌≡◌, refl, sym, ap, ◌∙◌, true, false, List, [], ◌∷◌,
  ◌++◌, ◌==◌, ==_iff, Bool-cases, inl, inr, Bytes, length, length-append, All, arith, map, take,
}
use http_proto.Types.{Header, success, failure, end_of_range}
use http_proto.Grammar.{Grammar, IsGrammar}
use http_proto.Rfc.Chars.{ws, tchars}
use http_proto.Rules.Line.{field_rule}
use http_proto.Rules.Reads.{FieldText, IsField, text_of}
use http_proto.Fields.Represents.{Line, flat, flat-append, crlf, Represents}
use http_proto.Header.Parse.{
  Limits, clip, input, take_field, parse_field, after_field, parse_fields,
}
use http_proto.Header.Read.{
  Holds, start_of, line, input-Holds, in_order, parse_field-Holds, length-text_of,
}

tchar-not_ws : (c : ℕ) → tchars c ≡ true → ws c ≡ false
unfolding tchars
tchar-not_ws c h = elim (Bool-cases (ws c)) [
  | inl e ↦ elim (Bool-cases (c == b' ')) [
    | inl s ↦
        let same : false ≡ true = subst (λ z. tchars z ≡ true) ((==_iff c b' ').0 s) h in
        absurd (ground arith)
    | inr s ↦
        let tab : c ≡ 9 = ground arith in
        let same : false ≡ true = subst (λ z. tchars z ≡ true) tab h in absurd (ground arith)
  ]
  | inr e ↦ e
]

-- What follows a line begins with an octet that is no blank.
next_octet :
    (ts : List FieldText) (slack : Bytes)
    → All IsField ts
    → (e : ℕ) × (rest : Bytes) × (flat (map line ts) ++ (crlf ++ slack) ≡ e ∷ rest) × (ws e ≡ false)
next_octet [] slack i = (b'\r', b'\n' ∷ slack, refl, refl)
next_octet (t ∷ ts) slack i = (t.first, _, refl, tchar-not_ws t.first i.0.name_is.0)

-- The final CRLF ends the loop, and buffer and table describe the lines.
parse_field-end :
    (g : Grammar) (lim : Limits) (n : ℕ) (h : Header) (start : Bytes) (ls : List Line)
    (slack : Bytes)
    → Holds h start ls (crlf ++ slack)
    → h.size + 2 ≤ clip lim.max_field n
    → h.size + 2 < 2 ^ 32
    → (h' : Header) × (parse_field g lim n h ≡ (h', failure end_of_range))
      × Represents h' start ls
      × (start_of h' ≡ start_of h)
unfolding parse_field take_field field_rule
parse_field-end g lim n h start ls slack r big small =
    let m = clip lim.max_field n in
    let more = m - (h.size + 2) in
    let x = take more slack in
    let inp : input h m ≡ b'\r' ∷ b'\n' ∷ x =
      input-Holds h start ls [] b'\r' (b'\n' ∷ slack) m (suc more) r (omega arith) in
    let l = ap length inp in
    let size : (h.size + (length (input h m) - length x)) % 2 ^ 32 ≡ h.size + 2 =
      omega (arith, l) in
    (
      record h { size = (h.size + (length (input h m) - length x)) % 2 ^ 32 },
      in_order h m _ (omega arith)
          ∙ ap (λ z. take_field g lim m (input h m) h (field_rule g z)) inp,
      record {
        slack = slack;
        buffer = r.buffer;
        prefix_is = r.prefix_is;
        size_is = omega (arith, size, r.size_is);
        count_is = r.count_is;
        table_is = r.table_is;
        fits = omega (arith, size);
      },
      refl,
    )

length-flat : (ls rs : List Line) → length (flat (ls ++ rs)) ≡ length (flat ls) + length (flat rs)
length-flat ls rs = ap length (flat-append ls rs) ∙ length-append (flat ls) (flat rs)

-- From where these lines are still to be read, the loop reads them all.
pub parse_fields-Represents :
    (fuel : ℕ) (g : Grammar) (lim : Limits) (n : ℕ) (h : Header) (start : Bytes) (ls : List Line)
    (ts : List FieldText) (slack : Bytes)
    → IsGrammar g
    → All IsField ts
    → Holds h start ls (flat (map line ts) ++ (crlf ++ slack))
    → h.size + length (flat (map line ts)) + 2 ≤ clip lim.max_field n
    → h.size + length (flat (map line ts)) + 2 < 2 ^ 32
    → h.count + length ts ≤ lim.max_fields
    → length ts < fuel
    → (h' : Header) × (parse_fields fuel g lim n h ≡ (h', success))
      × Represents h' start (ls ++ map line ts)
      × (start_of h' ≡ start_of h)
unfolding parse_fields after_field
parse_fields-Represents zero g lim n h start ls ts slack k i r big small room enough =
    absurd (omega arith)
parse_fields-Represents (suc fuel) g lim n h start ls [] slack k i r big small room enough =
    let (h', e, q, o) = parse_field-end g lim n h start ls slack r (omega arith) (omega arith) in
    (
      h',
      ap (after_field lim n (parse_fields fuel g lim n)) e,
      subst (Represents h' start) (sym (append-nil ls)) q,
      o,
    )
parse_fields-Represents (suc fuel) g lim n h start ls (t ∷ ts) slack k i r big small room enough =
    let (e, rest, eq, w) = next_octet ts slack i.1 in
    let len = length-append (text_of t crlf) (flat (map line ts)) in
    let lt = length-text_of t crlf in
    let ne : length (flat (map line ts) ++ (crlf ++ slack)) ≡ suc (length rest) = ap length eq in
    let r' =
      subst (Holds h start ls)
        (append_assoc (text_of t crlf) (flat (map line ts)) (crlf ++ slack)
          ∙ ap (λ z. text_of t crlf ++ z) eq)
        r in
    let (h1, p, q, o) =
      parse_field-Holds g lim n h start ls t e rest k i.0 w r' (omega (arith, len))
        (omega (arith, len)) (omega arith) in
    let q' = subst (Holds h1 start (ls ++ (line t ∷ []))) (sym eq) q in
    let s1 = q'.size_is in
    let s0 = r.size_is in
    let c1 = q'.count_is in
    let c0 = r.count_is in
    let lf = length-flat ls (line t ∷ []) in
    let ln = length-append ls (line t ∷ []) in
    let nn : length (flat (line t ∷ [])) ≡ length (text_of t crlf) =
      ap length (append-nil (text_of t crlf)) in
    let (h', p', v, o') =
      parse_fields-Represents fuel g lim n h1 start (ls ++ (line t ∷ [])) ts slack k i.1 q'
        (omega (arith, len)) (omega (arith, len)) (omega arith) (omega arith) in
    (
      h',
      ap (after_field lim n (parse_fields fuel g lim n)) p ∙ p',
      subst (Represents h' start) (append_assoc ls (line t ∷ []) (map line ts)) v,
      o' ∙ o,
    )
