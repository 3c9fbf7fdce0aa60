-- ===== src/Header/Read.antt =====
-- `parse_field` of src/detail/header.cpp adds the next field line to buffer and table.
use mathlib.Core.List.{append_assoc, append-nil}
use mathlib.Core.Path.{subst}
use http_proto.Base.{
  ℕ, suc, ◌+◌, ◌-◌, ◌≤◌, ◌<◌, ◌%◌, ◌^◌, ◌≡◌, refl, sym, ap, ◌∙◌, Bool, true, false, List, [], ◌∷◌,
  ◌++◌, Bytes, length, length-append, arith, take, leb, ltb, if◌then◌else◌,
}
use http_proto.Base.Splice.{slice, write_at, write_at-append, drop-append, take-append_add}
use http_proto.Names.Methods.{Method}
use http_proto.Types.{
  Kind, Version, Header, Entry, ErrorCode, success, failure, fields_limit, reversed_range,
}
use http_proto.Names.Fields.{string_to_field}
use http_proto.Grammar.{ok, Grammar, IsGrammar}
use http_proto.Rfc.Chars.{ws}
use http_proto.Rules.ObsFold.{remove_obs_fold}
use http_proto.Rules.Line.{FieldLine, field_rule}
use http_proto.Rules.Reads.{
  FieldText, IsField, text_of, skipped, from_of, ends_line, read_line, value_text, field_rule_lem,
}
use http_proto.Fields.Represents.{Line, flat, flat-append, table_of, crlf}
use http_proto.Header.Insert.{on_insert}
use http_proto.Header.Kept.{Keeps, on_insert-Keeps}
use http_proto.Header.Parse.{Limits, clip, input, new_row, add_field, take_field, parse_field}

-- The start line and these lines are read, and the octets `rest` are not.
pub record Holds (h : Header) (start : Bytes) (ls : List Line) (rest : Bytes) : Type 0 where
  pub buffer : h.cbuf ≡ start ++ (flat ls ++ rest)
  pub owned : h.owned ≡ true
  pub prefix_is : h.prefix ≡ length start
  pub size_is : h.size ≡ length start + length (flat ls)
  pub count_is : h.count ≡ length ls
  pub table_is : h.tab ≡ table_of 0 ls

-- The line that a text makes.
abbrev pub line : FieldText → Line
line t = record {
  octets = text_of t crlf;
  name_length = length (t.first ∷ t.rest);
  value_at = length (t.first ∷ t.rest) + 1 + length t.before + skipped t.value t.after;
  value_length = length t.value;
  id = string_to_field (t.first ∷ t.rest);
}

value_text-append : (t : FieldText) (x y : Bytes) → value_text t (x ++ y) ≡ value_text t x ++ y
value_text-append t x y = simp append_assoc refl

pub text_of-append : (t : FieldText) (x y : Bytes) → text_of t (x ++ y) ≡ text_of t x ++ y
text_of-append t x y = simp append_assoc refl

length-value_text :
    (t : FieldText) (x : Bytes)
    → length (value_text t x) ≡ length t.before + length t.value + length t.after + length x
length-value_text t x = omega (
  arith,
  length-append t.before (t.value ++ (t.after ++ x)),
  length-append t.value (t.after ++ x),
  length-append t.after x,
)

pub length-text_of :
    (t : FieldText) (x : Bytes)
    → length (text_of t x)
      ≡ length t.rest + length t.before + length t.value + length t.after + 2 + length x
length-text_of t x =
    omega (arith, length-value_text t x, length-append t.rest (b':' ∷ value_text t x))

length-from_of :
    (v a x : Bytes) → skipped v a + length (from_of v a x) ≡ length v + length a + length x
length-from_of [] a x = omega arith
length-from_of (c ∷ v) a x = omega (arith, length-append v (a ++ x), length-append a x)

pub table_of-append :
    (o : ℕ) (ls rs : List Line)
    → table_of o (ls ++ rs) ≡ table_of o ls ++ table_of (o + length (flat ls)) rs
table_of-append o [] rs = let e : o ≡ o + 0 = omega arith in ap (λ z. table_of z rs) e
table_of-append o (l ∷ ls) rs =
    let e : o + length l.octets + length (flat ls) ≡ o + length (l.octets ++ flat ls) =
      omega (arith, length-append l.octets (flat ls)) in
    rw (table_of-append (o + length l.octets) ls rs, e) refl

length-table_of : (o : ℕ) (ls : List Line) → length (table_of o ls) ≡ length ls
length-table_of o [] = refl
length-table_of o (l ∷ ls) = omega (arith, length-table_of (o + length l.octets) ls)

-- What is read when `n` octets are there.
pub input-Holds :
    (h : Header) (start : Bytes) (ls : List Line) (a : Bytes) (e : ℕ) (rest : Bytes) (n k : ℕ)
    → Holds h start ls (a ++ (e ∷ rest))
    → n ≡ h.size + (length a + suc k)
    → input h n ≡ a ++ (e ∷ take k rest)
input-Holds h start ls a e rest n k r eq =
    let b : h.cbuf ≡ (start ++ flat ls) ++ (a ++ (e ∷ rest)) =
      r.buffer ∙ sym (append_assoc start (flat ls) (a ++ (e ∷ rest))) in
    let d =
      drop-append (start ++ flat ls) (a ++ (e ∷ rest)) {n = h.size}
        (omega (arith, r.size_is, length-append start (flat ls))) in
    ap (λ z. slice h.size (n - h.size) z) b
    ∙ (rw d (take-append_add a (e ∷ rest) (suc k) {n = n - h.size} (omega arith)))

pub kept-Holds :
    (h k : Header) {start : Bytes} {ls : List Line} {rest : Bytes}
    → Keeps h k
    → Holds h start ls rest
    → Holds k start ls rest
kept-Holds h k e r = record {
  buffer = ap (λ z. z.cbuf) e ∙ r.buffer;
  owned = ap (λ z. z.owned) e ∙ r.owned;
  prefix_is = ap (λ z. z.prefix) e ∙ r.prefix_is;
  size_is = ap (λ z. z.size) e ∙ r.size_is;
  count_is = ap (λ z. z.count) e ∙ r.count_is;
  table_is = ap (λ z. z.tab) e ∙ r.table_is;
}

abbrev row_of : ℕ → FieldText → Entry
row_of o t = record {
  np = 0 + o;
  nn = length (t.first ∷ t.rest);
  vp = 0 + o + (line t).value_at;
  vn = length t.value;
  id = string_to_field (t.first ∷ t.rest);
}

new_row-Holds :
    (h : Header) (start : Bytes) (ls : List Line) (rest : Bytes) (t : FieldText) (v : FieldLine)
    → Holds h start ls rest
    → v.name ≡ t.first ∷ t.rest
    → v.value ≡ t.value
    → h.size + length (text_of t crlf) < 2 ^ 32
    → write_at h.tab h.count (new_row h v (line t).value_at ∷ []) ≡ table_of 0 (ls ++ (line t ∷ []))
new_row-Holds h start ls rest t v r en ev small =
    let len = length-text_of t crlf in
    let tl = length-table_of 0 ls in
    let e1 : (h.size - h.prefix) % 2 ^ 32 ≡ 0 + length (flat ls) =
      omega (arith, r.size_is, r.prefix_is, len) in
    let e2 : length (t.first ∷ t.rest) % 2 ^ 32 ≡ length (t.first ∷ t.rest) = omega (arith, len) in
    let e3 : (h.size + (line t).value_at - h.prefix) % 2 ^ 32
        ≡ 0 + length (flat ls) + (line t).value_at =
      omega (arith, r.size_is, r.prefix_is, len, length-from_of t.value t.after []) in
    let e4 : length t.value % 2 ^ 32 ≡ length t.value = omega (arith, len) in
    let w =
      write_at-append (table_of 0 ls) [] (new_row h v (line t).value_at ∷ []) {n = h.count}
        (omega (arith, r.count_is, tl)) in
    let row : new_row h v (line t).value_at ≡ row_of (length (flat ls)) t =
      rw (en, ev, e1, e2, e3, e4) refl in
    ap (λ z. write_at z h.count (new_row h v (line t).value_at ∷ []))
      (r.table_is ∙ sym (append-nil (table_of 0 ls)))
    ∙ w
    ∙ ap (λ z. table_of 0 ls ++ (z ∷ [])) row
    ∙ sym (table_of-append 0 ls (line t ∷ []))

-- The header before its metadata is brought up to date, when there is no obs-fold.
abbrev advanced : ℕ → ℕ → FieldLine → Header → Header
advanced n from v h = record h {
  size = (h.size + n) % 2 ^ 32;
  tab = write_at h.tab h.count (new_row h v from ∷ []);
  count = suc h.count;
}

add_field-Keeps :
    (g : Grammar) (n from : ℕ) (v : FieldLine) (h : Header)
    → v.has_obs_fold ≡ false
    → h.owned ≡ true
    → Keeps (advanced n from v h) (add_field g n from v h)
unfolding add_field
add_field-Keeps g n from v h ef eo =
    let cbuf = λ (b : Bool).
      if b then write_at h.cbuf h.size (remove_obs_fold (slice h.size n h.cbuf)) else h.cbuf in
    let added = λ (b o : Bool).
      on_insert g (string_to_field v.name) (slice (h.size + from) (length v.value) (cbuf b))
        (record h {
          cbuf = cbuf b;
          size = (h.size + n) % 2 ^ 32;
          tab = if o then write_at h.tab h.count (new_row h v from ∷ []) else h.tab;
          count = suc h.count;
        }) in
    let path : add_field g n from v h ≡ added false true =
      ap (λ b. added b h.owned) ef ∙ ap (λ o. added false o) eo in
    subst (Keeps (advanced n from v h)) (sym path) (
      on_insert-Keeps g (string_to_field v.name) (slice (h.size + from) (length v.value) h.cbuf)
        (advanced n from v h))

-- One line is added.
add_field-Holds :
    (g : Grammar) (h : Header) (start : Bytes) (ls : List Line) (rest : Bytes) (t : FieldText)
    (v : FieldLine)
    → Holds h start ls (text_of t crlf ++ rest)
    → v.name ≡ t.first ∷ t.rest
    → v.value ≡ t.value
    → v.has_obs_fold ≡ false
    → h.size + length (text_of t crlf) < 2 ^ 32
    → Holds
        (add_field g (length (text_of t crlf)) (line t).value_at v h)
        start
        (ls ++ (line t ∷ []))
        rest
unfolding add_field
add_field-Holds g h start ls rest t v r en ev ef small =
    let row = new_row-Holds h start ls (text_of t crlf ++ rest) t v r en ev small in
    let fl = flat-append ls (line t ∷ []) in
    let n1 = length-append (flat ls) (text_of t crlf ++ []) in
    let n2 : text_of t crlf ++ [] ≡ text_of t crlf = append-nil (text_of t crlf) in
    let n3 = length-append ls (line t ∷ []) in
    let base : Holds (advanced (length (text_of t crlf)) (line t).value_at v h) start
        (ls ++ (line t ∷ [])) rest =
      record {
        buffer =
            r.buffer
            ∙ ap (λ z. start ++ z)
                (ap (λ z. flat ls ++ (z ++ rest)) (sym n2)
                  ∙ (sym (append_assoc (flat ls) (text_of t crlf ++ []) rest)
                      ∙ ap (λ z. z ++ rest) (sym fl)));
        owned = r.owned;
        prefix_is = r.prefix_is;
        size_is = omega (arith, r.size_is, ap length fl, n1, ap length n2);
        count_is = omega (arith, r.count_is, n3);
        table_is = row;
      } in
    kept-Holds (advanced (length (text_of t crlf)) (line t).value_at v h)
      (add_field g (length (text_of t crlf)) (line t).value_at v h)
      (add_field-Keeps g (length (text_of t crlf)) (line t).value_at v h ef r.owned) base

clip_small : (limit n : ℕ) → n ≤ clip limit n → clip limit n ≡ n
clip_small limit n h = ground arith

take_field-room :
    (g : Grammar) (lim : Limits) (n : ℕ) (it : Bytes) (h : Header) (v : FieldLine) (rest : Bytes)
    → h.count < lim.max_fields
    → take_field g lim n it h (ok v, rest)
      ≡ (add_field g (length it - length rest) (length it - length v.from) v h, success)
unfolding take_field
take_field-room g lim n it h v rest room =
    let e : leb lim.max_fields h.count ≡ false = ground arith in
    ap
      (λ z.
        if z
        then (h, failure fields_limit)
        else (add_field g (length it - length rest) (length it - length v.from) v h, success))
      e

-- What the start line decides.
abbrev pub start_of : Header → Kind × (Version × (Method × (ℕ × (ℕ × (ℕ × ℕ)))))
start_of h =
    (h.kind, (h.version, (h.method, (h.method_len, (h.target_len, (h.status_int, h.status))))))

-- The range from the size on to `m` is not reversed.
pub in_order :
    (h : Header) (m : ℕ) (r : Header × ErrorCode)
    → h.size ≤ m
    → (if ltb m h.size then (h, failure reversed_range) else r) ≡ r
in_order h m r l = let z : ltb m h.size ≡ false = ground arith in rw z refl

-- A round of the loop reads the next line, when the octet after it is there and is no blank, and
-- the limits allow it.
pub parse_field-Holds :
    (g : Grammar) (lim : Limits) (n : ℕ) (h : Header) (start : Bytes) (ls : List Line)
    (t : FieldText) (e : ℕ) (rest : Bytes)
    → IsGrammar g
    → IsField t
    → ws e ≡ false
    → Holds h start ls (text_of t crlf ++ (e ∷ rest))
    → h.size + length (text_of t crlf) + 1 ≤ clip lim.max_field n
    → h.size + length (text_of t crlf) < 2 ^ 32
    → h.count < lim.max_fields
    → (h' : Header) × (parse_field g lim n h ≡ (h', success))
      × Holds h' start (ls ++ (line t ∷ [])) (e ∷ rest)
      × (start_of h' ≡ start_of h)
unfolding parse_field take_field
parse_field-Holds g lim n h start ls t e rest k i w r big small room =
    let m = clip lim.max_field n in
    let more = m - (h.size + length (text_of t crlf) + 1) in
    let x = take more rest in
    let inp : input h m ≡ text_of t (ends_line e x) =
      input-Holds h start ls (text_of t crlf) e rest m more r (omega arith)
      ∙ sym (text_of-append t crlf (e ∷ x)) in
    let read = ap (field_rule g) inp ∙ field_rule_lem g t e x k i w in
    let l = ap length inp in
    let l1 = length-text_of t (ends_line e x) in
    let l2 = length-text_of t crlf in
    let e1 : length (input h m) - length (e ∷ x) ≡ length (text_of t crlf) =
      omega (arith, l, l1, l2) in
    let e2 : length (input h m) - length (read_line t e x).from ≡ (line t).value_at =
      omega (arith, l, l1, length-from_of t.value t.after (ends_line e x)) in
    (
      add_field g (length (text_of t crlf)) (line t).value_at (read_line t e x) h,
      in_order h m _ (omega arith)
          ∙ ap (take_field g lim m (input h m) h) read
          ∙ take_field-room g lim m (input h m) h (read_line t e x) (e ∷ x) room
          ∙ ap
              (λ z. (
                add_field g z (length (input h m) - length (read_line t e x).from) (read_line t e x)
                    h,
                success,
              ))
              e1
          ∙ ap (λ z. (add_field g (length (text_of t crlf)) z (read_line t e x) h, success)) e2,
      add_field-Holds g h start ls (e ∷ rest) t (read_line t e x) r refl refl refl small,
      ap start_of (
          add_field-Keeps g (length (text_of t crlf)) (line t).value_at (read_line t e x) h refl
            r.owned),
    )
