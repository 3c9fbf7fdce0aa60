-- ===== src/Rules/Reads.antt =====
-- `field_rule` of src/rfc/detail/rules.cpp reads a field line that has no obs-fold.
use mathlib.Core.Option.{Option, none, some}
use mathlib.Core.Path.{subst}
use http_proto.Base.{
  ℕ, suc, ◌-◌, ◌≡◌, refl, ap, ◌∙◌, Bool, true, false, [], ◌∷◌, ◌++◌, ◌==◌, Bytes, length,
  length-append, All, arith, Bool-cases, inl, inr, ==_iff,
}
use http_proto.Base.Splice.{take-append}
use http_proto.Grammar.{ok, Grammar, IsGrammar}
use http_proto.Rfc.Chars.{ws, tchars, token_rule}
use http_proto.Rules.Name.{field_name_rule, named, is_err}
use http_proto.Rules.Value.{
  FieldValue, field_vchar, view, first_of, begin_of, value_loop, field_value_rule,
}
use http_proto.Rules.StartLine.{crlf_rule}
use http_proto.Rules.Line.{FieldLine, line_rule, line_of, field_rule}

-- Octets of a value up to its last one, which is no blank.
pub data Inner : Bytes → Type 0 where
  last : {c : ℕ} → field_vchar c ≡ true → Inner (c ∷ [])
  blank : {c : ℕ} {v : Bytes} → ws c ≡ true → Inner v → Inner (c ∷ v)
  char : {c : ℕ} {v : Bytes} → field_vchar c ≡ true → Inner v → Inner (c ∷ v)

-- A value: nothing, or octets that neither begin nor end with a blank.
pub data Content : Bytes → Type 0 where
  empty : Content []
  single : {c : ℕ} → field_vchar c ≡ true → Content (c ∷ [])
  long : {c : ℕ} {v : Bytes} → field_vchar c ≡ true → Inner v → Content (c ∷ v)

-- The parts of a line, with the blanks around the value.
pub record FieldText : Type 0 where
  pub first : ℕ
  pub rest : Bytes
  pub before : Bytes
  pub value : Bytes
  pub after : Bytes

pub record IsField (f : FieldText) : Type 0 where
  pub name_is : All (λ c. tchars c ≡ true) (f.first ∷ f.rest)
  pub before_is : All (λ c. ws c ≡ true) f.before
  pub value_is : Content f.value
  pub after_is : All (λ c. ws c ≡ true) f.after

value_loop-ws :
    (c : ℕ) (r : Bytes) (s0 : Option Bytes) (s1 : Bytes) (f : Bool)
    → ws c ≡ true
    → value_loop (c ∷ r) s0 s1 f ≡ value_loop r s0 s1 f
unfolding value_loop
value_loop-ws c [] s0 s1 f w = ground arith
value_loop-ws c (d ∷ []) s0 s1 f w = ground arith
value_loop-ws c (d ∷ e ∷ r) s0 s1 f w = ground arith

value_loop-vchar :
    (c : ℕ) (r : Bytes) (s0 : Option Bytes) (s1 : Bytes) (f : Bool)
    → field_vchar c ≡ true
    → value_loop (c ∷ r) s0 s1 f ≡ value_loop r (first_of s0 (c ∷ r)) r f
unfolding value_loop field_vchar
value_loop-vchar c [] s0 s1 f w = ground arith
value_loop-vchar c (d ∷ []) s0 s1 f w = ground arith
value_loop-vchar c (d ∷ e ∷ r) s0 s1 f w = ground arith

value_loop-blanks :
    (b r : Bytes) (s0 : Option Bytes) (s1 : Bytes) (f : Bool)
    → All (λ c. ws c ≡ true) b
    → value_loop (b ++ r) s0 s1 f ≡ value_loop r s0 s1 f
value_loop-blanks [] r s0 s1 f w = refl
value_loop-blanks (c ∷ b) r s0 s1 f (w, ws') =
    value_loop-ws c (b ++ r) s0 s1 f w ∙ value_loop-blanks b r s0 s1 f ws'

value_loop-Inner :
    {v : Bytes} (r z : Bytes) (s1 : Bytes) (f : Bool)
    → Inner v
    → value_loop (v ++ r) (some z) s1 f ≡ value_loop r (some z) r f
value_loop-Inner r z s1 f (last {c} h) = value_loop-vchar c r (some z) s1 f h
value_loop-Inner r z s1 f (blank {c} {v} h i) =
    value_loop-ws c (v ++ r) (some z) s1 f h ∙ value_loop-Inner r z s1 f i
value_loop-Inner r z s1 f (char {c} {v} h i) =
    value_loop-vchar c (v ++ r) (some z) s1 f h ∙ value_loop-Inner r z (v ++ r) f i

-- How many blanks after an empty value count to the line before the value.
abbrev pub skipped : Bytes → Bytes → ℕ
skipped [] after = length after
skipped (c ∷ v) after = 0

-- Where `value.data()` points.
abbrev pub from_of : Bytes → Bytes → Bytes → Bytes
from_of [] after tail = tail
from_of (c ∷ v) after tail = (c ∷ v) ++ (after ++ tail)

abbrev pub ends_line : ℕ → Bytes → Bytes
ends_line e rest = b'\r' ∷ b'\n' ∷ e ∷ rest

abbrev pub read_value : FieldText → ℕ → Bytes → FieldValue
read_value t e rest = record {
  value = t.value;
  from = from_of t.value t.after (ends_line e rest);
  has_crlf = true;
  has_obs_fold = false;
}

abbrev pub value_text : FieldText → Bytes → Bytes
value_text t tail = t.before ++ (t.value ++ (t.after ++ tail))

value_loop-end :
    (e : ℕ) (rest : Bytes) (s0 : Option Bytes) (s1 : Bytes)
    → ws e ≡ false
    → value_loop (ends_line e rest) s0 s1 false ≡ (
      ok (record {
        value = view s0 s1;
        from = begin_of s0 (ends_line e rest);
        has_crlf = true;
        has_obs_fold = false;
      }),
      ends_line e rest,
    )
unfolding value_loop
value_loop-end e rest s0 s1 w = ground arith

view_long : (v x : Bytes) → view (some (v ++ x)) x ≡ v
unfolding view
view_long v x = take-append v x (omega (arith, length-append v x))

field_value_rule-loop : (s : Bytes) → field_value_rule s ≡ value_loop s none [] false
unfolding field_value_rule value_loop view
field_value_rule-loop [] = refl
field_value_rule-loop (c ∷ s) = refl

value_loop-Content :
    {v : Bytes} (after : Bytes) (e : ℕ) (rest s1 : Bytes)
    → Content v
    → let tail = ends_line e rest in
      (s0 : Option Bytes) × (s2 : Bytes) × (value_loop (v ++ (after ++ tail)) none s1 false
        ≡ value_loop (after ++ tail) s0 s2 false)
      × (view s0 s2 ≡ v)
      × (begin_of s0 tail ≡ from_of v after tail)
unfolding view
value_loop-Content after e rest s1 empty = (none, s1, refl, refl, refl)
value_loop-Content after e rest s1 (single {c} h) =
    let x = after ++ ends_line e rest in
    (some (c ∷ x), x, value_loop-vchar c x none s1 false h, view_long (c ∷ []) x, refl)
value_loop-Content after e rest s1 (long {c} {v} h i) =
    let x = after ++ ends_line e rest in
    (
      some (c ∷ (v ++ x)),
      x,
      value_loop-vchar c (v ++ x) none s1 false h
          ∙ value_loop-Inner x (c ∷ (v ++ x)) (v ++ x) false i,
      view_long (c ∷ v) x,
      refl,
    )

field_value_rule_lem :
    (t : FieldText) (e : ℕ) (rest : Bytes)
    → IsField t
    → ws e ≡ false
    → field_value_rule (value_text t (ends_line e rest))
      ≡ (ok (read_value t e rest), ends_line e rest)
field_value_rule_lem t e rest i w =
    let tail = ends_line e rest in
    let (s0, s2, p, q, r) = value_loop-Content t.after e rest [] i.value_is in
    field_value_rule-loop (value_text t tail)
    ∙ value_loop-blanks t.before (t.value ++ (t.after ++ tail)) none [] false i.before_is
    ∙ p
    ∙ value_loop-blanks t.after tail s0 s2 false i.after_is
    ∙ value_loop-end e rest s0 s2 w
    ∙ (rw (q, r) refl)

colon : tchars b':' ≡ false
unfolding tchars
colon = refl

named_lem :
    (a : ℕ) (s : Bytes) (c : ℕ) (x : Bytes)
    → named ((a ∷ s) ++ (c ∷ x)) (ok (a ∷ s), c ∷ x) ≡ (ok (a ∷ s), c ∷ x)
unfolding named is_err
named_lem a s c x =
    let n = length-append (a ∷ s) (c ∷ x) in
    let n' = length-append s (c ∷ x) in
    let t =
      take-append (a ∷ s) (c ∷ x) {n = length ((a ∷ s) ++ (c ∷ x)) - length (c ∷ x)}
        (omega (arith, n)) in
    let e : (suc (length x) == 0) ≡ false = ground arith in
    let f : (suc (length x) == suc (length (s ++ (c ∷ x)))) ≡ false = ground (arith, n') in
    rw (e, f) (ap (λ z. (ok z, c ∷ x)) t)

-- A token before a colon is a name.
field_name_rule_lem :
    (g : Grammar) (c : ℕ) (t x : Bytes)
    → IsGrammar g
    → All (λ d. tchars d ≡ true) (c ∷ t)
    → field_name_rule g ((c ∷ t) ++ (b':' ∷ x)) ≡ (ok (c ∷ t), b':' ∷ x)
unfolding field_name_rule token_rule
field_name_rule_lem g c t x k h =
    ap (named ((c ∷ t) ++ (b':' ∷ x))) (k.token_stops tchars c t b':' x h colon)
    ∙ named_lem c t b':' x

crlf_rule_lem : (e : ℕ) (rest : Bytes) → crlf_rule (ends_line e rest) ≡ (ok tt, e ∷ rest)
unfolding crlf_rule
crlf_rule_lem e rest = refl

-- The octets of the line, before what follows it.
abbrev pub text_of : FieldText → Bytes → Bytes
text_of t tail = (t.first ∷ t.rest) ++ (b':' ∷ value_text t tail)

line_rule_lem :
    (g : Grammar) (t : FieldText) (e : ℕ) (rest : Bytes)
    → IsGrammar g
    → IsField t
    → ws e ≡ false
    → line_rule g (text_of t (ends_line e rest))
      ≡ (ok (t.first ∷ t.rest, (tt, (read_value t e rest, tt))), e ∷ rest)
unfolding line_rule
line_rule_lem g t e rest k i w =
    let x = value_text t (ends_line e rest) in
    k.tuple_both _ _ _ _ _ _ (b':' ∷ x) _ _ (field_name_rule_lem g t.first t.rest x k i.name_is) (
      k.tuple_both _ _ _ _ _ _ x _ _ (k.delim_same b':' x) (
        k.tuple_both _ _ _ _ _ _ (ends_line e rest) _ _ (field_value_rule_lem t e rest i w)
          (crlf_rule_lem e rest)))

tchar-not_cr : (c : ℕ) → tchars c ≡ true → (c == b'\r') ≡ false
unfolding tchars
tchar-not_cr c h = elim (Bool-cases (c == b'\r')) [
  | inl e ↦
      let same : tchars b'\r' ≡ true = subst (λ z. tchars z ≡ true) ((==_iff c b'\r').0 e) h in
      cc (same)
  | inr e ↦ e
]

abbrev pub read_line : FieldText → ℕ → Bytes → FieldLine
read_line t e rest = record {
  name = t.first ∷ t.rest;
  value = t.value;
  from = from_of t.value t.after (ends_line e rest);
  has_obs_fold = false;
}

field_rule-line_rule :
    (g : Grammar) (c d : ℕ) (it : Bytes)
    → tchars c ≡ true
    → field_rule g (c ∷ d ∷ it) ≡ line_of (line_rule g (c ∷ d ∷ it))
unfolding field_rule
field_rule-line_rule g c d it h = rw (tchar-not_cr c h) refl

field_rule-name :
    (g : Grammar) (c : ℕ) (r x : Bytes)
    → tchars c ≡ true
    → field_rule g ((c ∷ r) ++ (b':' ∷ x)) ≡ line_of (line_rule g ((c ∷ r) ++ (b':' ∷ x)))
field_rule-name g c [] x h = field_rule-line_rule g c b':' x h
field_rule-name g c (d ∷ r) x h = field_rule-line_rule g c d (r ++ (b':' ∷ x)) h

-- A field line, before an octet that is no blank, is read as its name and its value, and what
-- follows the line is left.
pub field_rule_lem :
    (g : Grammar) (t : FieldText) (e : ℕ) (rest : Bytes)
    → IsGrammar g
    → IsField t
    → ws e ≡ false
    → field_rule g (text_of t (ends_line e rest)) ≡ (ok (read_line t e rest), e ∷ rest)
unfolding line_of
field_rule_lem g t e rest k i w =
    field_rule-name g t.first t.rest (value_text t (ends_line e rest)) i.name_is.0
    ∙ ap line_of (line_rule_lem g t e rest k i w)
