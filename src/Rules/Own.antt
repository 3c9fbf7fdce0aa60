-- ===== src/Rules/Own.antt =====
-- No rule of src/rfc/detail/rules.cpp gives an error that only the model has, if the delimiters and
-- tuples of the grammar library do not.
use mathlib.Core.Option.{Option}
use http_proto.Base.{ℕ, ◌≢◌, Bool, true, not, ◌||◌, [], ◌∷◌, ◌==◌, Bytes, length, arith, if_cases}
use http_proto.Types.{Error, out_of_fuel, reversed_range}
use http_proto.Grammar.{Result, ok, err, Rule, Grammar}
use http_proto.Rfc.Chars.{ws, token_rule}
use http_proto.Rules.Name.{field_name_rule, named, is_err}
use http_proto.Rules.Value.{FieldValue, field_vchar, first_of, octet, value_loop, field_value_rule}
use http_proto.Rules.StartLine.{crlf_rule}
use http_proto.Rules.Line.{NameAndValue, line_rule, line_of, field_rule}

-- An error of the program, and none of the model's own.
abbrev pub IsProgram : Error → Type 0
IsProgram e = (e ≢ out_of_fuel) × (e ≢ reversed_range)

-- The result is no error of the model's own.
pub data IsOwn {A : Type 0} : Result A × Bytes → Type 0 where
  value : {a : A} {it : Bytes} → IsOwn (ok a, it)
  error : {e : Error} {it : Bytes} → IsProgram e → IsOwn (err e, it)

abbrev pub AllOwn : {A : Type 0} → Rule A → Type 0
AllOwn r = (it : Bytes) → IsOwn (r it)

-- What is assumed of the grammar library.
pub record OwnGrammar (g : Grammar) : Type 1 where
  pub delim_own : (c : ℕ) → AllOwn (g.delim c)
  pub tuple_own :
      (A B : Type 0) (r : Rule A) (s : Rule B) → AllOwn r → AllOwn s → AllOwn (g.tuple A B r s)

crlf_rule-IsOwn : AllOwn crlf_rule
unfolding crlf_rule
crlf_rule-IsOwn [] = error (ground arith)
crlf_rule-IsOwn (c ∷ []) =
    if_cases IsOwn (c == b'\r') _ _ (λ _. error (ground arith)) (λ _. error (ground arith))
crlf_rule-IsOwn (c ∷ d ∷ it) =
    if_cases IsOwn (c == b'\r') _ _
      (λ _. if_cases IsOwn (d == b'\n') _ _ (λ _. value) (λ _. error (ground arith)))
      (λ _. error (ground arith))

named-IsOwn : (begin : Bytes) (r : Result Bytes × Bytes) → IsOwn (named begin r)
unfolding named
named-IsOwn begin (r, it) =
    if_cases IsOwn (is_err r || not (length it == 0)) _ _
      (λ _.
        if_cases IsOwn (not (length it == length begin)) _ _ (λ _. value)
          (λ _. error (ground arith)))
      (λ _. value)

field_name_rule-IsOwn : (g : Grammar) → AllOwn (field_name_rule g)
unfolding field_name_rule
field_name_rule-IsOwn g [] = error (ground arith)
field_name_rule-IsOwn g (c ∷ it) = named-IsOwn (c ∷ it) (token_rule g (c ∷ it))

octet-IsOwn :
    (next : Option Bytes → Bytes → Result FieldValue × Bytes) (c : ℕ) (it : Bytes)
    (s0 : Option Bytes) (s1 : Bytes) (f : Bool)
    → ((a : Option Bytes) (b : Bytes) → IsOwn (next a b))
    → IsOwn (octet next c it s0 s1 f)
octet-IsOwn next c it s0 s1 f h =
    if_cases IsOwn (ws c) _ _ (λ _. h s0 s1)
      (λ _. if_cases IsOwn (field_vchar c) _ _ (λ _. h (first_of s0 (c ∷ it)) it) (λ _. value))

value_loop-IsOwn :
    (it : Bytes) (s0 : Option Bytes) (s1 : Bytes) (f : Bool) → IsOwn (value_loop it s0 s1 f)
unfolding value_loop
value_loop-IsOwn [] s0 s1 f = value
value_loop-IsOwn (c ∷ []) s0 s1 f =
    if_cases IsOwn (c == b'\r') _ _ (λ _. error (ground arith))
      (λ _. octet-IsOwn _ c [] s0 s1 f (λ a b. value_loop-IsOwn [] a b f))
value_loop-IsOwn (c ∷ d ∷ []) s0 s1 f =
    if_cases IsOwn (c == b'\r') _ _
      (λ _. if_cases IsOwn (d == b'\n') _ _ (λ _. error (ground arith)) (λ _. value))
      (λ _. octet-IsOwn _ c (d ∷ []) s0 s1 f (λ a b. value_loop-IsOwn (d ∷ []) a b f))
value_loop-IsOwn (c ∷ d ∷ e ∷ it) s0 s1 f =
    if_cases IsOwn (c == b'\r') _ _
      (λ _.
        if_cases IsOwn (d == b'\n') _ _
          (λ _. if_cases IsOwn (ws e) _ _ (λ _. value_loop-IsOwn it s0 s1 true) (λ _. value))
          (λ _. value))
      (λ _. octet-IsOwn _ c (d ∷ e ∷ it) s0 s1 f (λ a b. value_loop-IsOwn (d ∷ e ∷ it) a b f))

field_value_rule-IsOwn : AllOwn field_value_rule
unfolding field_value_rule
field_value_rule-IsOwn [] = value
field_value_rule-IsOwn (c ∷ it) = value_loop-IsOwn (c ∷ it) Option.none [] Bool.false

line_rule-IsOwn : (g : Grammar) → OwnGrammar g → AllOwn (line_rule g)
unfolding line_rule
line_rule-IsOwn g o = o.tuple_own _ _ _ _ (field_name_rule-IsOwn g) (
    o.tuple_own _ _ _ _ (o.delim_own b':')
      (o.tuple_own _ _ _ _ field_value_rule-IsOwn crlf_rule-IsOwn))

line_of-IsOwn : (r : Result NameAndValue × Bytes) → IsOwn r → IsOwn (line_of r)
unfolding line_of
line_of-IsOwn (ok (name, (_, (v, _))), it) i = value
line_of-IsOwn (err e, it) (error h) = error h

pub field_rule-IsOwn : (g : Grammar) → OwnGrammar g → AllOwn (field_rule g)
unfolding field_rule
field_rule-IsOwn g o [] = error (ground arith)
field_rule-IsOwn g o (c ∷ []) =
    if_cases IsOwn (c == b'\r') _ _ (λ _. error (ground arith))
      (λ _. line_of-IsOwn _ (line_rule-IsOwn g o (c ∷ [])))
field_rule-IsOwn g o (c ∷ d ∷ it) =
    if_cases IsOwn (c == b'\r') _ _
      (λ _. if_cases IsOwn (d == b'\n') _ _ (λ _. error (ground arith)) (λ _. error (ground arith)))
      (λ _. line_of-IsOwn _ (line_rule-IsOwn g o (c ∷ d ∷ it)))
