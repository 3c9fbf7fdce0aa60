-- ===== src/Rules/Line.antt =====
-- `field_rule` of src/rfc/detail/rules.cpp.
use http_proto.Base.{Bool, [], ◌∷◌, ◌==◌, if◌then◌else◌, Bytes}
use http_proto.Types.{need_more, mismatch, end_of_range}
use http_proto.Grammar.{Result, ok, err, Rule, Grammar}
use http_proto.Rules.Name.{field_name_rule}
use http_proto.Rules.Value.{FieldValue, field_value_rule}
use http_proto.Rules.StartLine.{crlf_rule}

-- `field_rule_t::value_type`, with `value.data()` as the octets from it to the end of the input.
pub record FieldLine : Type 0 where
  pub name : Bytes
  pub value : Bytes
  pub from : Bytes
  pub has_obs_fold : Bool

abbrev pub NameAndValue : Type 0
NameAndValue = Bytes × (Unit {0} × (FieldValue × Unit {0}))

unfoldable pub line_rule : Grammar → Rule NameAndValue
unfolding field_name_rule field_value_rule crlf_rule
line_rule g =
    g.tuple Bytes _ (field_name_rule g) (
      g.tuple (Unit {0}) _ (g.delim b':')
        (g.tuple FieldValue (Unit {0}) field_value_rule crlf_rule))

unfoldable pub line_of : Result NameAndValue × Bytes → Result FieldLine × Bytes
line_of (ok (name, (_, (v, _))), it) =
    (ok (record { name = name; value = v.value; from = v.from; has_obs_fold = v.has_obs_fold }), it)
line_of (err e, it) = (err e, it)

unfoldable pub field_rule : Grammar → Rule FieldLine
unfolding line_rule line_of
field_rule g [] = (err need_more, [])
field_rule g (c ∷ []) = if c == b'\r' then (err need_more, []) else line_of (line_rule g (c ∷ []))
field_rule g (c ∷ d ∷ it) =
    if c == b'\r'
    then (if d == b'\n' then (err end_of_range, it) else (err mismatch, d ∷ it))
    else line_of (line_rule g (c ∷ d ∷ it))
