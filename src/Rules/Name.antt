-- ===== src/Rules/Name.antt =====
-- `field_name_rule` of src/rfc/detail/rules.cpp and `verify_field_name` of src/fields_base.cpp.
use http_proto.Base.{
  ◌-◌, Bool, true, false, not, ◌||◌, [], ◌∷◌, ◌==◌, if◌then◌else◌, Bytes, length, take,
}
use http_proto.Types.{need_more, leftover, bad_field_name}
use http_proto.Grammar.{Result, ok, err, Rule, Grammar}
use http_proto.Rfc.Chars.{token_rule}

unfoldable pub is_err : Result Bytes → Bool
is_err (ok s) = false
is_err (err e) = true

-- A token that stops before the end is a name too.
unfoldable pub named : Bytes → Result Bytes × Bytes → Result Bytes × Bytes
unfolding is_err
named begin (r, it) =
    if is_err r || not (length it == 0)
    then (if not (length it == length begin)
        then (ok (take (length begin - length it) begin), it)
        else (err bad_field_name, it))
    else (ok (take (length begin - length it) begin), it)

unfoldable pub field_name_rule : Grammar → Rule Bytes
unfolding named
field_name_rule g [] = (err need_more, [])
field_name_rule g (c ∷ it) = named (c ∷ it) (token_rule g (c ∷ it))

renamed : Result Bytes → Result Bytes
renamed (ok s) = ok s
renamed (err leftover) = err bad_field_name
renamed (err need_more) = err bad_field_name
renamed (err e) = err e

unfoldable pub verify_field_name : Grammar → Bytes → Result Bytes
unfolding renamed
verify_field_name g name = renamed (g.parse_all Bytes (field_name_rule g) name)
