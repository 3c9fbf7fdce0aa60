-- ===== src/Tests/Setters.antt =====
-- A field of a container is set.
use http_proto.Base.{◌+◌, ◌≡◌, ◌≤◌, ◌<◌, ◌^◌, true, refl, [], ◌∷◌, ◌++◌, arith, codes, take, Bytes}
use mathlib.Core.Option.{Option, none, some}
use http_proto.Field
use http_proto.Types.{Header}
use http_proto.Grammar.{Result, ok, err}
use http_proto.Header.{align_up, bytes_needed, is_special}
use http_proto.Rules.Value.{verify_field_value, verified, field_value_rule, field_vchar, view}
use http_proto.Fields.{offset}
use http_proto.Names.Fields.{to_string}
use http_proto.Names.Words.{names_a, names_b, names_c}
use http_proto.Fields.EraseAll.{without}
use http_proto.Fields.Insert.{line_length, grow, reserve, growth}
use http_proto.Fields.Represents.{Represents}
use http_proto.Fields.Inserted.{new_line}
use http_proto.Fields.Set.{set_id}
use http_proto.Fields.SetAt.{set_at}
use http_proto.Fields.Replacing.{set_id-Represents}
use http_proto.Tests.Samples.{sample_grammar, start_line}
use http_proto.Tests.Containers.{
  zeros, length-zeros, a_line, expect_line, two_fields, two_fields-Represents, folded_value,
  folded-verified,
}

name : to_string Field.expect ≡ codes "Expect"
unfolding to_string names_a names_b names_c
name = refl

small : 35 + line_length (to_string Field.expect) folded_value.value < 2 ^ 32
small = rw name (omega arith)

room : bytes_needed (35 + line_length (to_string Field.expect) folded_value.value) (2 + 1) ≤ 65536
unfolding bytes_needed align_up
room = rw name (omega arith)

set_id-Represents_example :
    (h : Header) × (set_id zeros sample_grammar Field.expect (codes " x\r\n y ") two_fields
      ≡ some (ok h))
    × Represents h start_line (
        without Field.expect (a_line ∷ expect_line ∷ [])
        ++ (new_line Field.expect (to_string Field.expect) folded_value.value true ∷ []))
set_id-Represents_example =
    set_id-Represents zeros length-zeros sample_grammar two_fields start_line
      (a_line ∷ expect_line ∷ []) Field.expect (codes " x\r\n y ") folded_value folded-verified
      ((omega arith, omega arith), ((omega arith, omega arith), tt)) two_fields-Represents
      (omega arith) (omega arith) small room

-- A field whose value is set gets longer in a buffer with room, and then in new memory.
abbrev with_room : Header
with_room = record two_fields { cap = 200 }

abbrev octets_after : Option (Result Header) → Bytes
octets_after (some (ok h)) = take h.size h.cbuf
octets_after (some (err e)) = []
octets_after none = []

-- In place, the first octets of the second field are lost.
set_at_in_place :
    octets_after (set_at zeros sample_grammar 0 (codes " hello ") with_room)
    ≡ start_line ++ codes "A: hello\r\nlopect: x\r\n\r\n"
unfolding set_at verify_field_value verified field_value_rule field_vchar view grow reserve growth
    bytes_needed is_special offset
set_at_in_place = refl

set_at_in_new_memory :
    octets_after (set_at zeros sample_grammar 0 (codes " hello ") two_fields)
    ≡ start_line ++ codes "A: hello\r\nExpect: x\r\n\r\n"
unfolding set_at verify_field_value verified field_value_rule field_vchar view grow reserve growth
    bytes_needed is_special offset
set_at_in_new_memory = refl
