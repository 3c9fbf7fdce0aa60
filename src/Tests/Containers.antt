-- ===== src/Tests/Containers.antt =====
-- The container of fields: one field inserted, and erased.
use http_proto.Base.{
  ℕ, zero, suc, ◌+◌, ◌≡◌, ◌≤◌, refl, false, true, [], ◌∷◌, ◌++◌, arith, Bytes, codes, length,
  replicate,
}
use mathlib.Core.Option.{some}
use http_proto.Field
use http_proto.Field.{Field}
use http_proto.Types.{Header}
use http_proto.Header.{align_up, bytes_needed}
use http_proto.Fields.{raw_erase}
use http_proto.Fields.Insert.{growth, insert_impl_unchecked}
use http_proto.Fields.Represents.{Line, Represents}
use http_proto.Fields.EraseAll.{erase_rows, without, erase_rows-Represents}
use http_proto.Fields.Erased.{raw_erase-Represents}
use http_proto.Fields.Inserted.{new_line, insert_impl_unchecked-Represents}
use http_proto.Grammar.{ok}
use http_proto.Rfc.Chars.{token_rule, tchars}
use http_proto.Rules.ObsFold.{stored}
use http_proto.Rules.Name.{field_name_rule, verify_field_name}
use http_proto.Rules.Value.{
  FieldValue, field_vchar, view, field_value_rule, verified, verify_field_value,
}
use http_proto.Rules.Unbroken.{IsUnbroken, verify_field_value-IsUnbroken}
use http_proto.Fields.Checked.{insert_impl, insert_impl-Represents}
use http_proto.Tests.Samples.{sample_grammar, start_line, empty_request}

empty_request-Represents : Represents empty_request start_line []
empty_request-Represents = record {
  slack = [];
  buffer = refl;
  prefix_is = refl;
  size_is = refl;
  count_is = refl;
  table_is = refl;
  fits = omega arith;
}

-- `new char[n]`
abbrev pub zeros : ℕ → Bytes
zeros n = replicate n 0

pub length-zeros : (n : ℕ) → length (zeros n) ≡ n
length-zeros zero = refl
length-zeros (suc n) = omega (arith, length-zeros n)

enough : growth 0 (bytes_needed (18 + 11) 1) ≤ 65536
unfolding growth bytes_needed align_up
enough = omega arith

insert_impl_unchecked-Represents_example :
    (h' : Header) × (insert_impl_unchecked zeros sample_grammar Field.expect
        (codes "Expect")
        (codes "x")
        0
        false
        empty_request
      ≡ some h')
    × Represents h' start_line (new_line Field.expect (codes "Expect") (codes "x") false ∷ [])
    × (h'.cap ≤ length h'.cbuf)
insert_impl_unchecked-Represents_example =
    insert_impl_unchecked-Represents zeros length-zeros sample_grammar [] [] Field.expect
      (codes "Expect") (codes "x") false tt empty_request-Represents (omega arith) (omega arith)
      enough

abbrev pub a_line : Line
a_line = record {
  octets = codes "A: b\r\n";
  name_length = 1;
  value_at = 3;
  value_length = 1;
  id = Field.unknown;
}

abbrev pub expect_line : Line
expect_line = record {
  octets = codes "Expect: x\r\n";
  name_length = 6;
  value_at = 8;
  value_length = 1;
  id = Field.expect;
}

abbrev pub two_fields : Header
two_fields = record empty_request {
  cbuf = start_line ++ codes "A: b\r\nExpect: x\r\n\r\nslack";
  size = 35;
  count = 2;
  tab =
      record { np = 0; nn = 1; vp = 3; vn = 1; id = Field.unknown }
      ∷ record { np = 6; nn = 6; vp = 14; vn = 1; id = Field.expect }
      ∷ [];
}

pub two_fields-Represents : Represents two_fields start_line (a_line ∷ expect_line ∷ [])
two_fields-Represents = record {
  slack = codes "slack";
  buffer = refl;
  prefix_is = refl;
  size_is = refl;
  count_is = refl;
  table_is = refl;
  fits = omega arith;
}

raw_erase-Represents_example : Represents (raw_erase 0 two_fields) start_line (expect_line ∷ [])
raw_erase-Represents_example =
    raw_erase-Represents [] a_line (expect_line ∷ [])
      ((omega arith, omega arith), ((omega arith, omega arith), tt)) two_fields-Represents

-- A value with an obs-fold.
abbrev pub folded_value : FieldValue
folded_value = record {
  value = codes "x\r\n y";
  from = codes "x\r\n y ";
  has_crlf = false;
  has_obs_fold = true;
}

pub folded-verified : verify_field_value (codes " x\r\n y ") ≡ ok folded_value
unfolding verify_field_value verified field_value_rule view field_vchar
folded-verified = refl

name-verified : verify_field_name sample_grammar (codes "A") ≡ ok (codes "A")
unfolding verify_field_name field_name_rule sample_grammar token_rule tchars
name-verified = refl

verify_field_value-IsUnbroken_example : IsUnbroken (stored true (codes "x\r\n y"))
verify_field_value-IsUnbroken_example =
    verify_field_value-IsUnbroken (codes " x\r\n y ") folded_value folded-verified

enough_for_folded : growth 0 (bytes_needed (18 + 10) 1) ≤ 65536
unfolding growth bytes_needed align_up
enough_for_folded = omega arith

insert_impl-Represents_example :
    (h' : Header) × (insert_impl zeros sample_grammar Field.unknown
        (codes "A")
        0
        empty_request
        (codes " x\r\n y ")
      ≡ some (ok h'))
    × Represents h' start_line (new_line Field.unknown (codes "A") (codes "x\r\n y") true ∷ [])
    × IsUnbroken (stored true (codes "x\r\n y"))
insert_impl-Represents_example =
    insert_impl-Represents zeros length-zeros sample_grammar [] [] Field.unknown (codes "A")
      (codes " x\r\n y ") folded_value name-verified folded-verified tt empty_request-Represents
      (omega arith) (omega arith) enough_for_folded

erase_rows-Represents_example :
    Represents
      (erase_rows 0 Field.expect two_fields).0
      start_line
      (without Field.expect (expect_line ∷ []))
erase_rows-Represents_example =
    erase_rows-Represents Field.expect two_fields start_line [] a_line (expect_line ∷ [])
      ((omega arith, omega arith), tt) ((omega arith, omega arith), tt) two_fields-Represents
