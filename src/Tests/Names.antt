-- ===== src/Tests/Names.antt =====
-- Names of methods and fields.
use http_proto.Base.{◌≡◌, ◌↔◌, refl, codes, map, arith}
use http_proto.Names.Methods.{mkcol, to_string, string_to_method}
use http_proto.Names.Octets.{to_lower}
use http_proto.Names.Fields.{string_to_field}
use http_proto.Names.Fields
use http_proto.Names.Recognised.{string_to_method_iff}
use http_proto.Names.Found.{string_to_field_iff}

string_to_method_iff_example :
    (string_to_method (codes "MKCOL") ≡ mkcol) ↔ (codes "MKCOL" ≡ to_string mkcol)
string_to_method_iff_example = string_to_method_iff (codes "MKCOL") mkcol (λ e. ground arith)

string_to_field_iff_example :
    (string_to_field (codes "uPgrade") ≡ 322)
    ↔ (map to_lower (codes "uPgrade") ≡ map to_lower (Fields.to_string 322))
string_to_field_iff_example =
    string_to_field_iff (codes "uPgrade") 322
      (refl, (refl, (refl, (refl, (refl, (refl, (refl, tt))))))) (omega arith) (omega arith)
