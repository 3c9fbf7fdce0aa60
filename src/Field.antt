-- ===== src/Field.antt =====
-- include/boost/http_proto/field.hpp: the field names that the library treats specially. A module of
-- its own, so that the constants are written `Field.connection`.
use http_proto.Base.{ℕ}

-- `enum class field : unsigned short`, by its underlying values.
abbrev pub Field : Type 0
Field = ℕ

abbrev pub unknown : Field
unknown = 0

abbrev pub connection : Field
connection = 59

abbrev pub content_length : Field
content_length = 70

abbrev pub expect : Field
expect = 134

abbrev pub transfer_encoding : Field
transfer_encoding = 315

abbrev pub upgrade : Field
upgrade = 322
