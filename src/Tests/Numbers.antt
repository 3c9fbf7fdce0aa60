-- ===== src/Tests/Numbers.antt =====
-- Numbers in decimal.
use http_proto.Base.{◌≤◌, ◌<◌, ◌^◌, ◌≡◌, ◌↔◌, length, arith}
use http_proto.Message.NumberString.{
  buf_size, number_string, value, value-number_string, length-number_string,
}

value-number_string_example : value 0 (number_string 4096) ≡ 4096
value-number_string_example = value-number_string 4096 (omega arith)

length-number_string_example : (length (number_string (2 ^ 60)) ≤ buf_size) ↔ (2 ^ 60 < 10 ^ 18)
length-number_string_example = length-number_string (2 ^ 60) (omega arith)
