-- ===== src/Types.antt =====
-- The plain data of include/boost/http_proto: enumerations (error.hpp, version.hpp,
-- metadata.hpp, detail/header.hpp), the metadata record, the field table and the header.
use http_proto.Base.{ℕ, ◌-◌, ◌^◌, Bool, true, false, List, Bytes}
use http_proto.Field.{Field}
use http_proto.Names.Methods.{Method}

-- `error` of error.hpp, the values that the modelled code returns, with the `grammar::error`
-- values of Boost.URL that it returns or compares with.
pub data Error : Type 0 where
  need_more mismatch syntax end_of_range leftover invalid out_of_range : Error
  bad_connection bad_content_length bad_expect bad_field_name bad_field_value : Error
  bad_field_smuggle bad_transfer_encoding bad_upgrade bad_version : Error
  headers_limit start_line_limit field_size_limit fields_limit multiple_content_length : Error
  need_data expect_100_continue end_of_stream incomplete in_place_overflow : Error
  buffer_overflow body_too_large bad_payload : Error
  -- no values of the program: a loop on fuel was given too little, and a range [first, last) has its
  -- last before its first, which the program reads beyond
  out_of_fuel reversed_range : Error

-- `system::error_code`, default constructed or with a value.
pub data ErrorCode : Type 0 where
  success : ErrorCode
  failure : Error → ErrorCode

-- `error_code::failed()`.
abbrev pub failed : ErrorCode → Bool
failed success = false
failed (failure e) = true

pub data Kind : Type 0 where
  fields request response : Kind

pub data Version : Type 0 where
  http_1_0 http_1_1 : Version

abbrev pub is_http_1_1 : Version → Bool
is_http_1_1 http_1_0 = false
is_http_1_1 http_1_1 = true

pub data Payload : Type 0 where
  none error size chunked to_eof : Payload

-- The effective encoding of the body octets.
pub data Encoding : Type 0 where
  identity deflate gzip : Encoding

pub record Connection : Type 0 where
  pub ec : ErrorCode
  pub count : ℕ
  pub close : Bool
  pub keep_alive : Bool
  pub upgrade : Bool

pub record ContentLength : Type 0 where
  pub ec : ErrorCode
  pub count : ℕ
  pub value : ℕ

pub record Expect : Type 0 where
  pub ec : ErrorCode
  pub count : ℕ
  pub is_100_continue : Bool

pub record TransferEncoding : Type 0 where
  pub ec : ErrorCode
  pub count : ℕ
  pub codings : ℕ
  pub is_chunked : Bool
  pub encoding : Encoding

pub record Upgrade : Type 0 where
  pub ec : ErrorCode
  pub count : ℕ
  pub websocket : Bool

pub record Metadata : Type 0 where
  pub payload_override : Bool
  pub payload : Payload
  pub payload_size : ℕ
  pub connection : Connection
  pub content_length : ContentLength
  pub expect : Expect
  pub transfer_encoding : TransferEncoding
  pub upgrade : Upgrade

-- The default member initialisers, `md.connection = {}` and so on.
abbrev pub no_connection : Connection
no_connection = record {
  ec = success;
  count = 0;
  close = false;
  keep_alive = false;
  upgrade = false;
}

abbrev pub no_content_length : ContentLength
no_content_length = record { ec = success; count = 0; value = 0 }

abbrev pub no_expect : Expect
no_expect = record { ec = success; count = 0; is_100_continue = false }

abbrev pub no_transfer_encoding : TransferEncoding
no_transfer_encoding = record {
  ec = success;
  count = 0;
  codings = 0;
  is_chunked = false;
  encoding = identity;
}

abbrev pub no_upgrade : Upgrade
no_upgrade = record { ec = success; count = 0; websocket = false }

abbrev pub no_metadata : Metadata
no_metadata = record {
  payload_override = false;
  payload = Payload.none;
  payload_size = 0;
  connection = no_connection;
  content_length = no_content_length;
  expect = no_expect;
  transfer_encoding = no_transfer_encoding;
  upgrade = no_upgrade;
}

-- One row of the field table. Positions are from the end of the start line.
pub record Entry : Type 0 where
  pub np : ℕ
  pub nn : ℕ
  pub vp : ℕ
  pub vn : ℕ
  pub id : Field

-- `detail::header`. `cbuf` is the character area of the buffer, `tab` the table that the program
-- keeps in reverse at the end of the same buffer, `owned` says `buf != nullptr`. The union of
-- start-line members is flattened: the request members and the response members stand side by side.
pub record Header : Type 0 where
  pub kind : Kind
  pub cbuf : Bytes
  pub owned : Bool
  pub cap : ℕ
  pub max_cap : ℕ
  pub size : ℕ
  pub count : ℕ
  pub prefix : ℕ
  pub version : Version
  pub md : Metadata
  pub method : Method
  pub method_len : ℕ
  pub target_len : ℕ
  pub status_int : ℕ
  -- a value of `enum class status`
  pub status : ℕ
  pub tab : List Entry

-- sizeof and alignof of `header::entry`: four `uint32_t` and an `unsigned short`.
abbrev pub entry_size : ℕ
entry_size = 20

abbrev pub entry_align : ℕ
entry_align = 4

-- `offset_type` is `uint32_t`.
abbrev pub max_offset : ℕ
max_offset = 2 ^ 32 - 1
