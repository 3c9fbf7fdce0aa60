-- ===== src/Tests/Metadata.antt =====
-- The metadata handlers on requests.
use http_proto.Base.{
  ◌⊎◌, ◌≡◌, refl, inr, Bool, true, false, List, [], ◌∷◌, ◌++◌, arith, Bytes, codes,
}
use http_proto.Field
use http_proto.Field.{Field}
use http_proto.Types.{success, failed, mismatch, Payload, Encoding, Header}
use http_proto.Grammar.{ok, err}
use http_proto.Rfc.TransferEncoding.{Coding, TransferCoding, transfer_encoding_rule}
use http_proto.Rfc.List.{list_rule, first_rule, next_rule, ows_comma}
use http_proto.Rfc.Chars.{token_rule, tchars}
use http_proto.Header.{subrange, subrange_from, find}
use http_proto.Header.Framing.{update_payload}
use http_proto.Header.Insert.{on_insert_transfer_encoding, bad_codings, codings_of}
use http_proto.Header.Framed.{
  IsRegular, said, body_length, update_payload-said, update_payload-rejects,
}
use http_proto.Header.Codings.{Accepted, Tail, ids, fresh}
use http_proto.Header.TransferEncodings.{
  Joined, Scans, on_insert_transfer_encoding_lem, stale_encoding,
}
use http_proto.Tests.Samples.{sample_grammar, start_line, empty_request, encoded_request}

-- A request with a Content-Length of 5.
abbrev sized_request : Header
sized_request = record empty_request {
  md = record empty_request.md { content_length = record { ec = success; count = 1; value = 5 } };
}

sized_request-IsRegular : IsRegular sized_request
sized_request-IsRegular = record {
  valid_codings = refl;
  one_framing = inr refl;
  valid_length = λ b. refl;
  invalid_length = λ b. refl;
  chunked_counts = λ b. ground arith;
  request_chunked = λ b c. ground arith;
}

update_payload-said_example :
    said (update_payload sized_request).md.payload (update_payload sized_request).md.payload_size
    ≡ body_length sized_request
update_payload-said_example =
    update_payload-said sized_request (λ e. ground arith) refl sized_request-IsRegular

-- A request with both framing fields.
abbrev doubled_request : Header
doubled_request = record sized_request {
  md = record sized_request.md {
    transfer_encoding = record sized_request.md.transfer_encoding { count = 1; is_chunked = true };
  };
}

update_payload-rejects_example :
    (said
        (update_payload doubled_request).md.payload
        (update_payload doubled_request).md.payload_size
      ≡ body_length doubled_request)
    ⊎ ((update_payload doubled_request).md.payload ≡ Payload.error)
update_payload-rejects_example =
    update_payload-rejects doubled_request (λ e. ground arith) refl (λ b. omega arith) (λ b c. refl)

-- ## Transfer-Encoding

abbrev coding : Coding → Bytes → TransferCoding
coding c s = record { id = c; str = s; params = [] }

abbrev gzip_list : List TransferCoding
gzip_list = coding Coding.gzip (codes "gzip") ∷ []

abbrev chunked_list : List TransferCoding
chunked_list = coding Coding.chunked (codes "chunked") ∷ []

gzip-parses : codings_of sample_grammar (codes "gzip") ≡ ok gzip_list
unfolding sample_grammar transfer_encoding_rule list_rule first_rule next_rule ows_comma token_rule
    tchars
gzip-parses = refl

chunked-parses : codings_of sample_grammar (codes "chunked") ≡ ok chunked_list
unfolding sample_grammar transfer_encoding_rule list_rule first_rule next_rule ows_comma token_rule
    tchars
chunked-parses = refl

empty_value-fails : codings_of sample_grammar (codes ",") ≡ err mismatch
unfolding sample_grammar transfer_encoding_rule list_rule first_rule next_rule ows_comma token_rule
    tchars
empty_value-fails = refl

gzip_chunked-Accepted : Accepted (Coding.gzip ∷ Coding.chunked ∷ []) true Encoding.gzip
gzip_chunked-Accepted = Accepted.gzipped Tail.final

encoded-Scans : Scans sample_grammar encoded_request (gzip_list ++ chunked_list)
unfolding find subrange_from
encoded-Scans = (refl, Joined.more gzip-parses (Joined.more chunked-parses Joined.none))

on_insert_transfer_encoding_lem_example :
    let ks = gzip_list ++ chunked_list in
    let t = (on_insert_transfer_encoding sample_grammar encoded_request).md.transfer_encoding in
    ((b : Bool) (e : Encoding)
      → Accepted (ids ks) b e
      → t ≡ record { ec = success; count = 1; codings = 2; is_chunked = b; encoding = e })
    × (failed t.ec ≡ false → (b : Bool) × (e : Encoding) × Accepted (ids ks) b e)
    × (failed t.ec ≡ true → t ≡ bad_codings (fresh 1 0))
on_insert_transfer_encoding_lem_example =
    on_insert_transfer_encoding_lem sample_grammar encoded_request (gzip_list ++ chunked_list)
      encoded-Scans

-- The same with a list of no codings in the second place.
abbrev stale_request : Header
stale_request = record encoded_request {
  cbuf = start_line ++ codes "Transfer-Encoding: gzip\r\nTransfer-Encoding: ,\r\n\r\n";
  size = 65;
  tab =
      record { np = 0; nn = 17; vp = 19; vn = 4; id = Field.transfer_encoding }
      ∷ record { np = 25; nn = 17; vp = 44; vn = 1; id = Field.transfer_encoding }
      ∷ [];
}

stale_request-values :
    subrange stale_request (find stale_request Field.transfer_encoding)
    ≡ codes "gzip" ∷ codes "," ∷ []
unfolding find subrange_from
stale_request-values = refl

gzip-Accepted : Accepted (ids gzip_list) false Encoding.gzip
gzip-Accepted = Accepted.gzipped Tail.plain

stale_encoding_example :
    let t = (on_insert_transfer_encoding sample_grammar stale_request).md.transfer_encoding in
    (failed t.ec ≡ true) × (t.encoding ≡ Encoding.gzip)
stale_encoding_example =
    stale_encoding sample_grammar stale_request (codes "gzip") (codes ",") gzip_list Encoding.gzip
      refl stale_request-values gzip-parses gzip-Accepted empty_value-fails
