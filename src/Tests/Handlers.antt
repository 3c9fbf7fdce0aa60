-- ===== src/Tests/Handlers.antt =====
-- Content-Length, Expect and Connection, and the handlers that erase.
use http_proto.Base.{ℕ, ◌≡◌, ◌≢◌, refl, true, false, not, [], ◌∷◌, ◌++◌, arith, codes}
use http_proto.Field
use http_proto.Field.{Field}
use http_proto.Types.{
  success, failed, Payload, Header, no_connection, no_content_length, no_upgrade, no_expect,
}
use http_proto.Header.{rows, values_with_id}
use http_proto.Header.Framing.{update_payload}
use http_proto.Header.Erase.{
  on_erase_connection, on_erase_content_length, on_erase_upgrade, on_erase_expect,
}
use http_proto.Header.Inserting.{IsCurrent}
use http_proto.Header.Current.{inserted, handle, handle-IsCurrent, request-ne-to_eof}
use http_proto.Header.Lengths.{
  add_lengths, AllParseTo, add_lengths_lem, add_expects, add_expects_lem,
}
use http_proto.Header.Reinserted.{Lacks, on_erase_expect_lem, on_erase_loses}
use http_proto.Tests.Samples.{sample_grammar, start_line, empty_request}

empty_request-IsCurrent : IsCurrent empty_request
unfolding update_payload
empty_request-IsCurrent = (refl, refl)

handle-IsCurrent_example :
    IsCurrent (handle sample_grammar (inserted Field.content_length (codes "5")) empty_request)
handle-IsCurrent_example =
    handle-IsCurrent sample_grammar (inserted Field.content_length (codes "5")) empty_request
      empty_request-IsCurrent

request-ne-to_eof_example : empty_request.md.payload ≢ Payload.to_eof
request-ne-to_eof_example = request-ne-to_eof empty_request refl refl empty_request-IsCurrent

add_lengths_lem_example :
    let c = add_lengths sample_grammar (codes "5" ∷ codes "05" ∷ []) no_content_length in
    (c.count ≡ 2)
    × ((n : ℕ)
        → AllParseTo sample_grammar n (codes "5" ∷ codes "05" ∷ [])
        → c ≡ record { ec = success; count = 2; value = n })
    × (failed c.ec ≡ false → (n : ℕ) × AllParseTo sample_grammar n (codes "5" ∷ codes "05" ∷ []))
add_lengths_lem_example = add_lengths_lem sample_grammar (codes "5") (codes "05" ∷ [])

add_expects_lem_example :
    let g = sample_grammar in
    let v = codes "100-Continue" in
    let w = codes "x" in
    ((add_expects g (v ∷ []) no_expect).is_100_continue ≡ g.ci_is_equal v (codes "100-continue"))
    × (failed (add_expects g (v ∷ []) no_expect).ec ≡ not (g.ci_is_equal v (codes "100-continue")))
    × (failed (add_expects g (v ∷ w ∷ []) no_expect).ec ≡ true)
    × ((add_expects g (v ∷ w ∷ []) no_expect).is_100_continue ≡ false)
add_expects_lem_example = add_expects_lem sample_grammar (codes "100-Continue") (codes "x") []

-- Two Expect fields were there, and one is left.
abbrev expecting_request : Header
expecting_request = record empty_request {
  cbuf = start_line ++ codes "Expect: 100-continue\r\n\r\n";
  size = 40;
  count = 1;
  md = record empty_request.md { expect = record no_expect { count = 2 } };
  tab = record { np = 0; nn = 6; vp = 8; vn = 12; id = Field.expect } ∷ [];
}

on_erase_expect_lem_example :
    (on_erase_expect sample_grammar expecting_request).md.expect
    ≡ add_expects sample_grammar
        (values_with_id expecting_request Field.expect (rows expecting_request))
        no_expect
on_erase_expect_lem_example =
    on_erase_expect_lem sample_grammar expecting_request refl (omega arith)

-- Two Connection fields were there; the one that is left, "close", stands after another field.
abbrev closing_request : Header
closing_request = record empty_request {
  cbuf = start_line ++ codes "A: b\r\nConnection: close\r\n\r\n";
  size = 43;
  count = 2;
  md = record empty_request.md { connection = record no_connection { count = 2; close = true } };
  tab =
      record { np = 0; nn = 1; vp = 3; vn = 1; id = Field.unknown }
      ∷ record { np = 6; nn = 10; vp = 18; vn = 5; id = Field.connection }
      ∷ [];
}

on_erase_loses_example :
    let g = sample_grammar in
    let h = closing_request in
    (Lacks Field.connection (record { np = 0; nn = 1; vp = 3; vn = 1; id = Field.unknown } ∷ [])
      → (on_erase_connection g h).md.connection ≡ no_connection)
    × (Lacks Field.content_length []
        → failed h.md.content_length.ec ≡ true
        → (on_erase_content_length g h).md.content_length ≡ no_content_length)
    × (Lacks Field.upgrade [] → (on_erase_upgrade g h).md.upgrade ≡ no_upgrade)
on_erase_loses_example = on_erase_loses sample_grammar closing_request
