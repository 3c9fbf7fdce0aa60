-- ===== src/Header/Insert.antt =====
-- `header::on_insert` and its handlers: the metadata after a field has been added.
use http_proto.Base.{
  ℕ, ◌+◌, Bool, true, false, not, ◌&&◌, ◌||◌, List, [], ◌∷◌, ◌==◌, ltb, if◌then◌else◌, length,
  Bytes, codes,
}
use http_proto.Field
use http_proto.Field.{Field}
use http_proto.Types.{
  failure, success, failed, bad_connection, bad_content_length, multiple_content_length, bad_expect,
  bad_transfer_encoding, bad_upgrade, fields, is_http_1_1, Encoding, Connection, ContentLength,
  Expect, TransferEncoding, no_transfer_encoding, Upgrade, Header,
}
use http_proto.Grammar.{Result, ok, err, Grammar}
use http_proto.Header.{is_request, find, subrange}
use http_proto.Header.Framing.{update_payload}
use http_proto.Rfc.Chars.{token_rule}
use http_proto.Rfc.List.{list_rule}
use http_proto.Rfc.TransferEncoding.{Coding, TransferCoding, transfer_encoding_rule}
use http_proto.Rfc.Upgrade.{UpgradeProtocol, upgrade_rule}

-- ## Connection

-- The loop over the tokens.
unfoldable pub scan_tokens : Grammar → List Bytes → Connection → Connection
scan_tokens g [] c = c
scan_tokens g (t ∷ ts) c = scan_tokens g ts (
    if g.ci_is_equal t (codes "close")
    then record c { close = true }
    else if g.ci_is_equal t (codes "keep-alive")
    then record c { keep_alive = true }
    else if g.ci_is_equal t (codes "upgrade")
    then record c { upgrade = true }
    else c)

abbrev pub connection_tokens : Grammar → Bytes → Result (List Bytes)
connection_tokens g v = g.parse_all (List Bytes) (list_rule g (token_rule g) 1) v

abbrev take_tokens : Grammar → Connection → Result (List Bytes) → Connection
take_tokens g c (ok ts) = scan_tokens g ts (record c { ec = success })
take_tokens g c (err e) = record c { ec = failure bad_connection }

unfoldable pub insert_connection : Grammar → Bytes → Connection → Connection
unfolding scan_tokens
insert_connection g v c =
    let counted : Connection = record c { count = c.count + 1 } in
    if failed c.ec then counted else take_tokens g counted (connection_tokens g v)

unfoldable pub on_insert_connection : Grammar → Bytes → Header → Header
unfolding insert_connection
on_insert_connection g v h = record h {
  md = record h.md { connection = insert_connection g v h.md.connection };
}

-- ## Content-Length

-- The flag says whether `update_payload` is called.
unfoldable pub take_length : ContentLength → Result ℕ → ContentLength × Bool
take_length c (err e) = (record c { ec = failure bad_content_length; value = 0 }, true)
take_length c (ok n) =
    if c.count == 1
    then (record c { ec = success; value = n }, true)
    else if n == c.value
    then (c, false)
    else (record c { ec = failure multiple_content_length; value = 0 }, true)

unfoldable pub insert_content_length : Grammar → Bytes → ContentLength → ContentLength × Bool
unfolding take_length
insert_content_length g v c =
    let counted : ContentLength = record c { count = c.count + 1 } in
    if failed c.ec then (counted, false) else take_length counted (g.parse_u64 v)

abbrev pub update_if : Bool → Header → Header
update_if b h = if b then update_payload h else h

unfoldable pub on_insert_content_length : Grammar → Bytes → Header → Header
unfolding insert_content_length
on_insert_content_length g v h =
    let (c, changed) = insert_content_length g v h.md.content_length in
    update_if changed (record h { md = record h.md { content_length = c } })

-- ## Expect

unfoldable pub insert_expect : Grammar → Bool → Bytes → Expect → Expect
insert_expect g for_request v c =
    let counted : Expect = record c { count = c.count + 1 } in
    if not for_request || failed c.ec
    then counted
    else if ltb 1 counted.count || not (g.ci_is_equal v (codes "100-continue"))
    then record counted { ec = failure bad_expect; is_100_continue = false }
    else record counted { is_100_continue = true }

unfoldable pub on_insert_expect : Grammar → Bytes → Header → Header
unfolding insert_expect
on_insert_expect g v h = record h {
  md = record h.md { expect = insert_expect g (is_request h.kind) v h.md.expect };
}

-- ## Transfer-Encoding

-- One coding of the inner loop; the flag says whether the loop goes on.
abbrev is_identity : Encoding → Bool
is_identity Encoding.identity = true
is_identity _ = false

abbrev encoded : Coding → Encoding → Encoding
encoded Coding.deflate e = Encoding.deflate
encoded Coding.gzip e = Encoding.gzip
encoded _ e = e

abbrev is_chunked_coding : Coding → Bool
is_chunked_coding Coding.chunked = true
is_chunked_coding _ = false

abbrev pub bad_codings : TransferEncoding → TransferEncoding
bad_codings t = record t {
  ec = failure bad_transfer_encoding;
  codings = 0;
  is_chunked = false;
  encoding = Encoding.identity;
}

unfoldable pub take_coding : Coding → TransferEncoding → TransferEncoding × Bool
take_coding k t =
    if t.is_chunked
    then (bad_codings t, false)
    else if is_chunked_coding k
    then (record t { is_chunked = true }, true)
    else let t' : TransferEncoding = record t { encoding = encoded k t.encoding } in
      if is_identity t.encoding then (t', true) else (bad_codings t', false)

unfoldable pub take_codings : List TransferCoding → TransferEncoding → TransferEncoding × Bool
unfolding take_coding
take_codings [] t = (t, true)
take_codings (k ∷ ks) t =
    let (t', more) = take_coding k.id t in
    let rest = take_codings ks t' in if more then rest else (t', false)

-- The outer loop over the values of the Transfer-Encoding fields.
abbrev pub bad_value : TransferEncoding → TransferEncoding
bad_value t = record t { ec = failure bad_transfer_encoding; codings = 0; is_chunked = false }

abbrev pub take_value : Result (List TransferCoding) → TransferEncoding → TransferEncoding × Bool
take_value (err e) t = (bad_value t, false)
take_value (ok ks) t = take_codings ks (record t { codings = t.codings + length ks })

abbrev pub codings_of : Grammar → Bytes → Result (List TransferCoding)
codings_of g v = g.parse_all (List TransferCoding) (transfer_encoding_rule g) v

unfoldable pub take_values : Grammar → List Bytes → TransferEncoding → TransferEncoding
unfolding take_codings
take_values g [] t = t
take_values g (v ∷ vs) t =
    let (t', more) = take_value (codings_of g v) t in
    let rest = take_values g vs t' in if more then rest else t'

-- Every path that does not return at once ends in `update_payload`.
unfoldable pub on_insert_transfer_encoding : Grammar → Header → Header
unfolding take_values
on_insert_transfer_encoding g h =
    let t = h.md.transfer_encoding in
    let n = t.count + 1 in
    if failed t.ec
    then record h { md = record h.md { transfer_encoding = record t { count = n } } }
    else let vs = subrange h (find h Field.transfer_encoding) in
      let t' = take_values g vs (record no_transfer_encoding { count = n }) in
      update_payload (record h { md = record h.md { transfer_encoding = t' } })

-- ## Upgrade

-- The loop with its `break`.
unfoldable pub has_websocket : Grammar → List UpgradeProtocol → Bool
has_websocket g [] = false
has_websocket g (p ∷ ps) =
    g.ci_is_equal p.name (codes "websocket") && length p.version == 0 || has_websocket g ps

abbrev bad_protocols : Upgrade → Upgrade
bad_protocols u = record u { ec = failure bad_upgrade; websocket = false }

abbrev take_protocols : Grammar → Upgrade → Result (List UpgradeProtocol) → Upgrade
take_protocols g u (err e) = bad_protocols u
take_protocols g u (ok ps) =
    if not u.websocket then record u { websocket = has_websocket g ps } else u

unfoldable pub insert_upgrade : Grammar → Bool → Bytes → Upgrade → Upgrade
unfolding has_websocket
insert_upgrade g is_11 v u =
    let counted : Upgrade = record u { count = u.count + 1 } in
    if failed u.ec
    then counted
    else if not is_11
    then bad_protocols counted
    else take_protocols g counted (g.parse_all (List UpgradeProtocol) (upgrade_rule g) v)

unfoldable pub on_insert_upgrade : Grammar → Bytes → Header → Header
unfolding insert_upgrade
on_insert_upgrade g v h = record h {
  md = record h.md { upgrade = insert_upgrade g (is_http_1_1 h.version) v h.md.upgrade };
}

-- ## The dispatch

unfoldable pub on_insert_special : Grammar → Field → Bytes → Header → Header
on_insert_special g id v h =
    if id == Field.content_length
    then on_insert_content_length g v h
    else if id == Field.connection
    then on_insert_connection g v h
    else if id == Field.expect
    then on_insert_expect g v h
    else if id == Field.transfer_encoding
    then on_insert_transfer_encoding g h
    else if id == Field.upgrade
    then on_insert_upgrade g v h
    else h

unfoldable pub on_insert : Grammar → Field → Bytes → Header → Header
unfolding on_insert_special
on_insert g id v h = elim h.kind [ fields ↦ h | _ ↦ on_insert_special g id v h ]
