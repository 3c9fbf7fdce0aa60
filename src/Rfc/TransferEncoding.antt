-- ===== src/Rfc/TransferEncoding.antt =====
-- src/rfc/transfer_encoding_rule.hpp and .cpp: one transfer coding with its parameters.
use http_proto.Base.{List, [], ◌∷◌, ◌==◌, if◌then◌else◌, Bytes, codes}
use http_proto.Types.{need_more, mismatch, syntax}
use http_proto.Grammar.{Result, ok, err, Grammar, Rule}
use http_proto.Rfc.Chars.{ws, token_rule}
use http_proto.Rfc.List.{list_rule}
use http_proto.Rfc.QuotedToken.{QuotedToken, quoted_token_rule}

-- `transfer_encoding::coding`
pub data Coding : Type 0 where
  unknown chunked compress deflate gzip : Coding

pub record Param : Type 0 where
  pub key : Bytes
  pub value : QuotedToken

pub record TransferCoding : Type 0 where
  pub id : Coding
  pub str : Bytes
  pub params : List Param

with_value : Bytes → Result QuotedToken × Bytes → Result Param × Bytes
with_value k (ok v, rest) = (ok (record { key = k; value = v }), rest)
with_value k (err e, rest) = (err e, rest)

-- From the `=`; a failure there takes the input back to `it0`.
after_key : Grammar → Bytes → Bytes → Bytes → Result Param × Bytes
unfolding with_value
after_key g it0 k [] = (err need_more, it0)
after_key g it0 k (c ∷ it) =
    if c == b'='
    then with_value k (quoted_token_rule g (g.find_if_not ws it))
    else (err syntax, it0)

with_key : Grammar → Bytes → Result Bytes × Bytes → Result Param × Bytes
unfolding after_key
with_key g it0 (ok k, rest) = after_key g it0 k (g.find_if_not ws rest)
with_key g it0 (err e, rest) = (err e, rest)

after_ows : Grammar → Bytes → Bytes → Result Param × Bytes
unfolding with_key
after_ows g it0 [] = (err need_more, it0)
after_ows g it0 (c ∷ it) =
    if c == b';' then with_key g it0 (token_rule g (g.find_if_not ws it)) else (err mismatch, it0)

-- tparam = OWS ";" OWS token BWS "=" BWS ( token / quoted-string )
unfoldable pub tparam_rule : Grammar → Rule Param
unfolding after_ows
tparam_rule g it = after_ows g it (g.find_if_not ws it)

with_params : Bytes → Result (List Param) × Bytes → Result TransferCoding × Bytes
with_params s (ok ps, rest) = (ok (record { id = unknown; str = s; params = ps }), rest)
with_params s (err e, rest) = (err e, rest)

abbrev plain : Coding → Bytes → Bytes → Result TransferCoding × Bytes
plain c s rest = (ok (record { id = c; str = s; params = [] }), rest)

-- The four registered codings take no parameters.
of_token : Grammar → Result Bytes × Bytes → Result TransferCoding × Bytes
unfolding with_params
of_token g (err e, rest) = (err e, rest)
of_token g (ok s, rest) =
    if g.ci_is_equal s (codes "chunked")
    then plain chunked s rest
    else if g.ci_is_equal s (codes "compress")
    then plain compress s rest
    else if g.ci_is_equal s (codes "deflate")
    then plain deflate s rest
    else if g.ci_is_equal s (codes "gzip")
    then plain gzip s rest
    else with_params s (g.range Param (tparam_rule g) (tparam_rule g) 0 rest)

unfoldable pub coding_rule : Grammar → Rule TransferCoding
unfolding of_token
coding_rule g it = of_token g (token_rule g it)

-- `transfer_encoding_rule`: a list of at least one coding.
unfoldable pub transfer_encoding_rule : Grammar → Rule (List TransferCoding)
unfolding coding_rule
transfer_encoding_rule g = list_rule g (coding_rule g) 1
