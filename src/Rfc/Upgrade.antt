-- ===== src/Rfc/Upgrade.antt =====
-- src/rfc/upgrade_rule.cpp and rfc/upgrade_rule.hpp: the protocols of an Upgrade field.
use http_proto.Base.{List, [], ◌∷◌, ◌==◌, if◌then◌else◌, Bytes}
use http_proto.Grammar.{Result, ok, err, Grammar, Rule}
use http_proto.Rfc.Chars.{token_rule}
use http_proto.Rfc.List.{list_rule}

pub record UpgradeProtocol : Type 0 where
  pub name : Bytes
  pub version : Bytes

with_version : Bytes → Result Bytes × Bytes → Result UpgradeProtocol × Bytes
with_version n (ok v, rest) = (ok (record { name = n; version = v }), rest)
with_version n (err e, rest) = (err e, rest)

-- [ "/" token ]
after_name : Grammar → Bytes → Bytes → Result UpgradeProtocol × Bytes
unfolding with_version
after_name g n [] = (ok (record { name = n; version = [] }), [])
after_name g n (c ∷ it) =
    if c == b'/'
    then with_version n (token_rule g it)
    else (ok (record { name = n; version = [] }), c ∷ it)

of_token : Grammar → Result Bytes × Bytes → Result UpgradeProtocol × Bytes
unfolding after_name
of_token g (ok n, rest) = after_name g n rest
of_token g (err e, rest) = (err e, rest)

unfoldable pub upgrade_protocol_rule : Grammar → Rule UpgradeProtocol
unfolding of_token
upgrade_protocol_rule g it = of_token g (token_rule g it)

unfoldable pub upgrade_rule : Grammar → Rule (List UpgradeProtocol)
unfolding upgrade_protocol_rule
upgrade_rule g = list_rule g (upgrade_protocol_rule g) 1
