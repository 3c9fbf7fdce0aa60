-- ===== src/Rfc/QuotedToken.antt =====
-- src/rfc/quoted_token_rule.cpp: a token or a quoted string.
pub mod Quoted
use http_proto.Base.{
  ℕ, zero, suc, ◌+◌, ◌-◌, Bool, not, [], ◌∷◌, ◌==◌, if◌then◌else◌, length, take, Bytes,
}
use http_proto.Types.{need_more, syntax, out_of_fuel}
use http_proto.Grammar.{Result, ok, err, Grammar, Rule}
use http_proto.Rfc.Chars.{token_rule, qdtext, qpchars}

-- `quoted_token_view`: the octets, with their quotes, and the length of the text without escapes.
pub record QuotedToken : Type 0 where
  pub str : Bytes
  pub unescaped : ℕ

unfoldable pub has_escapes : QuotedToken → Bool
has_escapes q = not (q.unescaped == length q.str)

unquoted : Result Bytes × Bytes → Result QuotedToken × Bytes
unquoted (ok s, rest) = (ok (record { str = s; unescaped = length s }), rest)
unquoted (err e, rest) = (err e, rest)

-- After `\\`: one octet of qpchars, and the loop goes on with `next`.
module _ (g : Grammar) (next : Bytes → ℕ → Result QuotedToken × Bytes) where
  escape : ℕ → Bytes → Result QuotedToken × Bytes
  escape n [] = (err need_more, [])
  escape n (c ∷ rest) = if qpchars g c then next rest (n + 1) else (err syntax, c ∷ rest)

  -- At the first octet outside qdtext; `it0` is the input at the opening quote.
  at_stop : Bytes → ℕ → Bytes → Result QuotedToken × Bytes
  unfolding escape
  at_stop it0 n [] = (err need_more, [])
  at_stop it0 n (c ∷ rest) =
      if c == b'"'
      then (ok (record { str = take (length it0 - length rest) it0; unescaped = n }), rest)
      else if c == b'\\'
      then escape n rest
      else (err syntax, c ∷ rest)

module _ (g : Grammar) (it0 : Bytes) where
  -- `for(;;)` on fuel; `n` counts the octets of the text without escapes.
  unfoldable pub quoted_loop : ℕ → Bytes → ℕ → Result QuotedToken × Bytes
  unfolding at_stop
  quoted_loop zero it n = (err out_of_fuel, it)
  quoted_loop (suc fuel) it n =
      let stop = g.find_if_not qdtext it in
      at_stop g (quoted_loop fuel) it0 (n + (length it - length stop)) stop

-- Each round takes two octets at least, so the length of the input is fuel enough.
unfoldable pub quoted_token_rule : Grammar → Rule QuotedToken
unfolding unquoted quoted_loop
quoted_token_rule g [] = (err need_more, [])
quoted_token_rule g (c ∷ it) =
    if c == b'"'
    then quoted_loop g (c ∷ it) (suc (length it)) it 0
    else unquoted (token_rule g (c ∷ it))
