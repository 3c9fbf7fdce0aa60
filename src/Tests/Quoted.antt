-- ===== src/Tests/Quoted.antt =====
-- A quoted string with an escape.
use http_proto.Base.{if_cases, ℕ, ◌≡◌, ◌≢◌, refl, Bool, true, [], ◌∷◌, ◌++◌, ap, Bytes, codes}
use http_proto.Types.{out_of_fuel}
use http_proto.Grammar.{ok, err}
use http_proto.Rfc.QuotedToken.{QuotedToken, has_escapes, quoted_token_rule}
use http_proto.Rfc.QuotedToken.Quoted.{FindsSuffix, IsQuoted, quoted_token_rule-IsQuoted}
use http_proto.Tests.Samples.{sample_grammar, skip_while}

skip_while-suffix : (f : ℕ → Bool) (s : Bytes) → (p : Bytes) × (s ≡ p ++ skip_while f s)
unfolding skip_while
skip_while-suffix f [] = ([], refl)
skip_while-suffix f (c ∷ cs) =
    if_cases (λ z. (p : Bytes) × (c ∷ cs ≡ p ++ z)) (f c) (skip_while f cs) (c ∷ cs)
      (λ _. let (p, e) = skip_while-suffix f cs in (c ∷ p, ap (◌∷◌ c) e)) (λ _. ([], refl))

sample-FindsSuffix : FindsSuffix sample_grammar
unfolding sample_grammar
sample-FindsSuffix = skip_while-suffix

quoted_token_rule-IsQuoted_example :
    let r = quoted_token_rule sample_grammar (b'"' ∷ codes "a\\\"b\" c") in
    (r.0 ≢ err out_of_fuel) × ((q : QuotedToken) → r.0 ≡ ok q → IsQuoted q × (has_escapes q ≡ true))
quoted_token_rule-IsQuoted_example =
    quoted_token_rule-IsQuoted sample_grammar (codes "a\\\"b\" c") sample-FindsSuffix
