-- ===== src/Rfc/QuotedToken/Quoted.antt =====
-- The quoted strings that `quoted_token_rule` matches, and the end of its loop.
use http_proto.Base.{
  ℕ, zero, suc, ◌+◌, ◌-◌, ◌≤◌, ◌<◌, ◌≡◌, ◌≢◌, refl, sym, ap, ◌∙◌, Bool, true, [], ◌∷◌, ◌++◌, ◌==◌,
  length, length-append, take, Bytes, arith, if_cases,
}
use mathlib.Core.Path.{subst}
use mathlib.Core.List.{append_assoc}
use http_proto.Base.Splice.{take-append}
use http_proto.Types.{need_more, syntax, out_of_fuel}
use http_proto.Grammar.{Result, ok, err, Grammar}
use http_proto.Rfc.Chars.{qdtext, qpchars}
use http_proto.Rfc.QuotedToken.{
  QuotedToken, has_escapes, escape, at_stop, quoted_loop, quoted_token_rule,
}

-- `find_if_not` stays within the input: it passes over some octets and returns the rest.
abbrev pub FindsSuffix : Grammar → Type 0
FindsSuffix g = (f : ℕ → Bool) (s : Bytes) → (p : Bytes) × (s ≡ p ++ g.find_if_not f s)

-- The octets are a body between two quotes, and the text without escapes is not longer than it.
abbrev pub IsQuoted : QuotedToken → Type 0
IsQuoted q = (body : Bytes) × (q.str ≡ b'"' ∷ body ++ (b'"' ∷ [])) × (q.unescaped ≤ length body)

Fine : Result QuotedToken × Bytes → Type 0
Fine (ok q, rest) = IsQuoted q
Fine (err e, rest) = e ≢ out_of_fuel

-- The loop has gone from the opening quote over `p`, which has at least `n` octets of text.
abbrev Passed : Bytes → Bytes → ℕ → Bytes → Type 0
Passed it0 p n it = (it0 ≡ b'"' ∷ (p ++ it)) × (n ≤ length p)

need_more-ne : need_more ≢ out_of_fuel
need_more-ne e = ground arith

syntax-ne : syntax ≢ out_of_fuel
syntax-ne e = ground arith

module _ (g : Grammar) (it0 : Bytes) where
  -- What the rest of the loop does on fewer octets than `k`.
  abbrev Goes : ℕ → (Bytes → ℕ → Result QuotedToken × Bytes) → Type 0
  Goes k next =
      (p : Bytes) (n : ℕ) (it : Bytes) → length it < k → Passed it0 p n it → Fine (next it n)

  escape-Fine :
      (next : Bytes → ℕ → Result QuotedToken × Bytes) (k : ℕ) (p : Bytes) (n : ℕ) (c : ℕ)
      (it : Bytes)
      → Goes k next
      → length it < k
      → Passed it0 p n (c ∷ it)
      → Fine (escape g next n it)
  unfolding escape Fine
  escape-Fine next k p n c [] h l w = need_more-ne
  escape-Fine next k p n c (d ∷ rest) h l (e, b) =
      if_cases Fine (qpchars g d) _ _
        (λ _. h (p ++ (c ∷ d ∷ [])) (n + 1) rest (omega arith) (
          e ∙ ap (◌∷◌ b'"') (sym (append_assoc p (c ∷ d ∷ []) rest)),
          omega (arith, length-append p (c ∷ d ∷ [])),
        ))
        (λ _. syntax-ne)

  text_between :
      (p : Bytes) (c : ℕ) (rest : Bytes)
      → c ≡ b'"'
      → it0 ≡ b'"' ∷ (p ++ (c ∷ rest))
      → take (length it0 - length rest) it0 ≡ b'"' ∷ p ++ (b'"' ∷ [])
  text_between p c rest ec e =
      let x = b'"' ∷ (p ++ (c ∷ [])) in
      let whole : it0 ≡ x ++ rest = e ∙ ap (◌∷◌ b'"') (sym (append_assoc p (c ∷ []) rest)) in
      ap (λ z. take (length z - length rest) z) whole
      ∙ take-append x rest {n = length (x ++ rest) - length rest}
          (omega (arith, length-append x rest))
      ∙ ap (λ z. b'"' ∷ (p ++ (z ∷ []))) ec

  at_stop-Fine :
      (next : Bytes → ℕ → Result QuotedToken × Bytes) (k : ℕ) (p : Bytes) (n : ℕ) (it : Bytes)
      → Goes k next
      → length it ≤ k
      → Passed it0 p n it
      → Fine (at_stop g next it0 n it)
  unfolding at_stop Fine
  at_stop-Fine next k p n [] h l w = need_more-ne
  at_stop-Fine next k p n (c ∷ rest) h l (e, b) =
      if_cases Fine (c == b'"') _ _ (λ t. (p, text_between p c rest (ground arith) e, b))
        (λ _.
          if_cases Fine (c == b'\\') _ _ (λ _. escape-Fine next k p n c rest h (omega arith) (e, b))
            (λ _. syntax-ne))

  quoted_loop-Fine : FindsSuffix g → (fuel : ℕ) → Goes fuel (quoted_loop g it0 fuel)
  unfolding quoted_loop
  quoted_loop-Fine fs zero p n it l w = absurd (omega arith)
  quoted_loop-Fine fs (suc fuel) p n it l (e, b) =
      let stop = g.find_if_not qdtext it in
      let (q, eq) = fs qdtext it in
      let lengths = ap length eq ∙ length-append q stop in
      let whole = e ∙ ap (λ z. b'"' ∷ (p ++ z)) eq ∙ ap (◌∷◌ b'"') (sym (append_assoc p q stop)) in
      at_stop-Fine (quoted_loop g it0 fuel) fuel (p ++ q) (n + (length it - length stop)) stop
        (quoted_loop-Fine fs fuel) (omega arith) (whole, omega (arith, length-append p q))

Fine-IsQuoted :
    (r : Result QuotedToken × Bytes)
    → Fine r
    → (r.0 ≢ err out_of_fuel) × ((q : QuotedToken) → r.0 ≡ ok q → IsQuoted q)
unfolding Fine
Fine-IsQuoted (ok q, rest) f =
    (λ e. ground arith, λ q' e. let same : q ≡ q' = ground arith in subst IsQuoted same f)
Fine-IsQuoted (err e, rest) f = (λ h. f (ground arith), λ q h. absurd (ground arith))

IsQuoted-has_escapes : (q : QuotedToken) → IsQuoted q → has_escapes q ≡ true
unfolding has_escapes
IsQuoted-has_escapes q (body, e, b) =
    let l = ap length e in let m = length-append body (b'"' ∷ []) in ground arith

-- From an opening quote on, if the search for an octet outside a set stays within the input, the
-- rule's loop comes to its end within the fuel given; a result is a body between two quotes with an
-- unescaped text not longer than the body; and `has_escapes` is true of it, escapes or not.
pub quoted_token_rule-IsQuoted :
    (g : Grammar) (it : Bytes)
    → FindsSuffix g
    → let r = quoted_token_rule g (b'"' ∷ it) in
      (r.0 ≢ err out_of_fuel)
      × ((q : QuotedToken) → r.0 ≡ ok q → IsQuoted q × (has_escapes q ≡ true))
unfolding quoted_token_rule
quoted_token_rule-IsQuoted g it fs =
    let f =
      quoted_loop-Fine g (b'"' ∷ it) fs (suc (length it)) [] 0 it (omega arith)
        (refl, omega arith) in
    let (ends, shape) = Fine-IsQuoted (quoted_loop g (b'"' ∷ it) (suc (length it)) it 0) f in
    (ends, λ q e. (shape q e, IsQuoted-has_escapes q (shape q e)))
