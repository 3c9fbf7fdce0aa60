-- ===== src/Rules/Starts.antt =====
-- `request_line_rule` and `status_line_rule` of rfc/detail/rules.hpp read well-formed start lines.
use mathlib.Core.Option.{some}
use http_proto.Base.{
  ℕ, suc, ◌+◌, ◌-◌, ◌*◌, ◌≡◌, refl, ◌∙◌, true, false, ◌&&◌, [], ◌∷◌, ◌++◌, ◌==◌, leb, Bytes, codes,
  length, All, arith,
}
use http_proto.Types.{Version, http_1_0, http_1_1}
use http_proto.Grammar.{ok, Grammar, IsGrammar}
use http_proto.Names.Statuses.{int_to_status}
use http_proto.Rfc.Chars.{tchars, token_rule}
use http_proto.Rules.StartLine.{
  crlf_rule, version_rule, version_digits, dig, if_digit, second_digit, third_digit, StatusCode,
  status_code_rule, target_chars, ws_vchars, request_line_rule, status_line_rule,
}

abbrev pub version_text : Version → Bytes
version_text http_1_0 = codes "HTTP/1.0"
version_text http_1_1 = codes "HTTP/1.1"

abbrev pub version_number : Version → ℕ
version_number http_1_0 = 10
version_number http_1_1 = 11

version_rule-digits :
    (g : Grammar) (x : Bytes) → version_rule g (codes "HTTP/" ++ x) ≡ version_digits g x
unfolding version_rule
version_rule-digits g x =
    let n = length x in
    let e : (suc (suc (suc (suc (suc n)))) == 0) ≡ false = ground arith in
    let f : leb 5 (suc (suc (suc (suc (suc n))))) ≡ true = ground arith in rw (e, f) refl

version_rule_lem :
    (g : Grammar) (v : Version) (x : Bytes)
    → IsGrammar g
    → version_rule g (version_text v ++ x) ≡ (ok (version_number v), x)
unfolding version_digits
version_rule_lem g http_1_0 x k =
    version_rule-digits g (codes "1.0" ++ x)
    ∙ (rw (k.digit_chars-digit b'1', k.digit_chars-digit b'0') refl)
version_rule_lem g http_1_1 x k =
    version_rule-digits g (codes "1.1" ++ x) ∙ (rw (k.digit_chars-digit b'1') refl)

abbrev pub IsDigit : ℕ → Type 0
IsDigit c = (leb b'0' c && leb c b'9') ≡ true

abbrev pub code_number : ℕ → ℕ → ℕ → ℕ
code_number x y z = 100 * (x - b'0') + 10 * (y - b'0') + (z - b'0')

abbrev pub code_of : ℕ → ℕ → ℕ → StatusCode
code_of x y z = record {
  v = code_number x y z;
  st = int_to_status (code_number x y z);
  s = x ∷ y ∷ z ∷ [];
}

dig_lem : (c : ℕ) → IsDigit c → dig c ≡ some (c - b'0')
unfolding dig
dig_lem c h = rw h refl

status_code_rule_lem :
    (x y z : ℕ) (rest : Bytes)
    → IsDigit x
    → IsDigit y
    → IsDigit z
    → status_code_rule (x ∷ y ∷ z ∷ rest) ≡ (ok (code_of x y z), rest)
unfolding status_code_rule second_digit third_digit if_digit
status_code_rule_lem x y z rest hx hy hz = rw (dig_lem x hx, dig_lem y hy, dig_lem z hz) refl

space : tchars b' ' ≡ false
unfolding tchars
space = refl

space_target : target_chars b' ' ≡ false
unfolding target_chars
space_target = refl

cr_reason : ws_vchars b'\r' ≡ false
unfolding ws_vchars
cr_reason = refl

abbrev ends : Bytes → Bytes
ends rest = b'\r' ∷ b'\n' ∷ rest

crlf_rule-ends : (rest : Bytes) → crlf_rule (ends rest) ≡ (ok tt, rest)
unfolding crlf_rule
crlf_rule-ends rest = refl

-- The octets of a request line, before what follows it.
abbrev pub request_line : Bytes → Bytes → Version → Bytes → Bytes
request_line method target v rest =
    method ++ (b' ' ∷ (target ++ (b' ' ∷ (version_text v ++ ends rest))))

pub request_line_rule_lem :
    (g : Grammar) (c : ℕ) (method : Bytes) (d : ℕ) (target : Bytes) (v : Version) (rest : Bytes)
    → IsGrammar g
    → All (λ x. tchars x ≡ true) (c ∷ method)
    → All (λ x. target_chars x ≡ true) (d ∷ target)
    → request_line_rule g (request_line (c ∷ method) (d ∷ target) v rest)
      ≡ (ok (c ∷ method, (tt, (d ∷ target, (tt, (version_number v, tt))))), rest)
unfolding request_line_rule token_rule
request_line_rule_lem g c method d target v rest k hm ht =
    let x3 = version_text v ++ ends rest in
    let x2 = (d ∷ target) ++ (b' ' ∷ x3) in
    k.tuple_both _ _ _ _ _ _ (b' ' ∷ x2) _ _ (k.token_stops tchars c method b' ' x2 hm space) (
      k.tuple_both _ _ _ _ _ _ x2 _ _ (k.delim_same b' ' x2) (
        k.tuple_both _ _ _ _ _ _ (b' ' ∷ x3) _ _
          (k.token_stops target_chars d target b' ' x3 ht space_target)
          (k.tuple_both _ _ _ _ _ _ x3 _ _ (k.delim_same b' ' x3) (
            k.tuple_both _ _ _ _ _ _ (ends rest) _ _ (version_rule_lem g v (ends rest) k)
              (crlf_rule-ends rest)))))

-- The octets of a status line.
abbrev pub status_line : Version → ℕ → ℕ → ℕ → Bytes → Bytes → Bytes
status_line v x y z reason rest =
    version_text v ++ (b' ' ∷ x ∷ y ∷ z ∷ b' ' ∷ (reason ++ ends rest))

pub status_line_rule_lem :
    (g : Grammar) (v : Version) (x y z c : ℕ) (reason rest : Bytes)
    → IsGrammar g
    → IsDigit x
    → IsDigit y
    → IsDigit z
    → All (λ r. ws_vchars r ≡ true) (c ∷ reason)
    → status_line_rule g (status_line v x y z (c ∷ reason) rest)
      ≡ (ok (version_number v, (tt, (code_of x y z, (tt, (c ∷ reason, tt))))), rest)
unfolding status_line_rule
status_line_rule_lem g v x y z c reason rest k hx hy hz hr =
    let x3 = (c ∷ reason) ++ ends rest in
    let x1 = x ∷ y ∷ z ∷ b' ' ∷ x3 in
    k.tuple_both _ _ _ _ _ _ (b' ' ∷ x1) _ _ (version_rule_lem g v (b' ' ∷ x1) k) (
      k.tuple_both _ _ _ _ _ _ x1 _ _ (k.delim_same b' ' x1) (
        k.tuple_both _ _ _ _ _ _ (b' ' ∷ x3) _ _ (status_code_rule_lem x y z (b' ' ∷ x3) hx hy hz) (
          k.tuple_both _ _ _ _ _ _ x3 _ _ (k.delim_same b' ' x3) (
            k.tuple_both _ _ _ _ _ _ (ends rest) _ _
              (k.token_stops ws_vchars c reason b'\r' (b'\n' ∷ rest) hr cr_reason)
              (crlf_rule-ends rest)))))
