-- ===== src/Rules/StartLine.antt =====
-- The start lines: `crlf_rule`, `version_rule` and `status_code_rule` of src/rfc/detail/rules.cpp,
-- `request_line_rule` and `status_line_rule` of rfc/detail/rules.hpp.
use mathlib.Core.Option.{Option, none, some}
use http_proto.Base.{
  ℕ, ◌+◌, ◌-◌, ◌*◌, ◌%◌, Bool, not, ◌&&◌, ◌||◌, [], ◌∷◌, ◌==◌, leb, if◌then◌else◌, matches, Bytes,
  codes, length, take, drop,
}
use http_proto.Types.{need_more, mismatch}
use http_proto.Grammar.{Result, ok, err, Rule, Grammar}
use http_proto.Names.Statuses.{Status, int_to_status}
use http_proto.Rfc.Chars.{token_rule}

unfoldable pub crlf_rule : Rule (Unit {0})
crlf_rule [] = (err need_more, [])
crlf_rule (c ∷ []) = if c == b'\r' then (err need_more, []) else (err mismatch, c ∷ [])
crlf_rule (c ∷ d ∷ it) =
    if c == b'\r'
    then (if d == b'\n' then (ok tt, it) else (err mismatch, d ∷ it))
    else (err mismatch, c ∷ d ∷ it)

-- `HTTP-version` after "HTTP/".
unfoldable pub version_digits : Grammar → Rule ℕ
version_digits g [] = (err need_more, [])
version_digits g (a ∷ []) = if g.digit_chars a then (err need_more, []) else (err need_more, a ∷ [])
version_digits g (a ∷ b ∷ []) =
    if not (g.digit_chars a)
    then (err need_more, a ∷ b ∷ [])
    else if b == b'.'
    then (err need_more, [])
    else (err need_more, b ∷ [])
version_digits g (a ∷ b ∷ c ∷ it) =
    if not (g.digit_chars a)
    then (err need_more, a ∷ b ∷ c ∷ it)
    else if not (b == b'.')
    then (err need_more, b ∷ c ∷ it)
    else if not (g.digit_chars c)
    then (err need_more, c ∷ it)
    else (ok ((10 * (a - b'0') + (c - b'0')) % 256), it)

-- With fewer than five octets left, "HTTP/" is not looked for.
unfoldable pub version_rule : Grammar → Rule ℕ
unfolding version_digits
version_rule g it =
    if length it == 0
    then (err need_more, it)
    else if leb 5 (length it)
    then (if matches (take 5 it) (codes "HTTP/")
        then version_digits g (drop 5 it)
        else (err mismatch, it))
    else version_digits g it

-- The lambda `dig`, with `none` for -1.
unfoldable pub dig : ℕ → Option ℕ
dig c = if leb b'0' c && leb c b'9' then some (c - b'0') else none

-- `status_code_rule_t::value_type`
pub record StatusCode : Type 0 where
  pub v : ℕ
  pub st : Status
  pub s : Bytes

-- `if(v == -1) return e;`, and what follows it.
unfoldable pub if_digit :
    Option ℕ
    → Result StatusCode × Bytes
    → (ℕ → Result StatusCode × Bytes)
    → Result StatusCode × Bytes
if_digit none e next = e
if_digit (some v) e next = next v

unfoldable pub third_digit : ℕ → ℕ → ℕ → ℕ → Rule StatusCode
unfolding dig int_to_status if_digit
third_digit a b x y [] = (err need_more, [])
third_digit a b x y (c ∷ it) =
    if_digit (dig c) (err need_more, c ∷ it)
      (λ z.
        let v = 100 * x + 10 * y + z in
        (ok (record { v = v; st = int_to_status v; s = a ∷ b ∷ c ∷ [] }), it))

unfoldable pub second_digit : ℕ → ℕ → Rule StatusCode
unfolding third_digit
second_digit a x [] = (err need_more, [])
second_digit a x (b ∷ it) = if_digit (dig b) (err mismatch, b ∷ it) (λ y. third_digit a b x y it)

unfoldable pub status_code_rule : Rule StatusCode
unfolding second_digit
status_code_rule [] = (err need_more, [])
status_code_rule (a ∷ it) = if_digit (dig a) (err mismatch, a ∷ it) (λ x. second_digit a x it)

-- `target_chars`
unfoldable pub target_chars : ℕ → Bool
target_chars c = leb 0x21 c && leb c 0x7e

-- `ws_vchars`
unfoldable pub ws_vchars : ℕ → Bool
ws_vchars c = leb 0x20 c && leb c 0x7e || c == 9

-- method, target and version
abbrev pub RequestLine : Type 0
RequestLine = Bytes × (Unit {0} × (Bytes × (Unit {0} × (ℕ × Unit {0}))))

unfoldable pub request_line_rule : Grammar → Rule RequestLine
unfolding crlf_rule version_rule
request_line_rule g = g.tuple Bytes _ (token_rule g) (
    g.tuple (Unit {0}) _ (g.delim b' ') (
      g.tuple Bytes _ (g.token target_chars)
        (g.tuple (Unit {0}) _ (g.delim b' ') (g.tuple ℕ (Unit {0}) (version_rule g) crlf_rule))))

-- version, status code and reason phrase
abbrev pub StatusLine : Type 0
StatusLine = ℕ × (Unit {0} × (StatusCode × (Unit {0} × (Bytes × Unit {0}))))

unfoldable pub status_line_rule : Grammar → Rule StatusLine
unfolding crlf_rule version_rule status_code_rule
status_line_rule g = g.tuple ℕ _ (version_rule g) (
    g.tuple (Unit {0}) _ (g.delim b' ') (
      g.tuple StatusCode _ status_code_rule (
        g.tuple (Unit {0}) _ (g.delim b' ')
          (g.tuple Bytes (Unit {0}) (g.token ws_vchars) crlf_rule))))
