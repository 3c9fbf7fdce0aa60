-- ===== src/Rfc/Chars.antt =====
-- Character sets: rfc/detail/rules.hpp, rfc/token_rule.hpp and src/rfc/quoted_token_rule.cpp.
use http_proto.Base.{ℕ, Bool, false, ◌&&◌, ◌||◌, List, [], ◌∷◌, ◌++◌, ◌==◌, leb, Bytes, codes}
use http_proto.Grammar.{Grammar, Rule}

-- WS = SP / HTAB
abbrev pub ws : ℕ → Bool
ws c = c == b' ' || c == 9

-- Membership in the set that `lut_chars` makes of a text.
abbrev pub among : List ℕ → ℕ → Bool
among [] c = false
among (d ∷ ds) c = c == d || among ds c

abbrev digits_and_marks : Bytes
digits_and_marks = codes "!#$%&'*+-.^_`|~0123456789"

abbrev letters : Bytes
letters = codes "ABCDEFGHIJKLMNOPQRSTUVWXYZabcdefghijklmnopqrstuvwxyz"

unfoldable pub tchars : ℕ → Bool
tchars = among (digits_and_marks ++ letters)

unfoldable pub token_rule : Grammar → Rule Bytes
token_rule g = g.token tchars

-- `obs_text` and `qdtext`; the comparisons of a negative `char` with the ASCII ranges fail.
unfoldable pub qdtext : ℕ → Bool
qdtext c =
    c == 9
    || c == b' '
    || c == 0x21
    || leb 0x23 c && leb c 0x5b
    || leb 0x5d c && leb c 0x7e
    || leb 0x80 c

unfoldable pub qpchars : Grammar → ℕ → Bool
qpchars g c = g.vchars c || leb 0x80 c || c == 9 || c == b' '
