-- ===== src/Names/Octets.antt =====
-- src/field.cpp: words of four octets, octet by octet.
use Prim.Native.Nat.{bit_or, bit_xor, bit_or-bitwise}
use http_proto.Base.{
  ℕ, ◌+◌, ◌*◌, ◌^◌, ◌<◌, ◌≡◌, refl, ap, ◌∙◌, Bool, true, not, ◌&&◌, ◌||◌, ◌==◌, leb, ltb, ltb→lt,
  if◌then◌else◌, arith, ==_iff,
}
use http_proto.Base.Bits.{all_below, all_below_lem, bit_and-octet, bit_or-octet, bit_xor-octet}
use http_proto.Names.Fields.{get_chars, alike}

-- ASCII to lower case.
abbrev pub to_lower : ℕ → ℕ
to_lower c = if leb b'A' c && leb c b'Z' then c + 32 else c

-- What a header may hold in a name, and what the known names are made of.
abbrev pub is_visible : ℕ → Bool
is_visible c = leb 0x21 c && leb c 0x7e

abbrev pub is_name_char : ℕ → Bool
is_name_char c =
    c == b'-' || leb b'0' c && leb c b'9' || leb b'A' c && leb c b'Z' || leb b'a' c && leb c b'z'

or_table : all_below 256 (λ c. bit_or c 0x20 == bit_or (to_lower c) 0x20) ≡ true
unfolding all_below
or_table = refl

zero_table : all_below 256 (λ c. bit_or c 0 == c) ≡ true
unfolding all_below
zero_table = refl

-- The row of `alike` for the octet `a` against the octets of names.
abbrev agrees : ℕ → ℕ → Bool
agrees a u =
    not (is_visible a && is_name_char u)
    || (if alike 0xDF a u then to_lower a == to_lower u else not (to_lower a == to_lower u))

alike_table : all_below 256 (λ a. all_below 256 (agrees a)) ≡ true
unfolding all_below alike
alike_table = refl

xor_table : all_below 256 (λ a. all_below 256 (λ u. ltb (bit_xor a u) 256)) ≡ true
unfolding all_below
xor_table = refl

pub octet_or : (c : ℕ) → c < 256 → bit_or c 0x20 ≡ bit_or (to_lower c) 0x20
octet_or c h = (==_iff _ _).0 (all_below_lem 256 _ c or_table h)

octet_zero : (c : ℕ) → c < 256 → bit_or c 0 ≡ c
octet_zero c h = (==_iff _ _).0 (all_below_lem 256 _ c zero_table h)

octet_xor : (a u : ℕ) → a < 256 → u < 256 → bit_xor a u < 256
octet_xor a u h k =
    let t = all_below_lem 256 _ u (all_below_lem 256 _ a xor_table h) k in
    ltb→lt (bit_xor a u) 256 t

pub octet_alike :
    (a u : ℕ)
    → is_visible a ≡ true
    → is_name_char u ≡ true
    → alike 0xDF a u ≡ (to_lower a == to_lower u)
octet_alike a u h k =
    let t =
      all_below_lem 256 _ u (all_below_lem 256 _ a alike_table (ground arith)) (ground arith) in
    ground (arith, t)

zero_or : (y : ℕ) → bit_or 0 y ≡ y
zero_or y = bit_or-bitwise 0 y

-- An octet in front of a word.
push_octet : (p x y : ℕ) → p < 256 → bit_or (p + 256 * x) (256 * y) ≡ p + 256 * bit_or x y
push_octet p x y h =
    let e : 256 * y ≡ 0 + 256 * y = omega arith in
    ap (λ q. bit_or (p + 256 * x) q) e
    ∙ (bit_or-octet p 0 x y h (omega arith) ∙ ap (λ q. q + 256 * bit_or x y) (octet_zero p h))

low_octet : (p y : ℕ) → p < 256 → bit_or p (y * 2 ^ 8) ≡ p + 256 * y
low_octet p y h =
    let e : y * 2 ^ 8 ≡ 256 * y = omega arith in
    let z : p ≡ p + 256 * 0 = omega arith in
    rw e (ap (λ q. bit_or q (256 * y)) z ∙ (push_octet p 0 y h ∙ ap (λ q. p + 256 * q) (zero_or y)))

abbrev pub word : ℕ → ℕ → ℕ → ℕ → ℕ
word a b c d = a + 256 * (b + 256 * (c + 256 * d))

pub get_chars-word : (a b c d : ℕ) → a < 256 → b < 256 → c < 256 → get_chars a b c d ≡ word a b c d
unfolding get_chars
get_chars-word a b c d ha hb hc =
    let e1 : c * 2 ^ 16 ≡ 256 * (c * 2 ^ 8) = omega arith in
    let e2 : d * 2 ^ 24 ≡ 256 * (256 * (d * 2 ^ 8)) = omega arith in
    rw (low_octet a b ha, e1, push_octet a b (c * 2 ^ 8) ha, low_octet b c hb, e2)
      (rw
        (
          push_octet a (b + 256 * c) (256 * (d * 2 ^ 8)) ha,
          push_octet b c (d * 2 ^ 8) hb,
          low_octet c d hc,
        )
        refl)

-- The lowest octets of two words, and the others, are compared apart.
alike_step :
    (a p x y m : ℕ)
    → a < 256
    → p < 256
    → alike (0xDF + 256 * m) (a + 256 * x) (p + 256 * y) ≡ (alike 0xDF a p && alike m x y)
unfolding alike
alike_step a p x y m ha hp =
    let e = bit_xor-octet a p x y ha hp in
    let f = bit_and-octet (bit_xor a p) 0xDF (bit_xor x y) m (octet_xor a p ha hp) (omega arith) in
    rw (e, f) (ground arith)

pub alike-word :
    (a b c d p q u v : ℕ)
    → a < 256
    → b < 256
    → c < 256
    → p < 256
    → q < 256
    → u < 256
    → alike 0xDFDFDFDF (word a b c d) (word p q u v)
      ≡ (alike 0xDF a p && (alike 0xDF b q && (alike 0xDF c u && alike 0xDF d v)))
alike-word a b c d p q u v ha hb hc hp hq hu =
    alike_step a p _ _ 0xDFDFDF ha hp
    ∙ ap (λ z. alike 0xDF a p && z)
        (alike_step b q _ _ 0xDFDF hb hq
          ∙ ap (λ z. alike 0xDF b q && z) (alike_step c u d v 0xDF hc hu))

pub or_word :
    (a b c d : ℕ)
    → a < 256
    → b < 256
    → c < 256
    → bit_or (word a b c d) 0x20202020
      ≡ word (bit_or a 0x20) (bit_or b 0x20) (bit_or c 0x20) (bit_or d 0x20)
or_word a b c d ha hb hc =
    bit_or-octet a 0x20 _ 0x202020 ha (omega arith)
    ∙ ap (λ z. bit_or a 0x20 + 256 * z)
        (bit_or-octet b 0x20 _ 0x2020 hb (omega arith)
          ∙ ap (λ z. bit_or b 0x20 + 256 * z) (bit_or-octet c 0x20 d 0x20 hc (omega arith)))
