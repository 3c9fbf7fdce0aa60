-- ===== src/Tests/Samples.antt =====
-- A concrete grammar library, after the documentation of Boost.URL, and two requests.
use http_proto.Base.{
  ℕ, zero, suc, ◌+◌, ◌-◌, ◌*◌, ◌^◌, Bool, true, false, ◌&&◌, List, [], ◌∷◌, ◌++◌, ◌==◌, leb, ltb,
  if◌then◌else◌, length, Bytes, codes,
}
use http_proto.Field
use http_proto.Types.{
  Error, need_more, mismatch, leftover, out_of_fuel, end_of_range, invalid, request, http_1_1,
  no_metadata, Header,
}
use http_proto.Names.Methods.{get}
use http_proto.Grammar.{Result, ok, err, Rule, Grammar}

lower : ℕ → ℕ
lower c = if leb b'A' c && leb c b'Z' then c + 32 else c

ci_equal : Bytes → Bytes → Bool
unfolding lower
ci_equal [] [] = true
ci_equal [] (d ∷ ds) = false
ci_equal (c ∷ cs) [] = false
ci_equal (c ∷ cs) (d ∷ ds) = lower c == lower d && ci_equal cs ds

unfoldable pub skip_while : (ℕ → Bool) → Bytes → Bytes
skip_while f [] = []
skip_while f (c ∷ cs) = if f c then skip_while f cs else c ∷ cs

unfoldable pub take_while : (ℕ → Bool) → Bytes → Bytes
take_while f [] = []
take_while f (c ∷ cs) = if f c then c ∷ take_while f cs else []

unfoldable pub one_or_more : (ℕ → Bool) → Rule Bytes
unfolding take_while skip_while
one_or_more f [] = (err need_more, [])
one_or_more f (c ∷ cs) =
    if f c then (ok (c ∷ take_while f cs), skip_while f cs) else (err mismatch, c ∷ cs)

decimal : ℕ → Bytes → Result ℕ
decimal n [] = ok n
decimal n (c ∷ cs) =
    let next = decimal (10 * n + (c - b'0')) cs in
    if leb b'0' c && leb c b'9' && ltb n (2 ^ 60) then next else err invalid

u64 : Bytes → Result ℕ
unfolding decimal
u64 [] = err need_more
u64 (c ∷ cs) = decimal 0 (c ∷ cs)

is_end : Error → Bool
is_end end_of_range = true
is_end _ = false

module _ {A : Type 0} (next : Rule A) where
  elements : ℕ → List A → Result A × Bytes → Result (List A) × Bytes
  unfolding is_end
  elements zero xs r = (err out_of_fuel, [])
  elements (suc n) xs (ok a, rest) = elements n (xs ++ (a ∷ [])) (next rest)
  elements (suc n) xs (err e, rest) = if is_end e then (ok xs, rest) else (err e, rest)

at_least : {A : Type 0} → ℕ → Result (List A) × Bytes → Result (List A) × Bytes
at_least n (ok xs, rest) = if ltb (length xs) n then (err mismatch, rest) else (ok xs, rest)
at_least n (err e, rest) = (err e, rest)

all_of : {A : Type 0} → Result A × Bytes → Result A
all_of (ok a, []) = ok a
all_of (ok a, (c ∷ cs)) = err leftover
all_of (err e, rest) = err e

unfoldable pub one_delim : ℕ → Rule (Unit {0})
one_delim c [] = (err need_more, [])
one_delim c (d ∷ it) = if c == d then (ok tt, it) else (err mismatch, d ∷ it)

unfoldable pub with_first : {A B : Type 0} → A → Result B × Bytes → Result (A × B) × Bytes
with_first a (ok b, rest) = (ok (a, b), rest)
with_first a (err e, rest) = (err e, rest)

unfoldable pub both_of : {A B : Type 0} → Rule B → Result A × Bytes → Result (A × B) × Bytes
unfolding with_first
both_of s (ok a, it) = with_first a (s it)
both_of s (err e, rest) = (err e, rest)

unfoldable pub sample_grammar : Grammar
unfolding one_delim both_of ci_equal skip_while one_or_more u64 elements at_least all_of
sample_grammar = record {
  ci_is_equal = ci_equal;
  find_if_not = skip_while;
  vchars = λ c. leb 0x21 c && leb c 0x7e;
  digit_chars = λ c. leb b'0' c && leb c b'9';
  delim = one_delim;
  tuple = λ A B r s it. both_of s (r it);
  token = one_or_more;
  parse_u64 = u64;
  range = λ A first next n it. at_least n (elements next (length it + 1) [] (first it));
  parse_all = λ A rule s. all_of (rule s);
}

-- A request with no fields, in a buffer that the program owns.
abbrev pub start_line : Bytes
start_line = codes "GET / HTTP/1.1\r\n"

abbrev pub empty_request : Header
empty_request = record {
  kind = request;
  cbuf = start_line ++ codes "\r\n";
  owned = true;
  cap = 0;
  max_cap = 65536;
  size = 18;
  count = 0;
  prefix = 16;
  version = http_1_1;
  md = no_metadata;
  method = get;
  method_len = 3;
  target_len = 1;
  status_int = 0;
  status = 0;
  tab = [];
}

-- The body is compressed, then chunked, by two fields.
abbrev pub encoded_request : Header
encoded_request = record empty_request {
  cbuf = start_line ++ codes "Transfer-Encoding: gzip\r\nTransfer-Encoding: chunked\r\n\r\n";
  size = 71;
  count = 2;
  tab =
      record { np = 0; nn = 17; vp = 19; vn = 4; id = Field.transfer_encoding }
      ∷ record { np = 25; nn = 17; vp = 44; vn = 7; id = Field.transfer_encoding }
      ∷ [];
}
