-- ===== src/Tests/Headers.antt =====
-- A request is parsed.
use http_proto.Base.{
  ℕ, ◌≡◌, ◌≢◌, refl, ap, ◌∙◌, Bool, true, false, ◌&&◌, [], ◌∷◌, ◌++◌, ◌==◌, Bytes, codes, All,
  arith, if_cases,
}
use http_proto.Types.{http_1_1, Header, success, failure, out_of_fuel, reversed_range}
use http_proto.Grammar.{Result, ok, err, Rule, IsGrammar}
use http_proto.Rules.Own.{IsOwn, value, AllOwn, OwnGrammar}
use http_proto.Rfc.Chars.{tchars}
use http_proto.Rules.StartLine.{target_chars}
use http_proto.Rules.Value.{field_vchar}
use http_proto.Rules.Own
use http_proto.Rules.Reads.{FieldText, IsField, Content}
use http_proto.Fields.Represents.{Represents}
use http_proto.Header.Parse.{Limits, parse_fields, rounds, parse}
use http_proto.Header.Read.{start_of, line}
use http_proto.Header.ReadStart.{Start, request_start, with_start, IsStart}
use http_proto.Header.Parsed.{parse-Represents}
use http_proto.Header.Rounds.{parse_fields-ends}
use http_proto.Tests.Samples.{
  sample_grammar, one_delim, both_of, with_first, one_or_more, take_while, skip_while,
  empty_request,
}

while_lem :
    (f : ℕ → Bool) (t : Bytes) (d : ℕ) (rest : Bytes)
    → All (λ x. f x ≡ true) t
    → f d ≡ false
    → (take_while f (t ++ (d ∷ rest)) ≡ t) × (skip_while f (t ++ (d ∷ rest)) ≡ d ∷ rest)
unfolding take_while skip_while
while_lem f [] d rest h e = (rw e refl, rw e refl)
while_lem f (c ∷ t) d rest (h, hs) e =
    let (p, q) = while_lem f t d rest hs e in (rw h (ap (λ z. c ∷ z) p), rw h q)

token_stops :
    (f : ℕ → Bool) (c : ℕ) (t : Bytes) (d : ℕ) (rest : Bytes)
    → All (λ x. f x ≡ true) (c ∷ t)
    → f d ≡ false
    → one_or_more f ((c ∷ t) ++ (d ∷ rest)) ≡ (ok (c ∷ t), d ∷ rest)
unfolding one_or_more
token_stops f c t d rest (h, hs) e = let (p, q) = while_lem f t d rest hs e in rw (h, p, q) refl

tuple_both :
    (A B : Type 0) (r : Rule A) (s : Rule B) (it : Bytes) (a : A) (mid : Bytes) (b : B)
    (rest : Bytes)
    → r it ≡ (ok a, mid)
    → s mid ≡ (ok b, rest)
    → both_of s (r it) ≡ (ok (a, b), rest)
unfolding both_of with_first
tuple_both A B r s it a mid b rest p q = ap (both_of s) p ∙ ap (with_first a) q

delim_same : (c : ℕ) (rest : Bytes) → one_delim c (c ∷ rest) ≡ (ok tt, rest)
unfolding one_delim
delim_same c rest = ground arith

sample-IsGrammar : IsGrammar sample_grammar
unfolding sample_grammar
sample-IsGrammar = record {
  digit_chars-digit = λ c. refl;
  delim_same = delim_same;
  tuple_both = tuple_both;
  token_stops = token_stops;
}

both_of-IsOwn :
    (A B : Type 0) (s : Rule B) (r : Result A × Bytes) → AllOwn s → IsOwn r → IsOwn (both_of s r)
unfolding both_of
both_of-IsOwn A B s (ok a, it) hs i = first_of (s it) (hs it)
  where
    first_of : (q : Result B × Bytes) → IsOwn q → IsOwn (with_first a q)
    first_of (ok b, rest) j = value
    first_of (err e, rest) (Own.error h) = Own.error h
both_of-IsOwn A B s (err e, rest) hs (Own.error h) = Own.error h

one_delim-IsOwn : (c : ℕ) → AllOwn (one_delim c)
unfolding one_delim
one_delim-IsOwn c [] = Own.error (ground arith)
one_delim-IsOwn c (d ∷ it) =
    if_cases IsOwn (c == d) _ _ (λ _. value) (λ _. Own.error (ground arith))

sample-OwnGrammar : OwnGrammar sample_grammar
unfolding sample_grammar
sample-OwnGrammar = record {
  delim_own = one_delim-IsOwn;
  tuple_own = λ A B r s hr hs it. both_of-IsOwn A B s (r it) hs (hr it);
}

abbrev limits : Limits
limits = record { max_size = 8192; max_start_line = 4096; max_field = 4096; max_fields = 100 }

-- "Content-Length: 5"
abbrev length_field : FieldText
length_field = record {
  first = b'C';
  rest = codes "ontent-Length";
  before = codes " ";
  value = codes "5";
  after = [];
}

abbrev get_start : Start
get_start = request_start b'G' (codes "ET") b'/' [] http_1_1

abbrev received : Header
received = record empty_request {
  cbuf = codes "GET / HTTP/1.1\r\nContent-Length: 5\r\n\r\nhello";
  size = 0;
  prefix = 0;
}

every : (ℕ → Bool) → Bytes → Bool
every f [] = true
every f (c ∷ s) = f c && every f s

every-All : (f : ℕ → Bool) (s : Bytes) → every f s ≡ true → All (λ x. f x ≡ true) s
unfolding every
every-All f [] h = tt
every-All f (c ∷ s) h = (ground arith, every-All f s (ground arith))

get_start-IsStart : IsStart get_start
unfolding every tchars target_chars
get_start-IsStart = (every-All tchars (codes "GET") refl, every-All target_chars (codes "/") refl)

length_field-IsField : IsField length_field
unfolding tchars field_vchar every
length_field-IsField = record {
  name_is = every-All tchars (codes "Content-Length") refl;
  before_is = (refl, tt);
  value_is = Content.single refl;
  after_is = tt;
}

parse-Represents_example :
    (h : Header) × (parse sample_grammar 42 limits received ≡ (h, success))
    × Represents h (codes "GET / HTTP/1.1\r\n") (line length_field ∷ [])
    × (start_of h ≡ start_of (with_start get_start received))
parse-Represents_example =
    parse-Represents sample_grammar limits 42 received get_start (length_field ∷ []) (codes "hello")
      sample-IsGrammar get_start-IsStart (length_field-IsField, tt) refl
      (record { owned = refl; prefix_is = refl; size_is = refl; count_is = refl; table_is = refl })
      refl (omega arith) (omega arith) (omega arith) (omega arith) (omega arith)

parse_fields-ends_example :
    ((parse_fields (rounds limits received) sample_grammar limits 42 received).1
      ≢ failure out_of_fuel)
    × ((parse_fields (rounds limits received) sample_grammar limits 42 received).1
        ≢ failure reversed_range)
parse_fields-ends_example =
    parse_fields-ends sample_grammar limits 42 received sample-OwnGrammar (omega arith)
      (omega arith)
