-- ===== src/Grammar.antt =====
-- What the program uses of Boost.URL's grammar library, which is not part of the repository: rules
-- as functions of the input that is left, and the library's combinators as a parameter.
use http_proto.Base.{ℕ, ◌≡◌, Bool, true, false, ◌&&◌, List, ◌∷◌, ◌++◌, leb, Bytes, All}
use http_proto.Types.{Error}

-- `system::result<T>`.
pub data Result {ℓ} (A : Type ℓ) : Type ℓ where
  ok : A → Result A
  err : Error → Result A

-- `parse(it, end)` of a rule: from the octets [it, end) to the result and the octets left after
-- `it`, which a rule may advance also when it fails.
abbrev pub Rule : Type 0 → Type 0
Rule A = Bytes → Result A × Bytes

pub record Grammar : Type 1 where
  -- `grammar::ci_is_equal`
  pub ci_is_equal : Bytes → Bytes → Bool
  -- `grammar::find_if_not`: the input from the first octet outside the set
  pub find_if_not : (ℕ → Bool) → Bytes → Bytes
  -- `grammar::vchars`
  pub vchars : ℕ → Bool
  -- `grammar::digit_chars`
  pub digit_chars : ℕ → Bool
  -- `grammar::delim_rule(c)`
  pub delim : ℕ → Rule (Unit {0})
  -- `grammar::tuple_rule`, of two rules; a longer tuple is nested to the right, and a rule without
  -- a value, or under `squelch`, gives a `Unit`
  pub tuple : (A B : Type 0) → Rule A → Rule B → Rule (A × B)
  -- `grammar::token_rule`: one or more octets of the set
  pub token : (ℕ → Bool) → Rule Bytes
  -- `grammar::parse(s, unsigned_rule<std::uint64_t>)`
  pub parse_u64 : Bytes → Result ℕ
  -- `grammar::range_rule(first, next, N)`
  pub range : (A : Type 0) → Rule A → Rule A → ℕ → Rule (List A)
  -- `grammar::parse(s, rule)`: the rule has to match the whole of `s`
  pub parse_all : (A : Type 0) → Rule A → Bytes → Result A

-- What is documented of the rules that header::parse is made of. `token-stops`: a token ends at the
-- first octet outside the set.
pub record IsGrammar (g : Grammar) : Type 1 where
  pub digit_chars-digit : (c : ℕ) → g.digit_chars c ≡ (leb b'0' c && leb c b'9')
  pub delim_same : (c : ℕ) (rest : Bytes) → g.delim c (c ∷ rest) ≡ (ok tt, rest)
  pub tuple_both :
      (A B : Type 0) (r : Rule A) (s : Rule B) (it : Bytes) (a : A) (mid : Bytes) (b : B)
      (rest : Bytes)
      → r it ≡ (ok a, mid)
      → s mid ≡ (ok b, rest)
      → g.tuple A B r s it ≡ (ok (a, b), rest)
  pub token_stops :
      (f : ℕ → Bool) (c : ℕ) (t : Bytes) (d : ℕ) (rest : Bytes)
      → All (λ x. f x ≡ true) (c ∷ t)
      → f d ≡ false
      → g.token f ((c ∷ t) ++ (d ∷ rest)) ≡ (ok (c ∷ t), d ∷ rest)
