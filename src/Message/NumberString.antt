-- ===== src/Message/NumberString.antt =====
-- `number_string` of src/detail/number_string.hpp: a number in decimal, written from the end of a buffer
-- of `buf_size` octets. What the program writes is a list here; where it is longer than that, the
-- program has written before the start of the buffer.
use http_proto.Base.{
  ℕ, zero, suc, ◌+◌, ◌-◌, ◌*◌, ◌/◌, ◌%◌, ◌^◌, ◌≤◌, ◌<◌, ◌≡◌, ◌↔◌, ap, ◌∙◌, sym, true, false, [],
  ◌∷◌, ◌==◌, if◌then◌else◌, Bytes, length, arith, if_cases, Bool-cases, inl, inr, ltb, ltb→lt,
  ltb-false, ◌⊎◌,
}

abbrev pub buf_size : ℕ
buf_size = 18

-- `while(n > 0)`; `p` has what is written. One round for each digit.
unfoldable pub decimal : ℕ → ℕ → Bytes → Bytes
decimal zero n p = p
decimal (suc fuel) n p =
    let rest = decimal fuel (n / 10) ((b'0' + n % 10) ∷ p) in if n == 0 then p else rest

-- A number of 64 bits has at most 20 digits.
unfoldable pub number_string : ℕ → Bytes
number_string n = if n == 0 then b'0' ∷ [] else decimal 20 n []

-- What decimal digits stand for, behind digits that stand for `acc`.
unfoldable pub value : ℕ → Bytes → ℕ
value acc [] = acc
value acc (c ∷ s) = value (10 * acc + (c - b'0')) s

zero_test : (n : ℕ) → (n == 0) ≡ true → n ≡ 0
zero_test n h = ground arith

nonzero_test : (n : ℕ) → (n == 0) ≡ false → 0 < n
nonzero_test n h = ground arith

value-decimal : (fuel n : ℕ) (p : Bytes) → n < 10 ^ fuel → value 0 (decimal fuel n p) ≡ value n p
unfolding decimal value
value-decimal zero n p h = ap (λ k. value k p) (omega arith)
value-decimal (suc fuel) n p h =
    if_cases (λ s. value 0 s ≡ value n p) (n == 0) p (decimal fuel (n / 10) ((b'0' + n % 10) ∷ p))
      (λ z. ap (λ k. value k p) (sym (zero_test n z)))
      (λ z.
        value-decimal fuel (n / 10) ((b'0' + n % 10) ∷ p) (omega arith)
        ∙ ap (λ k. value k p) (omega arith))

lt_or_ge : (n m : ℕ) → (n < m) ⊎ (m ≤ n)
lt_or_ge n m = elim (Bool-cases (ltb n m)) [
  | inl h ↦ inl (ltb→lt n m h)
  | inr h ↦ inr (ltb-false n m h)
]

pow_pos : (k : ℕ) → 0 < 10 ^ k
pow_pos zero = omega arith
pow_pos (suc k) = omega (arith, pow_pos k)

length-decimal_ge : (fuel n : ℕ) (p : Bytes) → length p ≤ length (decimal fuel n p)
unfolding decimal
length-decimal_ge zero n p = omega arith
length-decimal_ge (suc fuel) n p =
    if_cases (λ s. length p ≤ length s) (n == 0) p (decimal fuel (n / 10) ((b'0' + n % 10) ∷ p))
      (λ _. omega arith) (λ _. omega (arith, length-decimal_ge fuel (n / 10) ((b'0' + n % 10) ∷ p)))

length-decimal_le :
    (fuel k n : ℕ) (p : Bytes) → n < 10 ^ k → length (decimal fuel n p) ≤ k + length p
unfolding decimal
length-decimal_le zero k n p h = omega arith
length-decimal_le (suc fuel) zero n p h =
    if_cases (λ s. length s ≤ 0 + length p) (n == 0) p (decimal fuel (n / 10) ((b'0' + n % 10) ∷ p))
      (λ _. omega arith) (λ z. absurd (omega (arith, nonzero_test n z)))
length-decimal_le (suc fuel) (suc k) n p h =
    if_cases (λ s. length s ≤ suc k + length p) (n == 0) p
      (decimal fuel (n / 10) ((b'0' + n % 10) ∷ p)) (λ _. omega arith)
      (λ _. omega (arith, length-decimal_le fuel k (n / 10) ((b'0' + n % 10) ∷ p) (omega arith)))

length-decimal_gt :
    (fuel k n : ℕ) (p : Bytes)
    → 10 ^ k ≤ n
    → n < 10 ^ fuel
    → k + length p < length (decimal fuel n p)
unfolding decimal
length-decimal_gt zero k n p l h = absurd (omega (arith, pow_pos k))
length-decimal_gt (suc fuel) zero n p l h =
    if_cases (λ s. 0 + length p < length s) (n == 0) p (decimal fuel (n / 10) ((b'0' + n % 10) ∷ p))
      (λ z. absurd (omega (arith, zero_test n z)))
      (λ _. omega (arith, length-decimal_ge fuel (n / 10) ((b'0' + n % 10) ∷ p)))
length-decimal_gt (suc fuel) (suc k) n p l h =
    if_cases (λ s. suc k + length p < length s) (n == 0) p
      (decimal fuel (n / 10) ((b'0' + n % 10) ∷ p))
      (λ z. absurd (omega (arith, zero_test n z, pow_pos k)))
      (λ _. omega (
        arith,
        length-decimal_gt fuel k (n / 10) ((b'0' + n % 10) ∷ p) (omega arith) (omega arith),
      ))

-- Read as decimal digits, what is written is the number, for every number whose digits fit in the
-- buffer, which are those below 10 ^ 18.
pub value-number_string : (n : ℕ) → n < 10 ^ 18 → value 0 (number_string n) ≡ n
unfolding number_string value
value-number_string n h =
    if_cases (λ s. value 0 s ≡ n) (n == 0) (b'0' ∷ []) (decimal 20 n []) (λ z. sym (zero_test n z))
      (λ _. value-decimal 20 n [] (omega arith))

fits : (n : ℕ) → n < 10 ^ 18 → length (number_string n) ≤ 18
unfolding number_string
fits n l =
    if_cases (λ s. length s ≤ 18) (n == 0) (b'0' ∷ []) (decimal 20 n []) (λ _. omega arith)
      (λ _. omega (arith, length-decimal_le 20 18 n [] l))

below : (n : ℕ) → n < 2 ^ 64 → length (decimal 20 n []) ≤ 18 → n < 10 ^ 18
below n h l = elim (lt_or_ge n (10 ^ 18)) [
  | inl a ↦ a
  | inr b ↦ absurd (omega (arith, length-decimal_gt 20 18 n [] b (omega arith)))
]

within : (n : ℕ) → n < 2 ^ 64 → length (number_string n) ≤ 18 → n < 10 ^ 18
unfolding number_string
within n h =
    if_cases (λ s. length s ≤ 18 → n < 10 ^ 18) (n == 0) (b'0' ∷ []) (decimal 20 n [])
      (λ z l. omega (arith, zero_test n z)) (λ z l. below n h l)

-- Of the numbers of 64 bits, just those below 10 ^ 18 fit in the buffer.
pub length-number_string :
    (n : ℕ) → n < 2 ^ 64 → (length (number_string n) ≤ buf_size) ↔ (n < 10 ^ 18)
unfolding number_string
length-number_string n h = (within n h, λ l. fits n l)
