-- ===== src/Base/Bits.antt =====
-- The native `bit_and`, `bit_or` and `bit_xor`, octet by octet.
use Prim.Native.Nat.{
  digits, bitwise, bit_and, bit_or, bit_xor, bit_and-bitwise, bit_or-bitwise, bit_xor-bitwise, min,
  max, differ, ℕ, zero, suc, ◌+◌, ◌*◌, ◌/◌, ◌%◌, ◌^◌, ◌≤◌, ◌<◌,
}
use mathlib.Core.Path.{◌≡◌, refl, ◌∙◌}
use native.Mathlib.Omega.{arith}
use mathlib.Core.Bool.{Bool, true, ◌&&◌}

-- A test of every number below a bound, by evaluation.
unfoldable pub all_below : ℕ → (ℕ → Bool) → Bool
all_below zero p = true
all_below (suc n) p = p n && all_below n p

pub all_below_lem : (n : ℕ) (p : ℕ → Bool) (x : ℕ) → all_below n p ≡ true → x < n → p x ≡ true
unfolding all_below
all_below_lem zero p x h lt = absurd (omega arith)
all_below_lem (suc n) p x h lt = ground (arith, all_below_lem n p x)

twice : (k u : ℕ) → 2 ^ suc k * u ≡ 2 * (2 ^ k * u)
twice k u = grind arith

halve : (k c u : ℕ) → (c + 2 ^ suc k * u) / 2 ≡ c / 2 + 2 ^ k * u
halve k c u = omega (arith, twice k u)

whole : (u : ℕ) → 0 + 2 ^ 0 * u ≡ u
whole u = omega arith

parity : (k c u : ℕ) → (c + 2 ^ suc k * u) % 2 ≡ c % 2
parity k c u = omega (arith, twice k u)

module _ (z : ℕ → ℕ) (f : ℕ → ℕ → ℕ) (law : (b : ℕ) → z b ≡ z (b / 2) * 2 + f 0 (b % 2)) where
  -- More fuel than digits changes nothing.
  fuel : (n m a b : ℕ) → a ≤ n → a ≤ m → digits z f n a b ≡ digits z f m a b
  fuel zero zero a b p q = refl
  fuel zero (suc m) zero b p q = refl
  fuel zero (suc m) (suc a) b p q = absurd (omega arith)
  fuel (suc n) zero zero b p q = refl
  fuel (suc n) zero (suc a) b p q = absurd (omega arith)
  fuel (suc n) (suc m) zero b p q = refl
  fuel (suc n) (suc m) (suc a) b p q =
      omega (arith, fuel n m (suc a / 2) (b / 2) (omega arith) (omega arith))

  step : (a b : ℕ) → bitwise z f a b ≡ bitwise z f (a / 2) (b / 2) * 2 + f (a % 2) (b % 2)
  step zero b = law b
  step (suc a) b = omega (arith, fuel a (suc a / 2) (suc a / 2) (b / 2) (omega arith) (omega arith))

  -- The low digits and the others are worked on apart.
  split :
      (k a b x y : ℕ)
      → a < 2 ^ k
      → b < 2 ^ k
      → bitwise z f (a + 2 ^ k * x) (b + 2 ^ k * y) ≡ bitwise z f a b + 2 ^ k * bitwise z f x y
  split zero zero zero x y p q = rw (whole x, whole y) (omega (arith, law 0))
  split zero zero (suc b) x y p q = absurd (omega arith)
  split zero (suc a) b x y p q = absurd (omega arith)
  split (suc k) a b x y p q =
      let ih = split k (a / 2) (b / 2) x y (omega arith) (omega arith) in
      let rest = twice k (bitwise z f x y) in
      step (a + 2 ^ suc k * x) (b + 2 ^ suc k * y)
      ∙ (rw (halve k a x, halve k b y, parity k a x, parity k b y, ih)
          (omega (arith, step a b, rest)))

min_law : (b : ℕ) → 0 ≡ 0 * 2 + min 0 (b % 2)
min_law b = omega arith

max_law : (b : ℕ) → b ≡ b / 2 * 2 + max 0 (b % 2)
max_law b = omega arith

differ_law : (b : ℕ) → b ≡ b / 2 * 2 + differ 0 (b % 2)
differ_law b = omega arith

-- The lowest octet and the others, for each of the three.
pub bit_and-octet :
    (a b x y : ℕ)
    → a < 256
    → b < 256
    → bit_and (a + 256 * x) (b + 256 * y) ≡ bit_and a b + 256 * bit_and x y
bit_and-octet a b x y p q =
    rw (bit_and-bitwise (a + 256 * x) (b + 256 * y), bit_and-bitwise a b, bit_and-bitwise x y)
      (split (λ b. 0) min min_law 8 a b x y p q)

pub bit_or-octet :
    (a b x y : ℕ)
    → a < 256
    → b < 256
    → bit_or (a + 256 * x) (b + 256 * y) ≡ bit_or a b + 256 * bit_or x y
bit_or-octet a b x y p q =
    rw (bit_or-bitwise (a + 256 * x) (b + 256 * y), bit_or-bitwise a b, bit_or-bitwise x y)
      (split (λ b. b) max max_law 8 a b x y p q)

pub bit_xor-octet :
    (a b x y : ℕ)
    → a < 256
    → b < 256
    → bit_xor (a + 256 * x) (b + 256 * y) ≡ bit_xor a b + 256 * bit_xor x y
bit_xor-octet a b x y p q =
    rw (bit_xor-bitwise (a + 256 * x) (b + 256 * y), bit_xor-bitwise a b, bit_xor-bitwise x y)
      (split (λ b. b) differ differ_law 8 a b x y p q)
