-- ===== src/Prelude/Bits.antt =====
-- `x & 2^k` and `x | 2^k` in plain arithmetic, for every bit k.
pub mod Xor
use Prim.Native.Nat.{
  ℕ, zero, suc, ◌+◌, ◌*◌, ◌/◌, ◌%◌, ◌^◌, ◌≤◌, ◌<◌, min, max, bit_and, bit_or, digits,
  bit_and-bitwise, bit_or-bitwise,
}
use mathlib.Core.Path.{◌≡◌, refl, sym, ap, ◌∙◌}
use native.Mathlib.Decide.{dec_le}
use native.Mathlib.Omega.{arith}
use native.Mathlib.Nat.{pow-suc}

-- Induction that goes from a number to its half.
by_halves {ℓ} :
    (P : ℕ → Type ℓ) → P 0 → ((a : ℕ) → P (suc a / 2) → P (suc a)) → (n a : ℕ) → a ≤ n → P a
by_halves P base half n zero h = base
by_halves P base half zero (suc a) h = absurd (omega arith)
by_halves P base half (suc n) (suc a) h = half a (by_halves P base half n (suc a / 2) (omega arith))

-- An operation on binary digits that the recursion `digits` computes, with the first operand as
-- its fuel: `f` on two digits, `g` where the first operand has no digit left.
module _ (g : ℕ → ℕ) (f : ℕ → ℕ → ℕ) where
  more_fuel : (n a b : ℕ) → a ≤ n → digits g f (suc n) a b ≡ digits g f n a b
  more_fuel zero zero b h = refl
  more_fuel zero (suc a) b h = absurd (omega arith)
  more_fuel (suc n) zero b h = refl
  more_fuel (suc n) (suc a) b h = omega (arith, more_fuel n (suc a / 2) (b / 2) (omega arith))

  enough_fuel : (n m a b : ℕ) → a ≤ m → m ≤ n → digits g f n a b ≡ digits g f m a b
  enough_fuel zero m a b h k =
      let same : m ≡ 0 = omega arith in ap (λ t. digits g f t a b) (sym same)
  enough_fuel (suc n) m a b h k = elim (dec_le m n) [
    | yes below ↦ more_fuel n a b (omega arith) ∙ enough_fuel n m a b h below
    | no above ↦ let same : m ≡ suc n = omega arith in ap (λ t. digits g f t a b) (sym same)
  ]

  -- The lowest digit of the result, and the operation on the halves.
  lowest_digit :
      (op : ℕ → ℕ → ℕ)
      → ((a b : ℕ) → op a b ≡ digits g f a a b)
      → ((b : ℕ) → g b ≡ g (b / 2) * 2 + f 0 (b % 2))
      → (a b : ℕ) → op a b ≡ op (a / 2) (b / 2) * 2 + f (a % 2) (b % 2)
  lowest_digit op law empty zero b = omega (arith, law 0 b, law 0 (b / 2), empty b)
  lowest_digit op law empty (suc a) b = omega (
    arith,
    law (suc a) b,
    law (suc a / 2) (b / 2),
    enough_fuel a (suc a / 2) (suc a / 2) (b / 2) (omega arith) (omega arith),
  )

bit_and_step : (a b : ℕ) → bit_and a b ≡ bit_and (a / 2) (b / 2) * 2 + min (a % 2) (b % 2)
bit_and_step = lowest_digit (λ b. zero) min bit_and bit_and-bitwise (λ b. omega arith)

bit_or_step : (a b : ℕ) → bit_or a b ≡ bit_or (a / 2) (b / 2) * 2 + max (a % 2) (b % 2)
bit_or_step = lowest_digit (λ b. b) max bit_or bit_or-bitwise (λ b. omega arith)

bit_and-zero : (a : ℕ) → bit_and a 0 ≡ 0
bit_and-zero a =
    by_halves (λ t. bit_and t 0 ≡ 0) (bit_and-bitwise 0 0)
      (λ t h. omega (arith, bit_and_step (suc t) 0, h)) a a (omega arith)

bit_or-zero : (a : ℕ) → bit_or a 0 ≡ a
bit_or-zero a =
    by_halves (λ t. bit_or t 0 ≡ t) (bit_or-bitwise 0 0)
      (λ t h. omega (arith, bit_or_step (suc t) 0, h)) a a (omega arith)

-- Bit `k` of a number.
unfoldable pub bit : ℕ → ℕ → ℕ
bit zero x = x % 2
bit (suc k) x = bit k (x / 2)

pub bit-le : (k x : ℕ) → bit k x ≤ 1
unfolding bit
bit-le zero x = omega arith
bit-le (suc k) x = bit-le k (x / 2)

-- A doubled operand has a 0 for its lowest digit.
halve_double : (b : ℕ) → b * 2 / 2 ≡ b
halve_double b = omega arith

bit_and_double : (x b : ℕ) → bit_and x (b * 2) ≡ bit_and (x / 2) b * 2
bit_and_double x b = omega (arith, bit_and_step x (b * 2), ap (bit_and (x / 2)) (halve_double b))

bit_or_double : (x b : ℕ) → bit_or x (b * 2) ≡ bit_or (x / 2) b * 2 + x % 2
bit_or_double x b = omega (arith, bit_or_step x (b * 2), ap (bit_or (x / 2)) (halve_double b))

pub bit_and_one : (a : ℕ) → bit_and a 1 ≡ a % 2
bit_and_one a = omega (arith, bit_and_step a 1, bit_and-zero (a / 2))

bit_or_one : (a : ℕ) → bit_or a 1 + a % 2 ≡ a + 1
bit_or_one a = omega (arith, bit_or_step a 1, bit_or-zero (a / 2))

pub bit_and_pow : (k x : ℕ) → bit_and x (2 ^ k) ≡ bit k x * 2 ^ k
unfolding bit
bit_and_pow zero x = omega (arith, bit_and_one x)
bit_and_pow (suc k) x =
    rw (pow-suc 2 k) (omega (arith, bit_and_double x (2 ^ k), bit_and_pow k (x / 2)))

-- Setting bit `k` adds 2^k where the bit was clear.
pub bit_or_pow : (k x : ℕ) → bit_or x (2 ^ k) + bit k x * 2 ^ k ≡ x + 2 ^ k
unfolding bit
bit_or_pow zero x = omega (arith, bit_or_one x)
bit_or_pow (suc k) x =
    rw (pow-suc 2 k) (omega (arith, bit_or_double x (2 ^ k), bit_or_pow k (x / 2)))

-- The top bit of a number of `k + 1` bits.
pub bit_top_clear : (k x : ℕ) → x < 2 ^ k → bit k x ≡ 0
unfolding bit
bit_top_clear zero x h = omega arith
bit_top_clear (suc k) x h = bit_top_clear k (x / 2) (omega (arith, pow-suc 2 k))

pub bit_top_set : (k x : ℕ) → x < 2 ^ suc k → 2 ^ k ≤ x → bit k x ≡ 1
unfolding bit
bit_top_set zero x w h = omega arith
bit_top_set (suc k) x w h =
    bit_top_set k (x / 2) (omega (arith, pow-suc 2 (suc k))) (omega (arith, pow-suc 2 k))
