-- ===== src/Prelude/Bits/Xor.antt =====
-- Exclusive or in plain arithmetic: its lowest digit, its shifts and its algebra.
use Prim.Native.Nat.{
  ℕ, zero, suc, ◌+◌, ◌*◌, ◌/◌, ◌%◌, ◌<◌, bit_and, bit_xor, differ, bit_xor-bitwise,
}
use mathlib.Core.Path.{◌≡◌, refl, sym, ap, ◌∙◌}
use mathlib.Core.Logic.{◌⊎◌, inl, inr}
use native.Mathlib.Omega.{arith}
use j2534_oip_wrapper.Prelude.Bits.{by_halves, lowest_digit, bit_and_step, bit_and_one}

digit_cases : (a : ℕ) → a < 2 → (a ≡ 0) ⊎ (a ≡ 1)
digit_cases zero h = inl refl
digit_cases (suc a) h = inr (omega arith)

differ_digits : (a b : ℕ) → a < 2 → b < 2 → differ a b ≡ (a + b) % 2
differ_digits a b h k = elim (digit_cases a h) [
  | inl p ↦ elim (digit_cases b k) [ inl q ↦ rw (p, q) refl | inr q ↦ rw (p, q) refl ]
  | inr p ↦ elim (digit_cases b k) [ inl q ↦ rw (p, q) refl | inr q ↦ rw (p, q) refl ]
]

pub bit_xor_step : (a b : ℕ) → bit_xor a b ≡ bit_xor (a / 2) (b / 2) * 2 + (a + b) % 2
bit_xor_step a b =
    lowest_digit (λ t. t) differ bit_xor bit_xor-bitwise (λ t. omega arith) a b
    ∙ ap (λ d. bit_xor (a / 2) (b / 2) * 2 + d)
        (differ_digits (a % 2) (b % 2) (omega arith) (omega arith) ∙ omega arith)

half_xor : (a b : ℕ) → bit_xor a b / 2 ≡ bit_xor (a / 2) (b / 2)
half_xor a b = omega (arith, bit_xor_step a b)

pub zero-bit_xor : (b : ℕ) → bit_xor 0 b ≡ b
zero-bit_xor b = bit_xor-bitwise 0 b

pub bit_xor-zero : (a : ℕ) → bit_xor a 0 ≡ a
bit_xor-zero a =
    by_halves (λ t. bit_xor t 0 ≡ t) (bit_xor-bitwise 0 0)
      (λ t h. omega (arith, bit_xor_step (suc t) 0, h)) a a (omega arith)

low_xor : (a b : ℕ) → bit_xor a b % 2 ≡ (a + b) % 2
low_xor a b = omega (arith, bit_xor_step a b)

parity : (a b c : ℕ) → (bit_xor a b + c) % 2 ≡ (a + bit_xor b c) % 2
parity a b c = omega (arith, low_xor a b, low_xor b c)

-- Two results with the same halves and the same lowest digit.
from_digits :
    (a b c d : ℕ)
    → bit_xor (a / 2) (b / 2) ≡ bit_xor (c / 2) (d / 2)
    → (a + b) % 2 ≡ (c + d) % 2
    → bit_xor a b ≡ bit_xor c d
from_digits a b c d halves low =
    bit_xor_step a b
    ∙ ap (λ h. h * 2 + (a + b) % 2) halves
    ∙ ap (λ l. bit_xor (c / 2) (d / 2) * 2 + l) low
    ∙ sym (bit_xor_step c d)

pub bit_xor_assoc : (a b c : ℕ) → bit_xor (bit_xor a b) c ≡ bit_xor a (bit_xor b c)
bit_xor_assoc a =
    by_halves (λ t. (b c : ℕ) → bit_xor (bit_xor t b) c ≡ bit_xor t (bit_xor b c))
      (λ b c. ap (λ s. bit_xor s c) (zero-bit_xor b) ∙ sym (zero-bit_xor (bit_xor b c))) step a a
      (omega arith)
  where
    step :
        (t : ℕ)
        → ((b c : ℕ) → bit_xor (bit_xor (suc t / 2) b) c ≡ bit_xor (suc t / 2) (bit_xor b c))
        → (b c : ℕ) → bit_xor (bit_xor (suc t) b) c ≡ bit_xor (suc t) (bit_xor b c)
    step t h b c =
        from_digits (bit_xor (suc t) b) c (suc t) (bit_xor b c)
          (ap (λ s. bit_xor s (c / 2)) (half_xor (suc t) b)
            ∙ h (b / 2) (c / 2)
            ∙ ap (bit_xor (suc t / 2)) (sym (half_xor b c)))
          (parity (suc t) b c)

pub bit_xor_comm : (a b : ℕ) → bit_xor a b ≡ bit_xor b a
bit_xor_comm a =
    by_halves (λ t. (b : ℕ) → bit_xor t b ≡ bit_xor b t)
      (λ b. zero-bit_xor b ∙ sym (bit_xor-zero b))
      (λ t h b. from_digits (suc t) b b (suc t) (h (b / 2)) (omega arith)) a a (omega arith)

-- An operand that is shifted to the left.
halve_double : (b : ℕ) → b * 2 / 2 ≡ b
halve_double b = omega arith

pub bit_xor_double : (a b : ℕ) → bit_xor a (b * 2) ≡ bit_xor (a / 2) b * 2 + a % 2
bit_xor_double a b = omega (arith, bit_xor_step a (b * 2), ap (bit_xor (a / 2)) (halve_double b))

-- The low `k` digits apart from the others.
abbrev pub shift_left : ℕ → ℕ → ℕ
shift_left zero b = b
shift_left (suc k) b = shift_left k b * 2

abbrev pub shift_right : ℕ → ℕ → ℕ
shift_right zero a = a
shift_right (suc k) a = shift_right k (a / 2)

pub shift_right-xor :
    (k a b : ℕ) → shift_right k (bit_xor a b) ≡ bit_xor (shift_right k a) (shift_right k b)
shift_right-xor zero a b = refl
shift_right-xor (suc k) a b = ap (shift_right k) (half_xor a b) ∙ shift_right-xor k (a / 2) (b / 2)

-- A number of `k` digits beside one that is shifted past them.
pub join_digits :
    (k a b : ℕ) → shift_right k a ≡ 0 → bit_xor a (shift_left k b) ≡ a + shift_left k b
join_digits zero a b h = omega (arith, ap (λ t. bit_xor t b) h, zero-bit_xor b)
join_digits (suc k) a b h =
    omega (arith, bit_xor_double a (shift_left k b), join_digits k (a / 2) b h)

-- A mask of ones, one digit longer at a time.
mask_step : (a m : ℕ) → bit_and a (m * 2 + 1) ≡ bit_and (a / 2) m * 2 + a % 2
mask_step a m =
    let half : (m * 2 + 1) / 2 ≡ m = omega arith in
    omega (arith, bit_and_step a (m * 2 + 1), ap (bit_and (a / 2)) half)

bit_and_3 : (a : ℕ) → bit_and a 3 ≡ a % 4
bit_and_3 a = omega (arith, mask_step a 1, bit_and_one (a / 2))

bit_and_7 : (a : ℕ) → bit_and a 7 ≡ a % 8
bit_and_7 a = omega (arith, mask_step a 3, bit_and_3 (a / 2))

bit_and_15 : (a : ℕ) → bit_and a 15 ≡ a % 16
bit_and_15 a = omega (arith, mask_step a 7, bit_and_7 (a / 2))

bit_and_31 : (a : ℕ) → bit_and a 31 ≡ a % 32
bit_and_31 a = omega (arith, mask_step a 15, bit_and_15 (a / 2))

bit_and_63 : (a : ℕ) → bit_and a 63 ≡ a % 64
bit_and_63 a = omega (arith, mask_step a 31, bit_and_31 (a / 2))

bit_and_127 : (a : ℕ) → bit_and a 127 ≡ a % 128
bit_and_127 a = omega (arith, mask_step a 63, bit_and_63 (a / 2))

pub bit_and_byte : (a : ℕ) → bit_and a 255 ≡ a % 256
bit_and_byte a = omega (arith, mask_step a 127, bit_and_127 (a / 2))
