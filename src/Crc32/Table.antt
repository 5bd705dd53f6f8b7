-- ===== src/Crc32/Table.antt =====
-- The table of ExDbg::crc32 beside the division digit by digit.
use j2534_oip_wrapper.Prelude.{
  ℕ, zero, suc, ◌+◌, ◌*◌, ◌/◌, ◌%◌, ◌<◌, ◌≡◌, refl, sym, ap, ◌∙◌, arith, List, [], ◌∷◌, Bool-cases,
  inl, inr, get_or, All, ◌==◌, if◌then◌else◌,
}
use j2534_oip_wrapper.Prelude.Bytes.{IsByte}
use j2534_oip_wrapper.Prelude.Bits.Xor.{
  bit_xor-zero, bit_xor_assoc, bit_xor_double, bit_xor_comm, shift_left, shift_right,
  shift_right-xor, join_digits, bit_and_byte,
}
use j2534_oip_wrapper.Prelude.Bits.{bit_and_one}
use j2534_oip_wrapper.Crc32.{
  polynomial, table_round, table_rounds, crc_table_from, crc_table, crc_bytes, crc32, divide_digit,
  divide_digits, remainder, checksum,
}
use Prim.Native.Nat.{bit_and, bit_xor}

table_round_lem : (r : ℕ) → table_round r ≡ divide_digit r
unfolding table_round
table_round_lem r = rw (bit_and_one r, bit_xor_comm polynomial (r / 2)) refl

table_rounds_lem : (n r : ℕ) → table_rounds n r ≡ divide_digits n r
unfolding table_rounds
table_rounds_lem zero r = refl
table_rounds_lem (suc n) r =
    ap (table_rounds n) (table_round_lem r) ∙ table_rounds_lem n (divide_digit r)

table-entry : (n i k : ℕ) → k < n → get_or (crc_table_from i n) k 0 ≡ table_rounds 8 (i + k)
unfolding crc_table_from
table-entry zero i k h = absurd (omega arith)
table-entry (suc n) i zero h = ap (table_rounds 8) (omega arith)
table-entry (suc n) i (suc k) h =
    table-entry n (suc i) k (omega arith) ∙ ap (table_rounds 8) (omega arith)

-- The digits above the lowest one are only shifted.
divide_digit-xor : (a b : ℕ) → divide_digit (bit_xor a (b * 2)) ≡ bit_xor (divide_digit a) b
divide_digit-xor a b = elim (Bool-cases (a % 2 == 0)) [
  | inl e ↦ rw (lowest, e, halved, if◌then◌else◌) refl
  | inr e ↦ rw (lowest, e, halved, if◌then◌else◌) swap
]
  where
    lowest : bit_xor a (b * 2) % 2 ≡ a % 2
    lowest = omega (arith, bit_xor_double a b)

    halved : bit_xor a (b * 2) / 2 ≡ bit_xor (a / 2) b
    halved = omega (arith, bit_xor_double a b)

    swap : bit_xor (bit_xor (a / 2) b) polynomial ≡ bit_xor (bit_xor (a / 2) polynomial) b
    swap =
        bit_xor_assoc (a / 2) b polynomial
        ∙ ap (bit_xor (a / 2)) (bit_xor_comm b polynomial)
        ∙ sym (bit_xor_assoc (a / 2) polynomial b)

divide_digits-xor :
    (n a b : ℕ) → divide_digits n (bit_xor a (shift_left n b)) ≡ bit_xor (divide_digits n a) b
divide_digits-xor zero a b = refl
divide_digits-xor (suc n) a b =
    ap (divide_digits n) (divide_digit-xor a (shift_left n b))
    ∙ divide_digits-xor n (divide_digit a) b

low_byte : (r : ℕ) → bit_xor (r % 256) (shift_left 8 (r / 256)) ≡ r
low_byte r = omega (arith, join_digits 8 (r % 256) (r / 256) (omega arith))

-- A byte takes no part in the digits above the low 8.
high_digits : (r c : ℕ) → IsByte c → bit_xor r c / 256 ≡ r / 256
high_digits r c h =
    let gone : shift_right 8 c ≡ 0 = omega arith in
    let e =
      shift_right-xor 8 r c
      ∙ ap (bit_xor (shift_right 8 r)) gone
      ∙ bit_xor-zero (shift_right 8 r) in
    omega (arith, e)

crc_round :
    (r c : ℕ)
    → IsByte c
    → bit_xor (get_or crc_table (bit_and (bit_xor r c) 0xFF) 0) (r / 256)
      ≡ divide_digits 8 (bit_xor r c)
unfolding crc_table
crc_round r c h =
    let low = bit_xor r c % 256 in
    let found : get_or (crc_table_from 0 256) low 0 ≡ divide_digits 8 low =
      table-entry 256 0 low (omega arith)
      ∙ ap (table_rounds 8) (omega arith)
      ∙ table_rounds_lem 8 low in
    rw (bit_and_byte (bit_xor r c), found, ← high_digits r c h)
      (sym (divide_digits-xor 8 low (bit_xor r c / 256))
        ∙ ap (divide_digits 8) (low_byte (bit_xor r c)))

crc_bytes_lem : (bytes : List ℕ) (r : ℕ) → All IsByte bytes → crc_bytes r bytes ≡ remainder r bytes
unfolding crc_bytes
crc_bytes_lem [] r h = refl
crc_bytes_lem (c ∷ cs) r h =
    ap (λ t. crc_bytes t cs) (crc_round r c h.0)
    ∙ crc_bytes_lem cs (divide_digits 8 (bit_xor r c)) h.1

-- The table-driven checksum of a path of bytes is the one that divides digit by digit.
pub crc32-checksum : (path : List ℕ) → All IsByte path → crc32 path ≡ checksum path
unfolding crc32
crc32-checksum path h = ap (λ t. bit_xor t 0xFFFFFFFF) (crc_bytes_lem path 0xFFFFFFFF h)
