-- ===== src/Crc32.antt =====
-- ExDbg::crc32 of j2534_OverIP/ExDbg.h: the identity of a process in its messages is the checksum
-- of its path.
pub mod Table
use j2534_oip_wrapper.Prelude.{
  ℕ, zero, suc, ◌+◌, ◌*◌, ◌/◌, ◌%◌, ◌≤◌, ◌<◌, ◌≡◌, refl, sym, ap, ◌∙◌, arith, List, [], ◌∷◌, Bool,
  true, false, Bool-cases, inl, inr, get_or, All, ◌==◌, if◌then◌else◌,
}
use j2534_oip_wrapper.Prelude.Bytes.{IsByte}
use j2534_oip_wrapper.Prelude.Bits.Xor.{
  bit_xor_step, bit_xor-zero, zero-bit_xor, bit_xor_assoc, bit_xor_double, shift_left, shift_right,
  shift_right-xor, join_digits, bit_and_byte,
}
use Prim.Native.Nat.{bit_and, bit_xor}

abbrev polynomial : ℕ
polynomial = 0xEDB88320

-- One round of the inner loop.
unfoldable pub table_round : ℕ → ℕ
table_round crc = if bit_and crc 1 == 0 then crc / 2 else bit_xor polynomial (crc / 2)

unfoldable pub table_rounds : ℕ → ℕ → ℕ
table_rounds zero crc = crc
table_rounds (suc j) crc = table_rounds j (table_round crc)

-- The entries of the table from `i` on.
unfoldable pub crc_table_from : ℕ → ℕ → List ℕ
crc_table_from i zero = []
crc_table_from i (suc n) = table_rounds 8 i ∷ crc_table_from (suc i) n

unfoldable pub crc_table : List ℕ
crc_table = crc_table_from 0 256

-- The loop over the bytes. A `char` above 127 is negative, which changes only the digits that the
-- mask takes away.
unfoldable pub crc_bytes : ℕ → List ℕ → ℕ
crc_bytes crc [] = crc
crc_bytes crc (c ∷ cs) =
    crc_bytes (bit_xor (get_or crc_table (bit_and (bit_xor crc c) 0xFF) 0) (crc / 256)) cs

unfoldable pub crc32 : List ℕ → ℕ
crc32 path = bit_xor (crc_bytes 0xFFFFFFFF path) 0xFFFFFFFF

-- The checksum of the standard, without a table: each byte is added to the register, whose 8 low
-- digits are then divided by the polynomial one after the other.
abbrev pub divide_digit : ℕ → ℕ
divide_digit r = if r % 2 == 0 then r / 2 else bit_xor (r / 2) polynomial

abbrev pub divide_digits : ℕ → ℕ → ℕ
divide_digits zero r = r
divide_digits (suc n) r = divide_digits n (divide_digit r)

abbrev pub remainder : ℕ → List ℕ → ℕ
remainder r [] = r
remainder r (c ∷ cs) = remainder (divide_digits 8 (bit_xor r c)) cs

abbrev pub checksum : List ℕ → ℕ
checksum bytes = bit_xor (remainder 0xFFFFFFFF bytes) 0xFFFFFFFF
