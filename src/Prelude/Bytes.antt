-- ===== src/Prelude/Bytes.antt =====
-- Little-endian words on byte lists: the layout of packed structs and of integers on x86.
use Prim.Native.Nat.{ℕ, ◌+◌, ◌*◌, ◌/◌, ◌%◌, ◌^◌, ◌<◌}
use mathlib.Core.Path.{◌≡◌, refl}
use mathlib.Core.List.{List, [], ◌∷◌, ◌++◌}
use native.Mathlib.Omega.{arith}
use j2534_oip_wrapper.Prelude.Lists.{length, take, drop, get_or, All}

abbrev pub IsByte : ℕ → Type 0
IsByte b = b < 256

abbrev pub IsU32 : ℕ → Type 0
IsU32 n = n < 2 ^ 32

-- The bytes of a `uint16_t` and a `uint32_t` in memory.
unfoldable pub to_le16 : ℕ → List ℕ
to_le16 n = n % 256 ∷ n / 256 % 256 ∷ []

unfoldable pub to_le32 : ℕ → List ℕ
to_le32 n = n % 256 ∷ n / 2 ^ 8 % 256 ∷ n / 2 ^ 16 % 256 ∷ n / 2 ^ 24 % 256 ∷ []

-- The word that the first bytes of a list hold; a byte that is missing reads as 0.
unfoldable pub of_le16 : List ℕ → ℕ
of_le16 bs = get_or bs 0 0 + get_or bs 1 0 * 2 ^ 8

unfoldable pub of_le32 : List ℕ → ℕ
of_le32 bs = get_or bs 0 0 + get_or bs 1 0 * 2 ^ 8 + get_or bs 2 0 * 2 ^ 16 + get_or bs 3 0 * 2 ^ 24

-- `length` bytes from index `offset` on.
abbrev pub slice : ℕ → ℕ → List ℕ → List ℕ
slice offset size bs = take size (drop offset bs)

pub of_le16-to_le16 : (n : ℕ) (rest : List ℕ) → n < 2 ^ 16 → of_le16 (to_le16 n ++ rest) ≡ n
unfolding of_le16 to_le16
of_le16-to_le16 n rest h = omega arith

pub of_le32-to_le32 : (n : ℕ) (rest : List ℕ) → IsU32 n → of_le32 (to_le32 n ++ rest) ≡ n
unfolding of_le32 to_le32
of_le32-to_le32 n rest h = omega arith

pub to_le32-of_le32 :
    (b c d e : ℕ) (rest : List ℕ)
    → IsByte b
    → IsByte c
    → IsByte d
    → IsByte e
    → to_le32 (of_le32 (b ∷ c ∷ d ∷ e ∷ rest)) ≡ b ∷ c ∷ d ∷ e ∷ []
unfolding of_le32 to_le32
to_le32-of_le32 b c d e rest hb hc hd he = ground arith

pub to_le32-IsByte : (n : ℕ) → All IsByte (to_le32 n)
unfolding to_le32
to_le32-IsByte n = omega arith

pub length-to_le32 : (n : ℕ) → length (to_le32 n) ≡ 4
unfolding to_le32
length-to_le32 n = refl

pub of_le16-lt : (b c : ℕ) (rest : List ℕ) → IsByte b → IsByte c → of_le16 (b ∷ c ∷ rest) < 2 ^ 16
unfolding of_le16
of_le16-lt b c rest hb hc = omega arith
