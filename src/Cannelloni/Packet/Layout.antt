-- ===== src/Cannelloni/Packet/Layout.antt =====
-- The layout of a packet that PassThruWriteMsgs builds, and the identifier that it carries.
use Prim.Native.Nat.{bit_and, bit_or}
use j2534_oip_wrapper.Prelude.{
  ℕ, ◌+◌, ◌-◌, ◌*◌, ◌/◌, ◌%◌, ◌≤◌, ◌≡◌, arith, List, [], ◌∷◌, length, drop, length-take,
  length-drop, ltb, ltb→lt, ltb→le, Bool, Bool-cases, inl, inr, ◌==◌, if◌then◌else◌, All,
}
use j2534_oip_wrapper.Prelude.Bits.{bit, bit_and_pow, bit_or_pow, bit_top_clear, bit_top_set}
use j2534_oip_wrapper.Prelude.Bytes.{IsByte, IsU32, of_le32, to_le32, to_le16}
use j2534_oip_wrapper.Message.{PassThruMsg, can_29bit_id}
use j2534_oip_wrapper.Cannelloni.Packet.{
  header_bytes, frame_can_id, frame_length, packet_bytes, can_eff_flag,
}

-- CAN_29BIT_ID is bit 8 of the flags.
abbrev pub is_29bit : PassThruMsg → Bool
is_29bit m = m.tx_flags / 256 % 2 == 1

pub of_le32-IsU32 : (bs : List ℕ) → All IsByte bs → IsU32 (of_le32 bs)
unfolding of_le32
of_le32-IsU32 [] h = omega arith
of_le32-IsU32 (a ∷ []) h = omega (arith, h.0)
of_le32-IsU32 (a ∷ b ∷ []) h = omega (arith, h.0, h.1.0)
of_le32-IsU32 (a ∷ b ∷ c ∷ []) h = omega (arith, h.0, h.1.0, h.1.1.0)
of_le32-IsU32 (a ∷ b ∷ c ∷ d ∷ rest) h = omega (arith, h.0, h.1.0, h.1.1.0, h.1.1.1.0)

-- `x | 0x80000000` on a 32-bit word.
set_eff : (x : ℕ) → IsU32 x → bit_or x can_eff_flag ≡ x % can_eff_flag + can_eff_flag
set_eff x h = elim (Bool-cases (ltb x can_eff_flag)) [
  | inl low ↦ omega (arith, bit_or_pow 31 x, bit_top_clear 31 x (ltb→lt _ _ low), ltb→lt _ _ low)
  | inr high ↦
      omega (arith, bit_or_pow 31 x, bit_top_set 31 x h (ltb→le _ _ high), ltb→le _ _ high, h)
]

-- `flags & 0x100`.
flag_test : (flags : ℕ) → bit_and flags can_29bit_id ≡ flags / 256 % 2 * 256
unfolding bit
flag_test flags = omega (arith, bit_and_pow 8 flags)

-- The identifier of the frame is the word in the first four bytes of the message; its top bit is
-- set where the message carries CAN_29BIT_ID, and is the message's own elsewhere.
pub frame_can_id_lem :
    (m : PassThruMsg)
    → All IsByte m.bytes
    → frame_can_id m
      ≡ (if is_29bit m then of_le32 m.bytes % can_eff_flag + can_eff_flag else of_le32 m.bytes)
unfolding frame_can_id
frame_can_id_lem m h =
    ground (arith, flag_test m.tx_flags, set_eff (of_le32 m.bytes) (of_le32-IsU32 m.bytes h))

pub frame_can_id-IsU32 : (m : PassThruMsg) → All IsByte m.bytes → IsU32 (frame_can_id m)
frame_can_id-IsU32 m h = ground (arith, frame_can_id_lem m h, of_le32-IsU32 m.bytes h)

-- The datagram has 10 bytes and the data of the message.
pub length-packet_bytes :
    (version seq : ℕ) (m : PassThruMsg)
    → 4 ≤ m.data_size
    → m.data_size ≤ 12
    → m.data_size ≤ length m.bytes
    → length (packet_bytes version seq m) ≡ 6 + m.data_size
unfolding packet_bytes header_bytes to_le32 to_le16 frame_length
length-packet_bytes version seq m lo hi fits =
    omega (arith, length-take ((m.data_size - 4) % 256) (drop 4 m.bytes), length-drop 4 m.bytes)
