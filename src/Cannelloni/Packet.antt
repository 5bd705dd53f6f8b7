-- ===== src/Cannelloni/Packet.antt =====
-- The packets of j2534_OverIP/j2534cannelloniclient.cpp: the packed structs CannelloniDataPacket
-- (5 bytes) and CannelloniCanFrame (13 bytes), how PassThruWriteMsgs builds a packet, and how the
-- receive thread reads the frames of one.
pub mod Layout
use Prim.Native.Nat.{bit_and, bit_or}
use j2534_oip_wrapper.Prelude.{
  ℕ, zero, suc, ◌+◌, ◌-◌, ◌*◌, ◌%◌, ◌^◌, List, [], ◌∷◌, ◌++◌, Bool, not, ◌&&◌, ◌||◌, length, drop,
  take, get_or, ltb, ◌==◌, if◌then◌else◌,
}
use j2534_oip_wrapper.Prelude.Bytes.{to_le16, to_le32, of_le16, of_le32, slice}
use j2534_oip_wrapper.Message.{
  PassThruMsg, data_capacity, data_array, can, can_ps, can_29bit_id, Result, ok, fault,
  out_of_bounds, ◌>>=◌,
}

-- enum op_codes, MAX_CAN_FRAME_DATA_LEN, CAN_EFF_FLAG and the sizes of the structs.
abbrev pub op_data : ℕ
op_data = 0

abbrev pub max_can_frame_data_len : ℕ
max_can_frame_data_len = 8

abbrev pub can_eff_flag : ℕ
can_eff_flag = 2 ^ 31

abbrev pub header_size : ℕ
header_size = 5

abbrev pub frame_size : ℕ
frame_size = 13

-- struct CannelloniDataPacket.
pub record DataPacket : Type 0 where
  pub version : ℕ
  pub op_code : ℕ
  pub seq_no : ℕ
  pub count : ℕ

-- The bytes of the struct, and the struct in the first bytes of a buffer.
unfoldable pub header_bytes : DataPacket → List ℕ
header_bytes p = p.version ∷ p.op_code ∷ p.seq_no ∷ to_le16 p.count

unfoldable pub read_header : List ℕ → DataPacket
read_header buffer = record {
  version = get_or buffer 0 0;
  op_code = get_or buffer 1 0;
  seq_no = get_or buffer 2 0;
  count = of_le16 (drop 3 buffer);
}

-- The test that PassThruWriteMsgs makes of a message before it builds a frame.
unfoldable pub is_invalid_msg : PassThruMsg → Bool
is_invalid_msg m =
    (not (m.protocol_id == can) && not (m.protocol_id == can_ps))
    || (ltb m.data_size 4 || ltb (4 + max_can_frame_data_len) m.data_size)

-- The identifier of a frame: the first four bytes of the message as a word of the machine, with
-- CAN_EFF_FLAG set for a message that is flagged CAN_29BIT_ID.
unfoldable pub frame_can_id : PassThruMsg → ℕ
frame_can_id m =
    let can_id = of_le32 m.bytes in
    if bit_and m.tx_flags can_29bit_id == 0 then can_id else bit_or can_id can_eff_flag

-- `static_cast<uint8_t>(DataSize - 4)`, at DataSize ≥ 4.
unfoldable pub frame_length : PassThruMsg → ℕ
frame_length m = (m.data_size - 4) % 256

-- The datagram of a message: header, identifier, length, and `length` bytes of data.
unfoldable pub packet_bytes : ℕ → ℕ → PassThruMsg → List ℕ
packet_bytes version seq m =
    header_bytes (record { version = version; op_code = op_data; seq_no = seq; count = 1 })
    ++ (to_le32 (frame_can_id m) ++ (frame_length m ∷ slice 4 (frame_length m) m.bytes))

-- The empty packet that PassThruOpen sends.
unfoldable pub init_packet : ℕ → List ℕ
init_packet version =
    header_bytes (record { version = version; op_code = op_data; seq_no = 0; count = 0 })

-- The message that the receive thread makes of an identifier and the bytes that it copies.
unfoldable pub rx_msg : ℕ → ℕ → List ℕ → PassThruMsg
rx_msg can_id size payload = record {
  protocol_id = can;
  rx_status = 0;
  tx_flags = 0;
  timestamp = 0;
  data_size = 4 + size;
  extra_data_index = 0;
  bytes = data_array (to_le32 can_id ++ payload);
}

-- One round of the loop over `frames[i]`, at the frame's offset in the buffer: the message it
-- pushes, or none for `continue`. The copy reads `length` bytes from the frame's data on, past the frame's end where
-- `length` exceeds 8, and past the buffer's end where the buffer is shorter.
unfoldable pub read_frame : List ℕ → ℕ → Result (List PassThruMsg)
read_frame buffer offset =
    let size = get_or (drop (offset + 4) buffer) 0 0 in
    if ltb data_capacity (4 + size)
    then ok []
    else if ltb (length buffer) (offset + 5 + size)
    then fault out_of_bounds
    else ok (rx_msg (of_le32 (drop offset buffer)) size (slice (offset + 5) size buffer) ∷ [])

-- The loop, with `n` frames to go.
unfoldable pub read_frames : List ℕ → ℕ → ℕ → Result (List PassThruMsg)
read_frames buffer zero offset = ok []
read_frames buffer (suc n) offset = do
  msg ← read_frame buffer offset
  rest ← read_frames buffer n (offset + frame_size)
  ok (msg ++ rest)
