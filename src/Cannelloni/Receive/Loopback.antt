-- ===== src/Cannelloni/Receive/Loopback.antt =====
-- A packet of PassThruWriteMsgs at a receive thread of the same program.
use j2534_oip_wrapper.Prelude.{
  ℕ, ◌+◌, ◌≤◌, ◌<◌, ◌≡◌, refl, ap, ◌∙◌, arith, List, [], ◌∷◌, ◌++◌, length, take, drop, take-append,
  length-append, le→ltb, length-take, length-drop, true, false, All,
}
use j2534_oip_wrapper.Prelude.Bytes.{
  IsByte, IsU32, of_le32, to_le32, to_le16, of_le16, slice, of_le32-to_le32, to_le32-of_le32,
}
use j2534_oip_wrapper.Message.{PassThruMsg, data_capacity, data_array, ok}
use j2534_oip_wrapper.Cannelloni.Packet.{
  header_bytes, read_header, frame_can_id, frame_length, packet_bytes, rx_msg, read_frame,
  read_frames, header_size,
}
use j2534_oip_wrapper.Cannelloni.Packet.Layout.{
  is_29bit, frame_can_id_lem, frame_can_id-IsU32, length-packet_bytes,
}
use j2534_oip_wrapper.Cannelloni.Receive.{
  Channel, stopped, fill_buffer, poll, poll_running, polls, receive,
}
use j2534_oip_wrapper.Cannelloni.Receive.Datagrams.{Accepted, filled, announced, receive-Accepted}
use j2534_oip_wrapper.Cannelloni.Receive.Stopped.{polls_refused}

-- A message as a caller hands it over: the array has its 4128 bytes.
pub record Sendable (m : PassThruMsg) : Type 0 where
  pub whole_array : length m.bytes ≡ data_capacity
  pub all_bytes : All IsByte m.bytes

announced_one :
    (version seq : ℕ) (ctx : Channel) (m : PassThruMsg)
    → announced ctx (packet_bytes version seq m) ≡ 1
unfolding fill_buffer packet_bytes header_bytes to_le16 of_le16 read_header
announced_one version seq ctx m = refl

-- A packet whose frame has fewer than 8 bytes of data is no packet to the program's own receive
-- thread: it ends the thread, whatever arrives behind it, and the queue stays as it was.
pub short_frame_ends_reception :
    (version seq : ℕ) (ctx : Channel) (m : PassThruMsg) (more : List (List ℕ))
    → Sendable m
    → 4 ≤ m.data_size
    → m.data_size < 12
    → ctx.running ≡ true
    → ctx.stop_requested ≡ false
    → polls version ctx (packet_bytes version seq m ∷ more)
      ≡ ok (stopped (record ctx { rx_buffer = filled ctx (packet_bytes version seq m) }))
short_frame_ends_reception version seq ctx m more s lo hi runs goes =
    polls_refused version ctx (packet_bytes version seq m) more runs goes
      (omega (arith, length-packet_bytes version seq m lo (omega arith), s.whole_array))
      (λ a. omega (
        arith,
        a.has_frames,
        announced_one version seq ctx m,
        length-packet_bytes version seq m lo (omega arith),
        s.whole_array,
      ))

-- The frame of a full packet, in a buffer that starts with it.
full_packet : ℕ → ℕ → ℕ → List ℕ → List ℕ
unfolding header_bytes
full_packet version seq can_id payload =
    header_bytes (record { version = version; op_code = 0; seq_no = seq; count = 1 })
    ++ (to_le32 can_id ++ (8 ∷ payload))

read_full :
    (version seq can_id : ℕ) (payload rest : List ℕ)
    → IsU32 can_id
    → length payload ≡ 8
    → read_frames (full_packet version seq can_id (payload ++ rest)) 1 header_size
      ≡ ok (rx_msg can_id 8 payload ∷ [])
unfolding full_packet read_frames read_frame to_le32 to_le16
read_full version seq can_id payload rest h e = rw (
  le→ltb (length (full_packet version seq can_id (payload ++ rest))) 18
      (omega (arith, length-append payload rest, e)),
  eight,
  of_le32-to_le32 can_id (8 ∷ (payload ++ rest)) h,
)
  where
    eight : take 8 (payload ++ rest) ≡ payload
    eight = rw e at (take-append payload rest)

full_packet_lem :
    (version seq : ℕ) (m : PassThruMsg)
    → m.data_size ≡ 12
    → packet_bytes version seq m ≡ full_packet version seq (frame_can_id m) (slice 4 8 m.bytes)
unfolding packet_bytes frame_length full_packet
full_packet_lem version seq m e = rw e

payload_length : (m : PassThruMsg) → Sendable m → length (slice 4 8 m.bytes) ≡ 8
payload_length m s =
    omega (arith, length-take 8 (drop 4 m.bytes), length-drop 4 m.bytes, s.whole_array)

module _ (version seq can_id : ℕ) (ctx : Channel) (payload : List ℕ) where
  packet : List ℕ
  packet = full_packet version seq can_id payload

  filled-packet :
      filled ctx packet
      ≡ full_packet version seq can_id (payload ++ drop (length packet) ctx.rx_buffer)
  unfolding packet full_packet fill_buffer to_le32 to_le16
  filled-packet = refl

  length-packet : length packet ≡ 10 + length payload
  unfolding packet full_packet to_le32 to_le16
  length-packet = omega arith

  packet-Accepted : length payload ≡ 8 → Accepted version ctx packet
  unfolding packet full_packet fill_buffer read_header to_le32 to_le16 of_le16
  packet-Accepted e = record {
    has_header = omega (arith, length-packet, e);
    same_version = refl;
    has_frames = omega (arith, length-packet, e);
  }

  announced-packet : announced ctx packet ≡ 1
  unfolding packet full_packet fill_buffer read_header to_le32 to_le16 of_le16
  announced-packet = refl

  receive-packet :
      IsU32 can_id
      → length payload ≡ 8
      → receive version ctx packet
        ≡ ok (record ctx {
          rx_buffer = filled ctx packet;
          msg_queue = ctx.msg_queue ++ rx_msg can_id 8 payload ∷ [];
        })
  receive-packet h e = rw (
    receive-Accepted version ctx packet (packet-Accepted e),
    announced-packet,
    filled-packet,
    read_full version seq can_id payload (drop (length packet) ctx.rx_buffer) h e,
  )

-- A message with 8 bytes of data that the program sends comes back through its own receive thread
-- as one message at the end of the queue, with the identifier of the frame and the same 8 bytes.
pub loopback :
    (version seq : ℕ) (ctx : Channel) (m : PassThruMsg)
    → Sendable m
    → m.data_size ≡ 12
    → ctx.running ≡ true
    → ctx.stop_requested ≡ false
    → poll version ctx (packet_bytes version seq m)
      ≡ ok (record ctx {
        rx_buffer = filled ctx (packet_bytes version seq m);
        msg_queue = ctx.msg_queue ++ rx_msg (frame_can_id m) 8 (slice 4 8 m.bytes) ∷ [];
      })
unfolding packet
loopback version seq ctx m s e runs goes = rw (full_packet_lem version seq m e) (
    poll_running version ctx _ runs goes
    ∙ receive-packet version seq (frame_can_id m) ctx (slice 4 8 m.bytes)
        (frame_can_id-IsU32 m s.all_bytes) (payload_length m s))

take_front :
    (payload rest : List ℕ) (n : ℕ) → length payload ≡ n → take n (payload ++ rest) ≡ payload
take_front payload rest n e = rw e at (take-append payload rest)

front_bytes :
    (bs : List ℕ)
    → 12 ≤ length bs
    → All IsByte bs
    → take 12 (data_array (to_le32 (of_le32 bs) ++ take 8 (drop 4 bs))) ≡ take 12 bs
unfolding data_array
front_bytes [] h w = absurd (omega arith)
front_bytes (a ∷ []) h w = absurd (omega arith)
front_bytes (a ∷ b ∷ []) h w = absurd (omega arith)
front_bytes (a ∷ b ∷ c ∷ []) h w = absurd (omega arith)
front_bytes (a ∷ b ∷ c ∷ d ∷ rest) h w =
    rw (to_le32-of_le32 a b c d rest w.0 w.1.0 w.1.1.0 w.1.1.1.0) (
      ap (λ (t : List ℕ). a ∷ b ∷ c ∷ d ∷ t)
        (take_front (take 8 rest) _ 8 (omega (arith, length-take 8 rest))))

-- Where the message is not flagged CAN_29BIT_ID, the message that comes back starts with the
-- same 12 bytes.
pub loopback_bytes :
    (m : PassThruMsg)
    → Sendable m
    → is_29bit m ≡ false
    → take 12 (rx_msg (frame_can_id m) 8 (slice 4 8 m.bytes)).bytes ≡ take 12 m.bytes
unfolding rx_msg
loopback_bytes m s plain =
    rw (frame_can_id_lem m s.all_bytes, plain)
      (front_bytes m.bytes (omega (arith, s.whole_array)) s.all_bytes)
