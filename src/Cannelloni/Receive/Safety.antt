-- ===== src/Cannelloni/Receive/Safety.antt =====
-- When the receive thread stays inside its buffer: startReceiveThread of
-- j2534_OverIP/j2534cannelloniclient.cpp on frames of at most 8 bytes of data.
use j2534_oip_wrapper.Prelude.{
  ℕ, zero, suc, ◌+◌, ◌*◌, ◌-◌, ◌≤◌, ◌≡◌, refl, arith, List, [], ◌∷◌, length, All, inl, inr, ◌⊎◌,
}
use native.Mathlib.Decide.{dec_le, ℕ_discrete}
use j2534_oip_wrapper.Prelude.Bytes.{IsByte}
use j2534_oip_wrapper.Message.{ok}
use j2534_oip_wrapper.Cannelloni.Packet.{header_size, frame_size, read_header}
use j2534_oip_wrapper.Cannelloni.Receive.{Channel, receive, max_packet_size}
use j2534_oip_wrapper.Cannelloni.Receive.Bounds.{declared, FramesFit}
use j2534_oip_wrapper.Cannelloni.Receive.Datagrams.{
  Received, filled, announced, Accepted, filled_size, filled-IsByte, receive_fits, receive_refused,
}

-- Frames that declare at most 8 bytes lie inside their 13 bytes.
abbrev pub ShortFrames : List ℕ → ℕ → ℕ → Type 0
ShortFrames buffer zero offset = Unit {0}
ShortFrames buffer (suc n) offset =
    (declared buffer offset ≤ 8) × ShortFrames buffer n (offset + frame_size)

ShortFrames-FramesFit :
    (buffer : List ℕ) (n offset : ℕ)
    → offset + n * frame_size ≤ length buffer
    → ShortFrames buffer n offset
    → FramesFit buffer n offset
ShortFrames-FramesFit buffer zero offset h s = tt
ShortFrames-FramesFit buffer (suc n) offset h s =
    (omega (arith, s.0), ShortFrames-FramesFit buffer n (offset + frame_size) (omega arith) s.1)

Accepted-cases :
    (version : ℕ) (ctx : Channel) (received : List ℕ)
    → Accepted version ctx received ⊎ ¬ Accepted version ctx received
Accepted-cases version ctx received = elim (dec_le header_size (length received)) [
  | no short ↦ inr (λ a. short a.has_header)
  | yes long ↦ elim (ℕ_discrete (read_header (filled ctx received)).version version) [
    | no other ↦ inr (λ a. other a.same_version)
    | yes same ↦
        elim (dec_le (announced ctx received * frame_size) (length received - header_size)) [
          | no cut ↦ inr (λ a. cut a.has_frames)
          | yes whole ↦ inl (record { has_header = long; same_version = same; has_frames = whole })
        ]
  ]
]

-- No datagram whose announced frames declare at most 8 bytes of data makes the thread read
-- outside its buffer, and the buffer stays an array of 1500 bytes, on every branch of the code.
pub receive_safe :
    (version : ℕ) (ctx : Channel) (received : List ℕ)
    → Received ctx received
    → ShortFrames (filled ctx received) (announced ctx received) header_size
    → (ctx' : Channel) × (receive version ctx received ≡ ok ctx')
      × (length ctx'.rx_buffer ≡ max_packet_size)
      × All IsByte ctx'.rx_buffer
receive_safe version ctx [] w short = (ctx, unfold receive in refl, w.buffer_size, w.buffer_bytes)
receive_safe version ctx (x ∷ xs) w short = elim (Accepted-cases version ctx (x ∷ xs)) [
  | inl a ↦ (
    _,
    receive_fits version ctx (x ∷ xs) w a (
        ShortFrames-FramesFit _ _ header_size
          (omega (arith, a.has_frames, a.has_header, filled_size ctx (x ∷ xs) w, w.at_most)) short),
    filled_size ctx (x ∷ xs) w,
    filled-IsByte ctx (x ∷ xs) w,
  )
  | inr refused ↦ (
    _,
    receive_refused version ctx (x ∷ xs) (omega arith) refused,
    filled_size ctx (x ∷ xs) w,
    filled-IsByte ctx (x ∷ xs) w,
  )
]
