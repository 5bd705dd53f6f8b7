-- ===== src/Examples/Reception.antt =====
-- Examples of datagrams at the receive thread.
use j2534_oip_wrapper.Prelude.{
  ℕ, ◌+◌, ◌*◌, ◌≡◌, ◌<◌, refl, arith, List, [], ◌∷◌, ◌++◌, length, drop, replicate,
  length-replicate, get_or-drop-replicate, All, All-replicate,
}
use j2534_oip_wrapper.Prelude.Bytes.{IsByte, of_le16, slice}
use j2534_oip_wrapper.Message.{ok, fault, out_of_bounds}
use j2534_oip_wrapper.Cannelloni.Packet.{
  packet_bytes, frame_can_id, rx_msg, read_header, header_size, frame_size,
}
use j2534_oip_wrapper.Cannelloni.Receive.{
  Channel, stopped, receive, poll, polls, fill_buffer, max_packet_size,
}
use j2534_oip_wrapper.Cannelloni.Receive.Bounds.{declared, FramesFit, frame_msgs}
use j2534_oip_wrapper.Cannelloni.Receive.Datagrams.{
  Received, Accepted, filled, announced, receive_fits, receive_overrun,
}
use j2534_oip_wrapper.Cannelloni.Receive.Safety.{ShortFrames, receive_safe}
use j2534_oip_wrapper.Cannelloni.Receive.Stopped.{polls_refused}
use j2534_oip_wrapper.Cannelloni.Receive.Loopback.{short_frame_ends_reception, loopback}
use j2534_oip_wrapper.Examples.{
  channel, request, short_request, request-Sendable, short_request-Sendable,
}

-- One frame with 2 bytes of data.
abbrev one_frame : List ℕ
one_frame = 1 ∷ 0 ∷ 9 ∷ 1 ∷ 0 ∷ 0xe8 ∷ 7 ∷ 0 ∷ 0 ∷ 2 ∷ 0x41 ∷ 0x0c ∷ 0 ∷ 0 ∷ 0 ∷ 0 ∷ 0 ∷ 0 ∷ []

one_frame-Received : Received channel one_frame
one_frame-Received = record {
  buffer_size = length-replicate {A = ℕ} 1500 0;
  buffer_bytes = All-replicate IsByte 1500 0 (omega arith);
  at_most = omega arith;
  received_bytes = omega arith;
}

one_frame-Accepted : Accepted 1 channel one_frame
unfolding fill_buffer read_header of_le16
one_frame-Accepted = record {
  has_header = omega arith;
  same_version = refl;
  has_frames = omega arith;
}

one_announced : announced channel one_frame ≡ 1
unfolding fill_buffer read_header of_le16
one_announced = refl

one_frame_fits : FramesFit (filled channel one_frame) (announced channel one_frame) header_size
unfolding fill_buffer read_header of_le16
one_frame_fits = (omega arith, tt)

one_frame_short : ShortFrames (filled channel one_frame) (announced channel one_frame) header_size
unfolding fill_buffer read_header of_le16
one_frame_short = (omega arith, tt)

receive_fits_example :
    receive 1 channel one_frame
    ≡ ok (record channel {
      rx_buffer = filled channel one_frame;
      msg_queue =
          channel.msg_queue
          ++ frame_msgs (filled channel one_frame) (announced channel one_frame) header_size;
    })
receive_fits_example =
    receive_fits 1 channel one_frame one_frame-Received one_frame-Accepted one_frame_fits

receive_safe_example :
    (ctx' : Channel) × (receive 1 channel one_frame ≡ ok ctx')
    × (length ctx'.rx_buffer ≡ max_packet_size)
    × All IsByte ctx'.rx_buffer
receive_safe_example = receive_safe 1 channel one_frame one_frame-Received one_frame_short

polls_refused_example :
    polls 1 channel ((1 ∷ []) ∷ one_frame ∷ [])
    ≡ ok (stopped (record channel { rx_buffer = filled channel (1 ∷ []) }))
polls_refused_example =
    polls_refused 1 channel (1 ∷ []) (one_frame ∷ []) refl refl (omega arith)
      (λ a. omega (arith, a.has_header))

short_frame_ends_reception_example :
    polls 1 channel (packet_bytes 1 0 short_request ∷ one_frame ∷ [])
    ≡ ok (stopped (record channel { rx_buffer = filled channel (packet_bytes 1 0 short_request) }))
short_frame_ends_reception_example =
    short_frame_ends_reception 1 0 channel short_request (one_frame ∷ []) short_request-Sendable
      (omega arith) (omega arith) refl refl

loopback_example :
    poll 1 channel (packet_bytes 1 3 request)
    ≡ ok (record channel {
      rx_buffer = filled channel (packet_bytes 1 3 request);
      msg_queue =
          channel.msg_queue ++ rx_msg (frame_can_id request) 8 (slice 4 8 request.bytes) ∷ [];
    })
loopback_example = loopback 1 3 channel request request-Sendable refl refl refl

-- 115 frames, of which the last declares 255 bytes of data.
abbrev overrun_datagram : List ℕ
overrun_datagram = 1 ∷ 0 ∷ 0 ∷ 115 ∷ 0 ∷ replicate 1495 255

overrun-Received : Received channel overrun_datagram
overrun-Received = record {
  buffer_size = length-replicate {A = ℕ} 1500 0;
  buffer_bytes = All-replicate IsByte 1500 0 (omega arith);
  at_most = omega (arith, length-replicate {A = ℕ} 1495 255);
  received_bytes = (
    omega arith,
    (
      omega arith,
      (omega arith, (omega arith, (omega arith, All-replicate IsByte 1495 255 (omega arith)))),
    ),
  );
}

overrun-Accepted : Accepted 1 channel overrun_datagram
unfolding fill_buffer read_header of_le16
overrun-Accepted = record {
  has_header = omega (arith, length-replicate {A = ℕ} 1495 255);
  same_version = refl;
  has_frames = omega (arith, length-replicate {A = ℕ} 1495 255);
}

overrun_announced : 114 < announced channel overrun_datagram
unfolding fill_buffer read_header of_le16
overrun_announced = omega arith

overrun_declared :
    max_packet_size
    < header_size
      + 114 * frame_size
      + 5
      + declared (filled channel overrun_datagram) (header_size + 114 * frame_size)
unfolding fill_buffer
overrun_declared = omega (
  arith,
  get_or-drop-replicate {A = ℕ} 1486 1495 255 0 (drop (length overrun_datagram) (replicate 1500 0))
      (omega arith),
)

receive_overrun_example : receive 1 channel overrun_datagram ≡ fault out_of_bounds
receive_overrun_example =
    receive_overrun 1 channel overrun_datagram 114 overrun-Received overrun-Accepted
      overrun_announced overrun_declared
