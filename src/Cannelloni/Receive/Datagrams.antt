-- ===== src/Cannelloni/Receive/Datagrams.antt =====
-- What one datagram does to a channel, for every datagram: the branches of `receive`.
use j2534_oip_wrapper.Prelude.{
  ℕ, zero, suc, ◌+◌, ◌*◌, ◌-◌, ◌≤◌, ◌<◌, ◌≡◌, refl, arith, List, [], ◌∷◌, ◌++◌, length, drop, All,
  All-append, All-drop, length-append, length-drop, le→ltb, is_empty, false, Bool-cases, ltb, ◌==◌,
  ==→eq, ltb→le, inl, inr, ==_self,
}
use j2534_oip_wrapper.Prelude.Bytes.{IsByte}
use j2534_oip_wrapper.Message.{ok, fault, out_of_bounds, ◌>>=◌}
use j2534_oip_wrapper.Cannelloni.Packet.{header_size, frame_size, read_header, read_frames}
use j2534_oip_wrapper.Cannelloni.Receive.{Channel, stopped, receive, fill_buffer, max_packet_size}
use j2534_oip_wrapper.Cannelloni.Receive.Bounds.{
  declared, FramesFit, frame_msgs, read_frames_fit, read_frames_overrun,
}

-- The channel's buffer is an array of 1500 bytes, and `recv` returns at most as many bytes.
pub record Received (ctx : Channel) (received : List ℕ) : Type 0 where
  pub buffer_size : length ctx.rx_buffer ≡ max_packet_size
  pub buffer_bytes : All IsByte ctx.rx_buffer
  pub at_most : length received ≤ max_packet_size
  pub received_bytes : All IsByte received

-- The buffer after the datagram, and the number of frames that its header announces.
abbrev pub filled : Channel → List ℕ → List ℕ
filled ctx received = fill_buffer received ctx.rx_buffer

abbrev pub announced : Channel → List ℕ → ℕ
announced ctx received = (read_header (filled ctx received)).count

-- The datagram passes the tests on its size and its header.
pub record Accepted (version : ℕ) (ctx : Channel) (received : List ℕ) : Type 0 where
  pub has_header : header_size ≤ length received
  pub same_version : (read_header (filled ctx received)).version ≡ version
  pub has_frames : announced ctx received * frame_size ≤ length received - header_size

pub length-fill_buffer :
    (received buffer : List ℕ)
    → length received ≤ length buffer
    → length (fill_buffer received buffer) ≡ length buffer
unfolding fill_buffer
length-fill_buffer received buffer h = omega (
  arith,
  length-append received (drop (length received) buffer),
  length-drop (length received) buffer,
)

pub fill_buffer-IsByte :
    (received buffer : List ℕ)
    → All IsByte received
    → All IsByte buffer
    → All IsByte (fill_buffer received buffer)
unfolding fill_buffer
fill_buffer-IsByte received buffer hr hb =
    All-append IsByte received _ hr (All-drop IsByte (length received) buffer hb)

pub filled_size :
    (ctx : Channel) (received : List ℕ)
    → Received ctx received
    → length (filled ctx received) ≡ max_packet_size
filled_size ctx received w =
    omega (arith, length-fill_buffer received ctx.rx_buffer, w.buffer_size, w.at_most)

pub filled-IsByte :
    (ctx : Channel) (received : List ℕ) → Received ctx received → All IsByte (filled ctx received)
filled-IsByte ctx received w =
    fill_buffer-IsByte received ctx.rx_buffer w.received_bytes w.buffer_bytes

nonempty : (received : List ℕ) → header_size ≤ length received → is_empty received ≡ false
nonempty [] h = absurd (omega arith)
nonempty (x ∷ xs) h = refl

-- On an accepted datagram only the reading of the frames is left.
pub receive-Accepted :
    (version : ℕ) (ctx : Channel) (received : List ℕ)
    → Accepted version ctx received
    → receive version ctx received ≡ (
        read_frames (filled ctx received) (announced ctx received) header_size >>= λ msgs.
        ok (record ctx { rx_buffer = filled ctx received; msg_queue = ctx.msg_queue ++ msgs }))
unfolding receive
receive-Accepted version ctx received a = rw (
  nonempty received a.has_header,
  le→ltb (length received) header_size a.has_header,
  a.same_version,
  ==_self version,
  le→ltb _ _ a.has_frames,
)

-- An accepted datagram whose frames' data ends inside the buffer appends one message for each
-- announced frame to the queue, in the order of the frames, and the thread goes on.
pub receive_fits :
    (version : ℕ) (ctx : Channel) (received : List ℕ)
    → Received ctx received
    → Accepted version ctx received
    → FramesFit (filled ctx received) (announced ctx received) header_size
    → receive version ctx received
      ≡ ok (record ctx {
        rx_buffer = filled ctx received;
        msg_queue =
            ctx.msg_queue ++ frame_msgs (filled ctx received) (announced ctx received) header_size;
      })
receive_fits version ctx received w a fits = rw (
  receive-Accepted version ctx received a,
  read_frames_fit _ _ header_size (filled-IsByte ctx received w) fits,
)

-- A frame that declares more data than the buffer has behind it overruns.
not-FramesFit :
    (buffer : List ℕ) (n offset i pos : ℕ)
    → i < n
    → pos ≡ offset + i * frame_size
    → length buffer < pos + 5 + declared buffer pos
    → ¬ FramesFit buffer n offset
not-FramesFit buffer zero offset i pos h e over fits = absurd (omega arith)
not-FramesFit buffer (suc n) offset zero pos h e over fits =
    let here : pos ≡ offset = omega arith in
    let over' : length buffer < offset + 5 + declared buffer offset = rw here at over in
    absurd (omega (arith, fits.0))
not-FramesFit buffer (suc n) offset (suc i) pos h e over fits =
    not-FramesFit buffer n (offset + frame_size) i pos (omega arith) (omega arith) over fits.1

-- An accepted datagram with an announced frame, the i-th, that declares more data than the
-- 1500 bytes of the buffer hold behind it makes the thread read outside its buffer.
pub receive_overrun :
    (version : ℕ) (ctx : Channel) (received : List ℕ) (i : ℕ)
    → Received ctx received
    → Accepted version ctx received
    → i < announced ctx received
    → max_packet_size
      < header_size
        + i * frame_size
        + 5
        + declared (filled ctx received) (header_size + i * frame_size)
    → receive version ctx received ≡ fault out_of_bounds
receive_overrun version ctx received i w a h over = rw (
  receive-Accepted version ctx received a,
  read_frames_overrun _ _ header_size (filled-IsByte ctx received w)
      (not-FramesFit _ _ header_size i _ h refl (omega (arith, filled_size ctx received w, over))),
)

some_bytes : (received : List ℕ) → 0 < length received → is_empty received ≡ false
some_bytes [] h = absurd (omega arith)
some_bytes (x ∷ xs) h = refl

-- A datagram that the tests refuse: the buffer is filled, the thread ends, and the queue stays.
pub receive_refused :
    (version : ℕ) (ctx : Channel) (received : List ℕ)
    → 0 < length received
    → ¬ Accepted version ctx received
    → receive version ctx received ≡ ok (stopped (record ctx { rx_buffer = filled ctx received }))
unfolding receive
receive_refused version ctx received h refused =
    rw (some_bytes received h) (elim (Bool-cases (ltb (length received) header_size)) [
      | inl short ↦ rw short
      | inr long ↦ elim (Bool-cases ((read_header (filled ctx received)).version == version)) [
        | inr other ↦ rw (long, other)
        | inl same ↦
            elim (Bool-cases
              (ltb (length received - header_size) (announced ctx received * frame_size))) [
                | inl cut ↦ rw (long, same, cut)
                | inr whole ↦ absurd (
                    refused (record {
                      has_header = ltb→le _ _ long;
                      same_version = ==→eq _ _ same;
                      has_frames = ltb→le _ _ whole;
                    }))
              ]
      ]
    ])
