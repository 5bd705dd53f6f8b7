-- ===== src/Cannelloni/Receive/Bounds.antt =====
-- The receive thread's reads from its buffer: when they stay inside it.
use j2534_oip_wrapper.Prelude.{
  ℕ, zero, suc, ◌+◌, ◌≤◌, ◌≡◌, refl, arith, List, [], ◌∷◌, length, drop, get_or, All, All-drop, ltb,
  le→ltb, ltb→le, if◌then◌else◌, Bool-cases, inl, inr, ap,
}
use j2534_oip_wrapper.Prelude.Bytes.{IsByte, of_le32, slice}
use j2534_oip_wrapper.Message.{PassThruMsg, data_capacity, ok, fault, out_of_bounds}
use j2534_oip_wrapper.Cannelloni.Packet.{rx_msg, frame_size, read_frame, read_frames}

-- The length that the frame at an offset declares.
abbrev pub declared : List ℕ → ℕ → ℕ
declared buffer offset = get_or (drop (offset + 4) buffer) 0 0

-- The data of each of `n` frames, as long as it declares, ends inside the buffer.
abbrev pub FramesFit : List ℕ → ℕ → ℕ → Type 0
FramesFit buffer zero offset = Unit {0}
FramesFit buffer (suc n) offset =
    (offset + 5 + declared buffer offset ≤ length buffer) × FramesFit buffer n (offset + frame_size)

get_or-IsByte : (xs : List ℕ) (i : ℕ) → All IsByte xs → IsByte (get_or xs i 0)
get_or-IsByte [] i h = omega arith
get_or-IsByte (x ∷ xs) zero h = h.0
get_or-IsByte (x ∷ xs) (suc i) h = get_or-IsByte xs i h.1

declared-IsByte :
    (buffer : List ℕ) (offset : ℕ) → All IsByte buffer → IsByte (declared buffer offset)
declared-IsByte buffer offset h =
    get_or-IsByte (drop (offset + 4) buffer) 0 (All-drop IsByte (offset + 4) buffer h)

-- The message of the frame at an offset, and those of `n` frames in a row.
abbrev pub frame_msg : List ℕ → ℕ → PassThruMsg
frame_msg buffer offset =
    rx_msg (of_le32 (drop offset buffer)) (declared buffer offset)
      (slice (offset + 5) (declared buffer offset) buffer)

abbrev pub frame_msgs : List ℕ → ℕ → ℕ → List PassThruMsg
frame_msgs buffer zero offset = []
frame_msgs buffer (suc n) offset =
    frame_msg buffer offset ∷ frame_msgs buffer n (offset + frame_size)

pub length-frame_msgs : (buffer : List ℕ) (n offset : ℕ) → length (frame_msgs buffer n offset) ≡ n
length-frame_msgs buffer zero offset = refl
length-frame_msgs buffer (suc n) offset = ap suc (length-frame_msgs buffer n (offset + frame_size))

-- A frame whose data fits gives one message, and any other reads out of bounds.
read_frame_lem :
    (buffer : List ℕ) (offset : ℕ)
    → All IsByte buffer
    → read_frame buffer offset ≡ (
        if ltb (length buffer) (offset + 5 + declared buffer offset)
        then fault out_of_bounds
        else ok (frame_msg buffer offset ∷ []))
unfolding read_frame
read_frame_lem buffer offset h = rw (
    le→ltb data_capacity (4 + declared buffer offset)
      (omega (arith, declared-IsByte buffer offset h)))

pub read_frames_fit :
    (buffer : List ℕ) (n offset : ℕ)
    → All IsByte buffer
    → FramesFit buffer n offset
    → read_frames buffer n offset ≡ ok (frame_msgs buffer n offset)
unfolding read_frames
read_frames_fit buffer zero offset h fits = refl
read_frames_fit buffer (suc n) offset h fits = rw (
  read_frame_lem buffer offset h,
  le→ltb (length buffer) (offset + 5 + declared buffer offset) fits.0,
  read_frames_fit buffer n (offset + frame_size) h fits.1,
)

pub read_frames_overrun :
    (buffer : List ℕ) (n offset : ℕ)
    → All IsByte buffer
    → ¬ FramesFit buffer n offset
    → read_frames buffer n offset ≡ fault out_of_bounds
unfolding read_frames
read_frames_overrun buffer zero offset h over = absurd (over tt)
read_frames_overrun buffer (suc n) offset h over =
    elim (Bool-cases (ltb (length buffer) (offset + 5 + declared buffer offset))) [
      | inl out ↦ rw (read_frame_lem buffer offset h, out)
      | inr inside ↦ rw (
        read_frame_lem buffer offset h,
        inside,
        read_frames_overrun buffer n (offset + frame_size) h
            (λ rest. over (ltb→le _ _ inside, rest)),
      )
    ]
