-- ===== src/Pipe/Frames.antt =====
-- The framing of ExPipeClient::send (j2534_OverIP/expipeclient.cpp) against the reassembly of
-- ExPipeServer::processData (j2534_OverIP_App/expipeserver.cpp).
use j2534_oip_wrapper.Prelude.{
  ℕ, ◌^◌, ◌≡◌, ◌≤◌, ◌<◌, refl, subst, arith, List, [], ◌∷◌, ◌++◌, some, length, All, length-append,
  take-append, drop-append,
}
use j2534_oip_wrapper.Prelude.Bytes.{to_le32, of_le32-to_le32}
use j2534_oip_wrapper.Pipe.{
  Assembly, send_frame, is_positive, has_header, has_payload, has_work, feeds,
}
use j2534_oip_wrapper.Pipe.Steps.{Move, header, payload, Moves, rest, move}
use j2534_oip_wrapper.Pipe.Reassembly.{stream, feeds_follow}

-- A message whose length is not 0 and fits the signed size.
pub record Sent (message : List ℕ) : Type 0 where
  pub some_bytes : 0 < length message
  pub fits : length message < 2 ^ 31

-- The frames of messages, one after the other.
abbrev pub frames : List (List ℕ) → List ℕ
frames [] = []
frames (message ∷ messages) = send_frame message ++ frames messages

-- The size of a frame at the front of a buffer is read, and its message cut off.
frame-Moves :
    (message behind : List ℕ) (b : Assembly) (more : List (List ℕ))
    → Sent message
    → Moves (record { size = 0; buffer = behind }) b more
    → Moves (record { size = 0; buffer = send_frame message ++ behind }) b (message ∷ more)
unfolding send_frame to_le32
frame-Moves message behind b more s ms =
    move _ (record { size = length message; buffer = message ++ behind }) b [] (message ∷ more)
      (subst
        (λ t.
          Move (record { size = 0; buffer = send_frame message ++ behind })
            (record { size = t; buffer = message ++ behind }) [])
        (of_le32-to_le32 (length message) (message ++ behind) (omega (arith, s.fits)))
        (header (send_frame message ++ behind) (omega arith)))
      (move _ (record { size = 0; buffer = behind }) b (message ∷ []) more
        (rw (take-append message behind, drop-append message behind) at
          (payload (length message) (message ++ behind) s.some_bytes s.fits
            (omega (arith, length-append message behind))))
        ms)

frames-Moves :
    (messages : List (List ℕ))
    → All Sent messages
    → Moves
        (record { size = 0; buffer = frames messages })
        (record { size = 0; buffer = [] })
        messages
frames-Moves [] h = rest _
frames-Moves (message ∷ messages) h =
    frame-Moves message (frames messages) _ messages h.0 (frames-Moves messages h.1)

-- Messages that are not empty and whose lengths fit the signed size arrive whole and in their order
-- on a new connection when `send` frames them one after the other, however their bytes are cut into
-- chunks, and nothing is left behind.
pub frames_arrive :
    (messages chunks : List (List ℕ))
    → All Sent messages
    → stream chunks ≡ frames messages
    → feeds (record { size = 0; buffer = [] }) chunks
      ≡ some (record { size = 0; buffer = [] }, messages)
unfolding has_work has_header has_payload is_positive
frames_arrive messages chunks h same =
    feeds_follow (record { size = 0; buffer = [] }) (record { size = 0; buffer = [] }) chunks
      messages refl (rw same (frames-Moves messages h)) refl

-- A size with the sign bit set stops a connection for good: whatever arrives behind it, no
-- message is passed on and the size stays.
pub negative_size_wedges :
    (a : Assembly) (chunks : List (List ℕ))
    → 2 ^ 31 ≤ a.size
    → feeds a chunks ≡ some (record a { buffer = a.buffer ++ stream chunks }, [])
unfolding has_work has_header has_payload is_positive
negative_size_wedges a chunks h =
    feeds_follow a (record a { buffer = a.buffer ++ stream chunks }) chunks [] (ground (arith, h))
      (rest _) (ground (arith, h))
