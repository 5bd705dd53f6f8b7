-- ===== src/Examples/Pipes.antt =====
-- Examples of messages on the pipe.
use j2534_oip_wrapper.Prelude.{ℕ, ◌≡◌, refl, arith, List, [], ◌∷◌, some}
use j2534_oip_wrapper.Prelude.Bytes.{to_le32}
use j2534_oip_wrapper.Pipe.{
  Assembly, send_frame, has_work, has_header, has_payload, is_positive, feed, feeds,
}
use j2534_oip_wrapper.Pipe.Steps.{Waits}
use j2534_oip_wrapper.Pipe.Reassembly.{stream, chunks_do_not_matter}
use j2534_oip_wrapper.Pipe.Frames.{frames, frames_arrive, negative_size_wedges}

-- A connection on which no size has been read, and one on which a size of -1 has.
abbrev fresh : Assembly
fresh = record { size = 0; buffer = [] }

abbrev wedged : Assembly
wedged = record { size = 0xffff_ffff; buffer = [] }

-- Two messages, whose frames are cut in the middle of the first size and of the second message.
abbrev messages : List (List ℕ)
messages = (0xa1 ∷ 0x01 ∷ 0x02 ∷ []) ∷ (0xa0 ∷ 0xff ∷ []) ∷ []

abbrev chunks : List (List ℕ)
chunks = (3 ∷ 0 ∷ []) ∷ (0 ∷ 0 ∷ 0xa1 ∷ 0x01 ∷ 0x02 ∷ 2 ∷ 0 ∷ 0 ∷ 0 ∷ 0xa0 ∷ []) ∷ (0xff ∷ []) ∷ []

chunks_of_frames : stream chunks ≡ frames messages
unfolding send_frame to_le32
chunks_of_frames = refl

fresh-Waits : Waits fresh
unfolding has_work has_header has_payload is_positive
fresh-Waits = refl

frames_arrive_example : feeds fresh chunks ≡ some (fresh, messages)
frames_arrive_example =
    frames_arrive messages chunks
      (
        record { some_bytes = omega arith; fits = omega arith },
        (record { some_bytes = omega arith; fits = omega arith }, tt),
      )
      chunks_of_frames

chunks_do_not_matter_example :
    (b : Assembly) × (cut : List (List ℕ)) × (feeds fresh chunks ≡ some (b, cut))
    × (feed fresh (stream chunks) ≡ some (b, cut))
chunks_do_not_matter_example = chunks_do_not_matter fresh chunks fresh-Waits

negative_size_wedges_example :
    feeds wedged chunks ≡ some (record wedged { buffer = stream chunks }, [])
negative_size_wedges_example = negative_size_wedges wedged chunks (omega arith)
