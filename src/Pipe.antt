-- ===== src/Pipe.antt =====
-- The named pipe between the library and the monitoring application: the framing of a message in
-- ExPipeClient::send (j2534_OverIP/expipeclient.cpp), and the reassembly of the chunks that the
-- application reads in ExPipeServer::processData (j2534_OverIP_App/expipeserver.cpp).
pub mod Steps
pub mod Reassembly
pub mod Frames
pub mod Envelope
pub mod Connect
use j2534_oip_wrapper.Prelude.{
  ℕ, zero, suc, ◌^◌, List, [], ◌∷◌, ◌++◌, Bool, ◌&&◌, ◌||◌, Option, none, some, length, take, drop,
  leb, ltb, ◌==◌, if◌then◌else◌,
}
use j2534_oip_wrapper.Prelude.Bytes.{to_le32, of_le32}

-- The size as a 4-byte integer, then the encoded message.
unfoldable pub send_frame : List ℕ → List ℕ
send_frame payload = to_le32 (length payload) ++ payload

-- Buffer and size of a connection. `size` is the word of a signed 32-bit integer; 0 while no size has been read.
pub record Assembly : Type 0 where
  pub size : ℕ
  pub buffer : List ℕ

-- `size > 0` of the signed integer.
unfoldable pub is_positive : ℕ → Bool
is_positive size = ltb 0 size && ltb size (2 ^ 31)

-- The parts of the loop's condition, which its body tests again.
unfoldable pub has_header : Assembly → Bool
has_header a = a.size == 0 && leb 4 (length a.buffer)

unfoldable pub has_payload : Assembly → Bool
unfolding is_positive
has_payload a = is_positive a.size && leb a.size (length a.buffer)

unfoldable pub has_work : Assembly → Bool
has_work a = has_header a || has_payload a

-- The first `if` of the body.
unfoldable pub read_size : Assembly → Assembly
read_size a =
    if has_header a then record { size = of_le32 a.buffer; buffer = drop 4 a.buffer } else a

-- The second: the data that is cut off, if any.
unfoldable pub take_payload : Assembly → Assembly × List (List ℕ)
take_payload a =
    if has_payload a
    then (record { size = 0; buffer = drop a.size a.buffer }, take a.size a.buffer ∷ [])
    else (a, [])

-- The loop: the messages that are passed on, in their order, and what is left. `none` means that the fuel ran out.
unfoldable pub assemble : ℕ → Assembly → Option (Assembly × List (List ℕ))
assemble zero a = none
assemble (suc fuel) a =
    let (next, cut) = take_payload (read_size a) in
    let rest = assemble fuel next in
    if has_work a
    then elim rest [ none ↦ none | some (last, more) ↦ some (last, cut ++ more) ]
    else some (a, [])

-- A chunk that is read from the connection. Every round of the loop takes at least one byte off
-- the buffer.
unfoldable pub feed : Assembly → List ℕ → Option (Assembly × List (List ℕ))
feed a chunk = assemble (suc (length (a.buffer ++ chunk))) (record a { buffer = a.buffer ++ chunk })

-- Chunks one after the other.
unfoldable pub feeds : Assembly → List (List ℕ) → Option (Assembly × List (List ℕ))
feeds a [] = some (a, [])
feeds a (chunk ∷ chunks) = elim (feed a chunk) [
  | none ↦ none
  | some (a', cut) ↦ elim (feeds a' chunks) [
    | none ↦ none
    | some (last, more) ↦ some (last, cut ++ more)
  ]
]
