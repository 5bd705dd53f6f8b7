-- ===== src/Monitor/Arrival.antt =====
-- Messages from ExPipeClient::send (j2534_OverIP/expipeclient.cpp) to the dispatch in the monitoring
-- application (j2534_OverIP_App/exmessagepreprocessor.cpp).
use j2534_oip_wrapper.Prelude.{
  ℕ, ◌%◌, ◌^◌, ◌≡◌, ◌<◌, refl, ap, ◌∙◌, arith, List, [], ◌∷◌, ◌++◌, Option, none, some, length,
  take, All, ◌⊎◌,
}
use j2534_oip_wrapper.Prelude.Bytes.{to_le32}
use j2534_oip_wrapper.Message.{Result, ok, fault, ◌>>=◌, uninitialised}
use j2534_oip_wrapper.Cbor.{Cbor, Pairs, cbor_map, name, value_of, same_key}
use j2534_oip_wrapper.Pipe.{send_frame}
use j2534_oip_wrapper.Pipe.Envelope.{
  PipeMessage, Incoming, envelope, send, write_frame, write_file, read_message, read_fields,
  read_word, read_time, read_text, read_bytes,
}
use j2534_oip_wrapper.Pipe.Reassembly.{stream}
use j2534_oip_wrapper.Pipe.Frames.{Sent, frames, frames_arrive}
use j2534_oip_wrapper.Monitor.Views.{Qt, Application}
use j2534_oip_wrapper.Monitor.Server.{
  dispatch, initialised, incoming_message_from_client, process_frame, process_frames, process_data,
}

bind-cong :
    {A B : Type 0} (r : Result A) (f g : A → Result B)
    → ((a : A) → f a ≡ g a)
    → (r >>= f) ≡ (r >>= g)
bind-cong (ok a) f g h = h a
bind-cong (fault e) f g h = refl

-- Messages looked at one after the other.
abbrev pub dispatch_all : Qt → ℕ → List PipeMessage → Application → Result Application
dispatch_all qt now [] app = ok app
dispatch_all qt now (m ∷ ms) app = dispatch qt now m app >>= λ app'. dispatch_all qt now ms app'

module _ (encoder : Cbor → Option (List ℕ)) (qt : Qt) where
  -- What `send` can pass on: cn-cbor encodes the map of the message, Qt reads the same map, and the
  -- numbers fit their 32-bit members.
  pub record Passable (m : PipeMessage) : Type 0 where
    pub bytes : List ℕ
    pub encodes : encoder (envelope m) ≡ some bytes
    pub decodes : qt.from_cbor bytes ≡ envelope m
    pub sent : Sent bytes
    pub id_fits : m.id < 2 ^ 32
    pub msg_type_fits : m.msg_type < 2 ^ 32
    pub data_type_fits : m.data_type < 2 ^ 32

  abbrev encoded_size : Option (List ℕ) → Option ℕ
  encoded_size none = none
  encoded_size (some bytes) = some (length bytes)

  -- The bytes in the pipe when WriteFile takes everything.
  abbrev pub wire : List PipeMessage → List ℕ
  wire [] = []
  wire (m ∷ ms) = send encoder (some 4) (encoded_size (encoder (envelope m))) m ++ wire ms

  abbrev payloads : (ms : List PipeMessage) → All Passable ms → List (List ℕ)
  payloads [] h = []
  payloads (m ∷ ms) (p, ps) = p.bytes ∷ payloads ms ps

  payloads-Sent : (ms : List PipeMessage) (h : All Passable ms) → All Sent (payloads ms h)
  payloads-Sent [] h = tt
  payloads-Sent (m ∷ ms) (p, ps) = (p.sent, payloads-Sent ms ps)

  take_all : (xs : List ℕ) → take (length xs) xs ≡ xs
  take_all [] = refl
  take_all (x ∷ xs) = ap (λ t. x ∷ t) (take_all xs)

  write_whole : (cbor : List ℕ) → write_frame (some 4) (some (length cbor)) cbor ≡ send_frame cbor
  unfolding write_frame write_file send_frame
  write_whole cbor = ap (λ t. to_le32 (length cbor) ++ t) (take_all cbor)

  send_whole :
      (m : PipeMessage) (p : Passable m)
      → send encoder (some 4) (encoded_size (encoder (envelope m))) m ≡ send_frame p.bytes
  unfolding send
  send_whole m p =
      rw (p.encodes, send)
        (ap (λ o. write_frame (some 4) (encoded_size o) p.bytes) p.encodes ∙ write_whole p.bytes)

  wire-frames : (ms : List PipeMessage) (h : All Passable ms) → wire ms ≡ frames (payloads ms h)
  wire-frames [] h = refl
  wire-frames (m ∷ ms) (p, ps) = cc (send_whole m p, wire-frames ms ps)

  process_frame-dispatch :
      (now : ℕ) (app : Application) (m : PipeMessage) (p : Passable m)
      → process_frame qt now p.bytes app ≡ dispatch qt now m app
  unfolding process_frame incoming_message_from_client initialised read_message read_fields
      read_word read_time read_text read_bytes value_of same_key envelope
  process_frame-dispatch now app m p =
      let i : m.id % 2 ^ 32 ≡ m.id = omega (arith, p.id_fits) in
      let t : m.msg_type % 2 ^ 32 ≡ m.msg_type = omega (arith, p.msg_type_fits) in
      let d : m.data_type % 2 ^ 32 ≡ m.data_type = omega (arith, p.data_type_fits) in
      rw (p.decodes, process_frame) (rw (i, t, d) refl)

  process_frames-dispatch :
      (now : ℕ) (app : Application) (ms : List PipeMessage) (h : All Passable ms)
      → process_frames qt now (payloads ms h) app ≡ dispatch_all qt now ms app
  unfolding process_frames
  process_frames-dispatch now app [] h = refl
  process_frames-dispatch now app (m ∷ ms) (p, ps) =
      ap (λ r. r >>= λ app'. process_frames qt now (payloads ms ps) app')
        (process_frame-dispatch now app m p)
      ∙ bind-cong (dispatch qt now m app) _ _ λ app'. process_frames-dispatch now app' ms ps

  -- Messages that can be passed on, sent one after the other on a new connection, are looked at in
  -- their order and as they were sent, however the bytes in the pipe are cut into chunks, and
  -- nothing is left in the buffer of the connection.
  pub messages_arrive :
      (now : ℕ) (app : Application) (ms : List PipeMessage) (chunks : List (List ℕ))
      → All Passable ms
      → stream chunks ≡ wire ms
      → process_data qt now (record { size = 0; buffer = [] }) chunks app
        ≡ some (record { size = 0; buffer = [] }, dispatch_all qt now ms app)
  unfolding process_data
  messages_arrive now app ms chunks h same =
      rw
        (
          frames_arrive (payloads ms h) chunks (payloads-Sent ms h) (same ∙ wire-frames ms h),
          process_data,
        )
        (ap (λ r. some (record { size = 0; buffer = [] }, r))
          (process_frames-dispatch now app ms h))

-- A map without an integer for one of the numbers.
abbrev pub LacksNumber : Pairs → Type 0
LacksNumber ps =
    (read_word (value_of (name "id") ps) ≡ none)
    ⊎ (read_time (value_of (name "timestamp") ps) ≡ none)
    ⊎ (read_word (value_of (name "type") ps) ≡ none)
    ⊎ (read_word (value_of (name "data_type") ps) ≡ none)

initialised-fault :
    (m : Incoming)
    → (m.id ≡ none) ⊎ (m.timestamp ≡ none) ⊎ (m.msg_type ≡ none) ⊎ (m.data_type ≡ none)
    → initialised m ≡ fault uninitialised
unfolding initialised
initialised-fault m h = ground (arith, h)

incoming-fault :
    (qt : Qt) (now : ℕ) (m : Incoming) (app : Application)
    → initialised m ≡ fault uninitialised
    → incoming_message_from_client qt now m app ≡ fault uninitialised
unfolding incoming_message_from_client
incoming-fault qt now m app h = ap (λ r. r >>= λ msg. dispatch qt now msg app) h

-- A message whose map lacks an integer for its id, time stamp, type or data type is passed on all the
-- same, and an uninitialised member is read.
pub missing_number_faults :
    (qt : Qt) (now : ℕ) (app : Application) (bytes : List ℕ) (ps : Pairs)
    → qt.from_cbor bytes ≡ cbor_map ps
    → LacksNumber ps
    → process_frame qt now bytes app ≡ fault uninitialised
unfolding process_frame read_message read_fields
missing_number_faults qt now app bytes ps d h =
    rw (d, process_frame)
      (incoming-fault qt now (read_fields ps) app (initialised-fault (read_fields ps) h))
