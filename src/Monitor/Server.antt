-- ===== src/Monitor/Server.antt =====
-- The way of a message through the monitoring application: from the chunks that ExPipeServer reads
-- (j2534_OverIP_App/expipeserver.cpp) through ExMessagePreProcessor
-- (j2534_OverIP_App/exmessagepreprocessor.cpp) to the page that the message belongs to.
use j2534_oip_wrapper.Prelude.{ℕ, List, [], ◌∷◌, Option, none, some, ◌==◌, if◌then◌else◌}
use j2534_oip_wrapper.Message.{Result, ok, fault, ◌>>=◌, uninitialised}
use j2534_oip_wrapper.Pipe.{Assembly, feeds}
use j2534_oip_wrapper.Pipe.Envelope.{PipeMessage, Incoming, read_message}
use j2534_oip_wrapper.Monitor.Views.{
  Qt, Application, process_wrapper, process_emulator, process_cannelloni,
}

-- ExMessagePreProcessor::incommingMessageFromClient: the switch on the type.
unfoldable pub dispatch : Qt → ℕ → PipeMessage → Application → Result Application
unfolding process_wrapper process_emulator process_cannelloni
dispatch qt now m app =
    if m.msg_type == 2
    then (process_wrapper qt now m app.wrapper >>= λ w. ok (record app { wrapper = w }))
    else if m.msg_type == 3
    then (process_emulator qt now m app.emulator >>= λ p. ok (record app { emulator = p }))
    else if m.msg_type == 4
    then (process_cannelloni qt now m app.cannelloni >>= λ p. ok (record app { cannelloni = p }))
    else ok app

-- The members that the debug output and the switch read must be initialised.
unfoldable pub initialised : Incoming → Result PipeMessage
initialised m = elim m.id [
  | none ↦ fault uninitialised
  | some id ↦ elim m.timestamp [
    | none ↦ fault uninitialised
    | some timestamp ↦ elim m.msg_type [
      | none ↦ fault uninitialised
      | some msg_type ↦ elim m.data_type [
        | none ↦ fault uninitialised
        | some data_type ↦ ok (record {
          id = id;
          msg_type = msg_type;
          data_type = data_type;
          timestamp = timestamp;
          path = m.path;
          message = m.message;
          payload = m.payload;
        })
      ]
    ]
  ]
]

unfoldable pub incoming_message_from_client : Qt → ℕ → Incoming → Application → Result Application
unfolding initialised dispatch
incoming_message_from_client qt now m app = initialised m >>= λ msg. dispatch qt now msg app

-- The data of one frame: what is no map is dropped. Each message has its own timer.
unfoldable pub process_frame : Qt → ℕ → List ℕ → Application → Result Application
unfolding read_message incoming_message_from_client
process_frame qt now bytes app = elim (read_message (qt.from_cbor bytes)) [
  | none ↦ ok app
  | some m ↦ incoming_message_from_client qt now m app
]

unfoldable pub process_frames : Qt → ℕ → List (List ℕ) → Application → Result Application
unfolding process_frame
process_frames qt now [] app = ok app
process_frames qt now (bytes ∷ more) app =
    process_frame qt now bytes app >>= λ app'. process_frames qt now more app'

-- `processData` on the chunks of one connection: what stays in its buffer, and what the messages
-- make of the application.
unfoldable pub process_data :
    Qt → ℕ → Assembly → List (List ℕ) → Application → Option (Assembly × Result Application)
unfolding process_frames
process_data qt now a chunks app = elim (feeds a chunks) [
  | none ↦ none
  | some (a', cut) ↦ some (a', process_frames qt now cut app)
]
