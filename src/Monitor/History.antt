-- ===== src/Monitor/History.antt =====
-- exportToJSON and loadFromJSON of ExJ2534Wrapper and ExJ2534Cannelloni
-- (j2534_OverIP_App/exj2534wrapper.cpp and exj2534cannelloni.cpp, where they have the same text).
use j2534_oip_wrapper.Prelude.{
  ℕ, ◌%◌, ◌^◌, List, [], ◌∷◌, Bool, Option, none, some, map, if◌then◌else◌,
}
use j2534_oip_wrapper.Message.{Result, ok, ◌>>=◌}
use j2534_oip_wrapper.Cbor.{Cbor}
use j2534_oip_wrapper.Pipe.Envelope.{PipeMessage}
use j2534_oip_wrapper.Monitor.Views.{
  Qt, Element, Page, WrapperPage, process_wrapper, process_cannelloni,
}

-- The object of an element; `J` is QJsonValue.
pub record JsonMessage (J : Type 0) : Type 0 where
  pub id : ℕ
  pub data_type : ℕ
  pub msg_type : ℕ
  pub timestamp : ℕ
  pub path : List ℕ
  pub message : List ℕ
  pub payload : J

-- What the two functions call Qt for: QCborValue::toJsonValue, fromJsonValue and toCbor, and the text
-- of a document with an array of these objects and back.
pub record Json (J : Type 0) : Type 0 where
  pub to_json_value : Cbor → J
  pub from_json_value : J → Cbor
  pub to_cbor : Cbor → List ℕ
  pub to_json : List (JsonMessage J) → List ℕ
  pub from_json : List ℕ → List (JsonMessage J)

module _ {J : Type 0} (qt : Qt) (json : Json J) where
  unfoldable pub json_message : PipeMessage → JsonMessage J
  json_message m = record {
    id = m.id;
    data_type = m.data_type;
    msg_type = m.msg_type;
    timestamp = m.timestamp;
    path = m.path;
    message = m.message;
    payload = json.to_json_value (qt.from_cbor m.payload);
  }

  -- exportToJSON: the contents of the file afterwards, `none` if there is none. `opens` says that it
  -- can be written.
  unfoldable pub export_to_json : Bool → List Element → Option (List ℕ) → Option (List ℕ)
  unfolding json_message
  export_to_json opens elements file =
      if opens
      then some (json.to_json (map (λ (e : Element). json_message e.msg) elements))
      else file

  -- One PipeMessage of loadFromJSON.
  unfoldable pub loaded_message : JsonMessage J → PipeMessage
  loaded_message o = record {
    id = o.id % 2 ^ 32;
    data_type = o.data_type % 2 ^ 32;
    msg_type = o.msg_type % 2 ^ 32;
    timestamp = o.timestamp;
    path = o.path;
    message = o.message;
    payload = json.to_cbor (json.from_json_value o.payload);
  }

  -- The loop of loadFromJSON, with the page's processPipeMessage.
  unfoldable pub load_messages :
      {P : Type 0} → (PipeMessage → P → Result P) → List (JsonMessage J) → P → Result P
  unfolding loaded_message
  load_messages process [] p = ok p
  load_messages process (o ∷ os) p =
      process (loaded_message o) p >>= λ p'. load_messages process os p'

  -- loadFromJSON of a file with these contents, `none` if it cannot be opened.
  unfoldable pub load_from_json :
      {P : Type 0} → (PipeMessage → P → Result P) → Option (List ℕ) → P → Result P
  unfolding load_messages
  load_from_json process none p = ok p
  load_from_json process (some text) p = load_messages process (json.from_json text) p

  unfoldable pub load_wrapper : ℕ → Option (List ℕ) → WrapperPage → Result WrapperPage
  unfolding load_from_json process_wrapper
  load_wrapper now file w = load_from_json (process_wrapper qt now) file w

  unfoldable pub load_cannelloni : ℕ → Option (List ℕ) → Page → Result Page
  unfolding load_from_json process_cannelloni
  load_cannelloni now file p = load_from_json (process_cannelloni qt now) file p
