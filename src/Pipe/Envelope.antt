-- ===== src/Pipe/Envelope.antt =====
-- The messages of the named pipe: ExPipeClient::Message and ExPipeClient::send
-- (j2534_OverIP/expipeclient.{h,cpp}), and how ExPipeServer::processData
-- (j2534_OverIP_App/expipeserver.cpp) reads a PipeMessage out of the data that it has cut off. Texts
-- are ASCII without a zero byte.
use Prim.Native.String.{String}
use j2534_oip_wrapper.Prelude.{
  ℕ, ◌^◌, ◌%◌, List, [], ◌++◌, Option, none, some, length, take, ◌==◌, if◌then◌else◌,
}
use j2534_oip_wrapper.Prelude.Bytes.{to_le32}
use j2534_oip_wrapper.Cbor.{
  Cbor, Pairs, integer, text_string, byte_array, cbor_map, name, no_pairs, pair, value_of,
}

-- ExPipeClient::Message, and the PipeMessage of j2534_OverIP_App/types.h: `msg_type` is `type`,
-- `payload` is `data`.
pub record PipeMessage : Type 0 where
  pub id : ℕ
  pub msg_type : ℕ
  pub data_type : ℕ
  pub timestamp : ℕ
  pub path : List ℕ
  pub message : List ℕ
  pub payload : List ℕ

abbrev by_name : String → Cbor → Pairs → Pairs
by_name key v ps = pair (name key) v ps

-- The map that `send` builds.
unfoldable pub envelope : PipeMessage → Cbor
envelope m = cbor_map (
    by_name "id" (integer m.id) (
      by_name "type" (integer m.msg_type) (
        by_name "data_type" (integer m.data_type) (
          by_name "timestamp" (integer m.timestamp) (
            by_name "path" (text_string m.path) (
              by_name "message" (text_string m.message)
                (by_name "data" (byte_array m.payload) no_pairs)))))))

-- What WriteFile puts into the pipe: it fails, or takes a number of the bytes.
unfoldable pub write_file : Option ℕ → List ℕ → List ℕ
write_file none bytes = []
write_file (some count) bytes = take count bytes

-- The bytes that reach the pipe, by the two answers of WriteFile: the message only follows a size
-- that is written whole.
unfoldable pub write_frame : Option ℕ → Option ℕ → List ℕ → List ℕ
unfolding write_file
write_frame none second cbor = []
write_frame (some count) second cbor =
    let size = to_le32 (length cbor) in
    if count == 4 then size ++ write_file second cbor else write_file (some count) size

-- `send`. `encoder` is cn_cbor_encoder_write; without a size nothing is written.
unfoldable pub send : (Cbor → Option (List ℕ)) → Option ℕ → Option ℕ → PipeMessage → List ℕ
unfolding envelope write_frame
send encoder first second m = elim (encoder (envelope m)) [
  | none ↦ []
  | some cbor ↦ write_frame first second cbor
]

-- A PipeMessage as it is filled: a number without an entry stays uninitialised, here `none`.
pub record Incoming : Type 0 where
  pub id : Option ℕ
  pub msg_type : Option ℕ
  pub data_type : Option ℕ
  pub timestamp : Option ℕ
  pub path : List ℕ
  pub message : List ℕ
  pub payload : List ℕ

-- The entries that are read if they are there with the right type, and else reported on the console:
-- `isInteger`, with the conversion to uint32_t; `isString`; `isByteArray`.
unfoldable pub read_word : Cbor → Option ℕ
read_word (integer n) = some (n % 2 ^ 32)
read_word v = none

unfoldable pub read_time : Cbor → Option ℕ
read_time (integer n) = some n
read_time v = none

unfoldable pub read_text : Cbor → List ℕ
read_text (text_string s) = s
read_text v = []

unfoldable pub read_bytes : Cbor → List ℕ
read_bytes (byte_array bytes) = bytes
read_bytes v = []

unfoldable pub read_fields : Pairs → Incoming
unfolding read_word read_time read_text read_bytes value_of
read_fields ps = record {
  id = read_word (value_of (name "id") ps);
  msg_type = read_word (value_of (name "type") ps);
  data_type = read_word (value_of (name "data_type") ps);
  timestamp = read_time (value_of (name "timestamp") ps);
  path = read_text (value_of (name "path") ps);
  message = read_text (value_of (name "message") ps);
  payload = read_bytes (value_of (name "data") ps);
}

-- The data must be a map.
unfoldable pub read_message : Cbor → Option Incoming
unfolding read_fields
read_message (cbor_map ps) = some (read_fields ps)
read_message v = none
