-- ===== src/DllWrapper/Notices.antt =====
-- The messages that J2534DllWrapper (j2534_OverIP/j2534dllwrapper.cpp) hands to ExPipeClient::send:
-- the process's identity, the type, the text, and the map of what the wrapper tells.
use j2534_oip_wrapper.Prelude.{ℕ, List, Option, codes}
use j2534_oip_wrapper.Crc32.{crc32}
use j2534_oip_wrapper.Report.{Fn}
use j2534_oip_wrapper.Cbor.{Cbor, cbor_map}
use j2534_oip_wrapper.Cbor.Encode.{
  fn_name, encode_puts, encode_connected, encode_loaded, cbor_to_data,
}
use j2534_oip_wrapper.Pipe.Envelope.{PipeMessage}
use j2534_oip_wrapper.DllWrapper.{Notice, connected, call_report, wrapped_functions}

-- The text of the message.
unfoldable pub notice_text : Notice → List ℕ
unfolding fn_name
notice_text (connected this) = codes "J2534DllWrapper Verbunden!"
notice_text (call_report r) = codes (fn_name r.label)
notice_text (wrapped_functions path functions) = codes "wrapped functions"

-- The map; `function_text` is `__FUNCTION__` in a method.
unfoldable pub encode_notice : (Fn → List ℕ) → Notice → Cbor
unfolding encode_puts encode_connected encode_loaded
encode_notice function_text (connected this) = encode_connected this
encode_notice function_text (call_report r) = cbor_map (encode_puts function_text r.puts)
encode_notice function_text (wrapped_functions path functions) = encode_loaded path functions

-- The message of a process at a time: its id is the checksum of its path, the type is that of
-- the wrapper, the data type that of function reports.
unfoldable pub notice_message :
    (Cbor → Option (List ℕ)) → (Fn → List ℕ) → List ℕ → ℕ → Notice → PipeMessage
unfolding notice_text encode_notice cbor_to_data
notice_message encoder function_text process_path now notice = record {
  id = crc32 process_path;
  msg_type = 2;
  data_type = 2;
  timestamp = now;
  path = process_path;
  message = notice_text notice;
  payload = cbor_to_data encoder (encode_notice function_text notice);
}
