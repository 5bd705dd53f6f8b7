-- ===== src/Examples/Application.antt =====
-- Examples of the monitoring application.
use j2534_oip_wrapper.Prelude.{
  ℕ, ◌≡◌, ◌≢◌, refl, arith, List, [], ◌∷◌, map, Bool, true, false, Option, none, some, inl, inr,
  codes,
}
use j2534_oip_wrapper.Prelude.Bytes.{to_le32}
use j2534_oip_wrapper.Message.{PassThruMsg, ok, fault, uninitialised, status_noerror}
use j2534_oip_wrapper.Report
use j2534_oip_wrapper.Report.{Fn, entry, int, param1, param2, param3, param4}
use j2534_oip_wrapper.Cbor.{
  Cbor, undefined, integer, cbor_map, pair, name, no_pairs, value_of, same_key, to_map,
}
use j2534_oip_wrapper.Cbor.Encode.{fn_name, encode_puts, cbor_to_data}
use j2534_oip_wrapper.Pipe.Envelope.{PipeMessage, envelope, read_word, write_frame, write_file}
use j2534_oip_wrapper.Pipe.Envelope
use j2534_oip_wrapper.Monitor.Views.{
  Qt, Element, WrapperPage, Application, new_page, new_application, new_element, add_element,
  stamped, process_wrapper, process_emulator, get_dll_funcs, function_key,
}
use j2534_oip_wrapper.DllWrapper.{
  Wrapper, new_wrapper, Notice, loaded_functions, load_dll, assign_functions, load_function,
}
use j2534_oip_wrapper.DllWrapper.Notices.{encode_notice, notice_message}
use j2534_oip_wrapper.DllWrapper.Methods
use j2534_oip_wrapper.Emulator
use j2534_oip_wrapper.Emulator.{Emulator, flow_control_msg, write_first}
use j2534_oip_wrapper.Emulator.Methods as EmulatorMethods
use j2534_oip_wrapper.Monitor.Pages.{
  dispatch_changes_one_page, names_where, load_notice, loaded_functions_shown, read_page,
}
use j2534_oip_wrapper.Monitor.Journey.{read_notice, read_message, read_reaches_page}
use j2534_oip_wrapper.Interface.{deref}
use j2534_oip_wrapper.Crc32.{crc32, crc_bytes}
use j2534_oip_wrapper.Monitor.{at_key}
use j2534_oip_wrapper.Monitor.History.{
  JsonMessage, Json, json_message, export_to_json, load_wrapper,
}
use j2534_oip_wrapper.Monitor.Reload.{reloaded, reload_reverses}
use j2534_oip_wrapper.Monitor.Server.{dispatch, process_frame, process_data}
use j2534_oip_wrapper.Monitor.Arrival.{dispatch_all, messages_arrive, missing_number_faults}

-- A map with text keys is that of a message, for which there is one byte; a report has none.
abbrev encoder : Cbor → Option (List ℕ)
encoder (cbor_map (pair (name s) v ps)) = some (2 ∷ [])
encoder v = some []

abbrev qt_for : Cbor → Cbor → Qt
qt_for message report = record {
  from_cbor = from_cbor;
  number_text = λ n. [];
  hex_text = λ n. [];
  time_text = λ format t. [];
}
  where
    from_cbor : List ℕ → Cbor
    from_cbor (byte ∷ bytes) = message
    from_cbor [] = report

abbrev text_message : PipeMessage
text_message = record {
  id = 7;
  msg_type = 3;
  data_type = 0;
  timestamp = 99;
  path = codes "app.exe";
  message = codes "J2534Emulator PassThruReadVersion called!";
  payload = [];
}

abbrev text_qt : Qt
text_qt = qt_for (envelope text_message) undefined

messages_arrive_example :
    process_data text_qt 5
      (record { size = 0; buffer = [] })
      ((1 ∷ 0 ∷ []) ∷ (0 ∷ 0 ∷ 2 ∷ []) ∷ [])
      new_application
    ≡ some (
      record { size = 0; buffer = [] },
      dispatch_all text_qt 5 (text_message ∷ []) new_application,
    )
unfolding Envelope.send envelope write_frame write_file to_le32
messages_arrive_example =
    messages_arrive encoder text_qt 5 new_application (text_message ∷ [])
      ((1 ∷ 0 ∷ []) ∷ (0 ∷ 0 ∷ 2 ∷ []) ∷ [])
      (
        record {
          bytes = 2 ∷ [];
          encodes = refl;
          decodes = refl;
          sent = record { some_bytes = omega arith; fits = omega arith };
          id_fits = omega arith;
          msg_type_fits = omega arith;
          data_type_fits = omega arith;
        },
        tt,
      )
      refl

missing_number_faults_example :
    process_frame
      (qt_for (cbor_map (pair (name "id") (integer 7) no_pairs)) undefined)
      5
      (2 ∷ [])
      new_application
    ≡ fault uninitialised
unfolding value_of same_key read_word
missing_number_faults_example =
    missing_number_faults (qt_for (cbor_map (pair (name "id") (integer 7) no_pairs)) undefined) 5
      new_application (2 ∷ []) (pair (name "id") (integer 7) no_pairs) refl (inr (inr (inl refl)))

dispatch_changes_one_page_example :
    let app : Application = record new_application {
      emulator = add_element (new_element text_message) new_page;
    } in
    (text_message.msg_type ≢ 2 → app.wrapper ≡ new_application.wrapper)
    × (text_message.msg_type ≢ 3 → app.emulator ≡ new_application.emulator)
    × (text_message.msg_type ≢ 4 → app.cannelloni ≡ new_application.cannelloni)
unfolding dispatch process_emulator stamped add_element new_application
dispatch_changes_one_page_example =
    dispatch_changes_one_page text_qt 5 text_message new_application
      (record new_application { emulator = add_element (new_element text_message) new_page }) refl

abbrev new_dll : Emulator
new_dll = record { dev_counter = 0; sent = [] }

abbrev dll_path : List ℕ
dll_path = codes "C:\\op20pt32.dll"

abbrev function_text : Fn → List ℕ
function_text f = codes (fn_name f)

-- The DLL exports two of the functions.
abbrev exports : Fn → Bool
exports Report.pass_thru_open = true
exports Report.pass_thru_close = true
exports f = false

abbrev load_message : PipeMessage
load_message = record text_message { msg_type = 2; data_type = 2 }

abbrev load_qt : Qt
load_qt = qt_for undefined (encode_notice function_text (load_notice exports dll_path))

loaded_functions_shown_example :
    (w' : WrapperPage) × ((load_dll true exports dll_path (new_wrapper 0x100 new_dll)).0.sent
      ≡ load_notice exports dll_path ∷ (new_wrapper 0x100 new_dll).sent)
    × (process_wrapper load_qt 5 load_message new_application.wrapper ≡ ok w')
    × (get_dll_funcs load_qt w' true ≡ "PassThruOpen" ∷ "PassThruClose" ∷ [])
    × (get_dll_funcs load_qt w' false ≡ names_where exports false loaded_functions)
    × (map (λ (e : Element). e.has_error) w'.page.elements ≡ false ∷ [])
unfolding fn_name new_application
loaded_functions_shown_example =
    loaded_functions_shown load_qt 5 function_text exports dll_path (new_wrapper 0x100 new_dll)
      load_message new_application.wrapper refl refl

abbrev blank_msg : PassThruMsg
blank_msg = record {
  protocol_id = 6;
  rx_status = 0;
  tx_flags = 0;
  timestamp = 0;
  data_size = 0;
  extra_data_index = 0;
  bytes = [];
}

abbrev wrapper : Wrapper Emulator
wrapper = (load_dll true (λ f. true) dll_path (new_wrapper 0x100 new_dll)).0

abbrev dll_after_read : Emulator
dll_after_read = Emulator.send_report new_dll Report.pass_thru_read_msgs (
    entry param1 (int 3)
    ∷ entry param2 (int 0)
    ∷ entry param3 (int 1)
    ∷ entry param4 (int 100)
    ∷ [])

abbrev notice : Notice
notice = read_notice 3 100 2 1 status_noerror (flow_control_msg ∷ [])

abbrev page_message : PipeMessage
page_message =
    read_message encoder function_text [] 1_700_000_000_000 3 100 2 1 status_noerror
      (flow_control_msg ∷ [])

abbrev read_qt : Qt
read_qt = qt_for (envelope page_message) (encode_notice function_text notice)

read_reaches_page_example :
    (Methods.methods EmulatorMethods.methods Report.pass_thru_read_msgs
        (3, some (blank_msg ∷ blank_msg ∷ []), some 2, 100)
        wrapper
      ≡ ok (
        status_noerror,
        (3, some (flow_control_msg ∷ blank_msg ∷ []), some 1, 100),
        record wrapper { dll = dll_after_read; sent = notice ∷ wrapper.sent },
      ))
    × (process_data read_qt 5
          (record { size = 0; buffer = [] })
          ((1 ∷ 0 ∷ []) ∷ (0 ∷ 0 ∷ 2 ∷ []) ∷ [])
          new_application
        ≡ some (
          record { size = 0; buffer = [] },
          ok (record new_application {
            wrapper = read_page 5 page_message (flow_control_msg ∷ []) new_application.wrapper;
          }),
        ))
unfolding EmulatorMethods.methods Emulator.pass_thru_read_msgs deref write_first load_dll
    assign_functions load_function new_wrapper Envelope.send envelope write_frame write_file to_le32
    notice_message encode_notice encode_puts cbor_to_data crc32 crc_bytes
read_reaches_page_example =
    read_reaches_page encoder read_qt function_text EmulatorMethods.methods wrapper []
      1_700_000_000_000 5 3 100 2 1 status_noerror (some (blank_msg ∷ blank_msg ∷ []))
      (flow_control_msg ∷ blank_msg ∷ []) dll_after_read new_application
      ((1 ∷ 0 ∷ []) ∷ (0 ∷ 0 ∷ 2 ∷ []) ∷ []) refl refl (omega arith)
      (omega arith, (omega arith, tt))
      (record {
        bytes = 2 ∷ [];
        encodes = refl;
        decodes = refl;
        sent = record { some_bytes = omega arith; fits = omega arith };
        id_fits = omega arith;
        msg_type_fits = omega arith;
        data_type_fits = omega arith;
      })
      refl refl

-- A JSON text of one character, for two messages.
abbrev json_for : List (JsonMessage Unit) → Json Unit
json_for messages = record {
  to_json_value = λ v. tt;
  from_json_value = λ j. undefined;
  to_cbor = λ v. [];
  to_json = λ ms. b'j' ∷ [];
  from_json = λ text. messages;
}

abbrev first : Element
first = new_element (record text_message { msg_type = 2; timestamp = 100 })

abbrev second : Element
second = new_element (record text_message { msg_type = 2; timestamp = 200 })

abbrev history : List (JsonMessage Unit)
history =
    json_message text_qt (json_for []) second.msg
    ∷ json_message text_qt (json_for []) first.msg
    ∷ []

reload_reverses_example :
    load_wrapper text_qt
      (json_for history)
      5
      (export_to_json text_qt (json_for history) true (second ∷ first ∷ []) none)
      new_application.wrapper
    ≡ ok (record new_application.wrapper {
      page = record new_page {
        elements =
            reloaded text_qt (json_for history) first
            ∷ reloaded text_qt (json_for history) second
            ∷ [];
      };
    })
unfolding json_message new_application function_key at_key value_of same_key to_map
reload_reverses_example =
    reload_reverses text_qt (json_for history) 5 (second ∷ first ∷ []) none new_application.wrapper
      (
        record {
          id_fits = omega arith;
          msg_type_fits = omega arith;
          data_type_fits = omega arith;
          has_time = λ e. omega arith;
          keyless = refl;
        },
        (
          record {
            id_fits = omega arith;
            msg_type_fits = omega arith;
            data_type_fits = omega arith;
            has_time = λ e. omega arith;
            keyless = refl;
          },
          tt,
        ),
      )
      refl
