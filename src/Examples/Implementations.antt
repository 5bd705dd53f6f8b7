-- ===== src/Examples/Implementations.antt =====
-- Examples of the DLL wrapper, the emulator and the choice of the implementation.
use j2534_oip_wrapper.Prelude.{
  ℕ, ◌≡◌, refl, arith, List, [], ◌∷◌, map, true, false, none, some, inl, codes,
}
use j2534_oip_wrapper.Message.{
  PassThruMsg, ok, fault, null_pointer, uninitialised, use_after_free, status_noerror,
}
use j2534_oip_wrapper.Report
use j2534_oip_wrapper.Report.{
  Fn, Put, entry, error, int, param1, param2, param3, param4, not_found_in_dll,
}
use j2534_oip_wrapper.Crc32.{
  crc32, crc_bytes, crc_table, crc_table_from, table_rounds, table_round, checksum,
}
use j2534_oip_wrapper.Crc32.Table.{crc32-checksum}
use j2534_oip_wrapper.Interface.{Call, Reply, Text, run, deref}
use j2534_oip_wrapper.Interface.Runs.{in_run}
use j2534_oip_wrapper.SimpleLogger.{Log, log_and_refuse}
use j2534_oip_wrapper.DllWrapper.{is_stale, new_wrapper, load_dll, indeterminate, assign_functions}
use j2534_oip_wrapper.DllWrapper.Methods
use j2534_oip_wrapper.DllWrapper.Transparent.{Forwardable}
use j2534_oip_wrapper.DllWrapper.Failures.{
  missing_function, unset_pointer_faults, enumeration_end_faults,
}
use j2534_oip_wrapper.Emulator
use j2534_oip_wrapper.Emulator.{Emulator, write_first, flow_control_msg}
use j2534_oip_wrapper.Emulator.Methods as EmulatorMethods
use j2534_oip_wrapper.Emulator.Replies.{run_succeeds}
use j2534_oip_wrapper.Global.{
  dll_wrapper, Process, process_attach, dll_main, new_global, exported_call, selected_class,
  from_registry, registry_value, text_eq,
}
use j2534_oip_wrapper.Global.Dispatch.{seen_dll, refusal, exports_reach_dll, unknown_class_refused}

-- The emulator in the place of the wrapped DLL.
abbrev pub new_dll : Emulator
new_dll = record { dev_counter = 0; sent = [] }

abbrev path_text : Text
path_text = codes "C:\\op20pt32.dll"

abbrev pub blank_msg : PassThruMsg
blank_msg = record {
  protocol_id = 6;
  rx_status = 0;
  tx_flags = 0;
  timestamp = 0;
  data_size = 0;
  extra_data_index = 0;
  bytes = [];
}

abbrev pub open_call : Call
open_call = record { fn = Report.pass_thru_open; args = (none, some 0) }

abbrev connect_call : Call
connect_call = record { fn = Report.pass_thru_connect; args = (777, 6, 0, 500_000, some 0) }

abbrev read_call : Call
read_call = record {
  fn = Report.pass_thru_read_msgs;
  args = (3, some (blank_msg ∷ blank_msg ∷ []), some 2, 100);
}

abbrev session : List Call
session = open_call ∷ connect_call ∷ read_call ∷ []

-- Only the key of version 05.00 can be opened.
abbrev process : Text → Process Emulator Log
process name = record {
  class_0404 = none;
  class_0500 = some (some name);
  path_0404 = none;
  path_0500 = some (some path_text);
  wrapper_address = 0x100;
  emulator_address = 0x200;
  loads = true;
  exported = λ f. true;
  dll = new_dll;
  cannelloni_client = [];
}

session-Forwardable : Forwardable EmulatorMethods.methods (λ f. true) session new_dll
unfolding EmulatorMethods.methods Emulator.pass_thru_open Emulator.pass_thru_connect
    Emulator.pass_thru_read_msgs deref write_first is_stale
session-Forwardable = (
  tt,
  refl,
  tt,
  refl,
  (
    tt,
    (
      tt,
      refl,
      tt,
      refl,
      (tt, (tt, refl, tt, refl, ((omega arith, (omega arith, (omega arith, tt))), tt))),
    ),
  ),
)

exports_reach_dll_example :
    seen_dll EmulatorMethods.methods log_and_refuse (
      run (exported_call EmulatorMethods.methods log_and_refuse) session (record {
        factory = [];
        interface = some (
            dll_wrapper (record (new_wrapper 0x100 new_dll) {
              functions = assign_functions (λ f. true) (λ f. indeterminate);
            }));
      }))
    ≡ in_run (λ d. some d) (run EmulatorMethods.methods session new_dll)
unfolding new_wrapper
exports_reach_dll_example =
    exports_reach_dll EmulatorMethods.methods log_and_refuse [] (λ f. true) (λ f. indeterminate)
      (new_wrapper 0x100 new_dll) session session-Forwardable

unknown_class_refused_example :
    (g : _) × (run
        (exported_call EmulatorMethods.methods log_and_refuse)
        session
        (dll_main (process (codes "Unknown")) process_attach new_global)
      ≡ ok (map (refusal EmulatorMethods.methods log_and_refuse) session, g))
unfolding selected_class from_registry registry_value text_eq
unknown_class_refused_example =
    unknown_class_refused EmulatorMethods.methods log_and_refuse (process (codes "Unknown")) session
      (refl, refl, refl, refl)

run_succeeds_example :
    (replies : List Reply) × (e' : Emulator) × (run EmulatorMethods.methods session new_dll
      ≡ ok (replies, e'))
    × (map {B = Fn × ℕ} (λ (r : Reply). (r.fn, r.status)) replies
        ≡ (Report.pass_thru_open, status_noerror)
          ∷ (Report.pass_thru_connect, status_noerror)
          ∷ (Report.pass_thru_read_msgs, status_noerror)
          ∷ [])
run_succeeds_example = run_succeeds session new_dll (tt, (tt, ((tt, tt), tt)))

missing_function_example :
    Methods.methods EmulatorMethods.methods Report.pass_thru_open
      (none, some 5)
      (record (new_wrapper 0x100 new_dll) {
        functions = assign_functions (λ f. false) (λ f. indeterminate);
      })
    ≡ fault use_after_free
missing_function_example =
    missing_function EmulatorMethods.methods (λ f. false) (λ f. indeterminate) Report.pass_thru_open
      (none, some 5) (new_wrapper 0x100 new_dll) tt refl tt

unset_pointer_faults_example :
    Methods.methods EmulatorMethods.methods Report.pass_thru_open
      (none, some 5)
      (load_dll false (λ f. true) path_text (new_wrapper 0x100 new_dll)).0
    ≡ fault uninitialised
unset_pointer_faults_example =
    unset_pointer_faults EmulatorMethods.methods false (λ f. true) path_text 0x100 new_dll
      Report.pass_thru_open (none, some 5) (inl refl) tt

-- The emulator after it has listed its device.
abbrev listed : Emulator
listed = record { dev_counter = 1; sent = [] }

enumeration_end_faults_example :
    Methods.methods EmulatorMethods.methods Report.pass_thru_get_next_car_daq
      (some none, some 0, some none)
      (load_dll true (λ f. true) path_text (new_wrapper 0x100 listed)).0
    ≡ fault null_pointer
unfolding EmulatorMethods.methods EmulatorMethods.pass_thru_get_next_car_daq new_wrapper
enumeration_end_faults_example =
    enumeration_end_faults EmulatorMethods.methods (λ f. true) path_text (new_wrapper 0x100 listed)
      none 0 status_noerror (some none) (some none) (some 0) _ refl refl

-- The check value of the checksum: the nine digits.
abbrev nine_digits : List ℕ
nine_digits = codes "123456789"

crc32_of_digits : crc32 nine_digits ≡ 0xCBF43926
unfolding crc32 crc_bytes crc_table crc_table_from table_rounds table_round
crc32_of_digits = refl

crc32-checksum_example : crc32 nine_digits ≡ checksum nine_digits
crc32-checksum_example = crc32-checksum nine_digits (
  omega arith,
  (
    omega arith,
    (
      omega arith,
      (omega arith, (omega arith, (omega arith, (omega arith, (omega arith, (omega arith, tt)))))),
    ),
  ),
)
