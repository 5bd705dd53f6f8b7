-- ===== src/Cbor/Encode.antt =====
-- What goes into a report's CBOR map: the helpers of j2534_OverIP/cbor_utils.cpp, the numbers of the
-- keys in j2534_OverIP/expipeclient.h, and the maps that the constructors, loadDll and the methods
-- send.
use Prim.Native.String.{String}
use j2534_oip_wrapper.Prelude.{ℕ, List, [], ◌∷◌, ◌++◌, Bool, Option, none, some, take, codes}
use j2534_oip_wrapper.Message.{PassThruMsg}
use j2534_oip_wrapper.Report.{
  Fn, Key, Value, Put, int, text, freed_text, msgs, octets, fn_key, failure, not_implemented,
  not_found_in_dll, func_name, param1, param2, param3, param4, param5, param6, param7, rx_tx,
  retval_long, error,
}
use j2534_oip_wrapper.Report
use j2534_oip_wrapper.Cbor.{
  Cbor, Items, Pairs, integer, text_string, byte_array, boolean, array, cbor_map, number, name,
  no_items, item, no_pairs, pair,
}

-- The first enumeration of ExPipeClient and of PipeMessage.
unfoldable pub key_number : Key → ℕ
key_number func_name = 0
key_number param1 = 1
key_number param2 = 2
key_number param3 = 3
key_number param4 = 4
key_number param5 = 5
key_number param6 = 6
key_number param7 = 7
key_number rx_tx = 8
key_number retval_long = 9
key_number error = 10

-- The second, that of the functions.
unfoldable pub fn_number : Fn → ℕ
fn_number Report.pass_thru_open = 20
fn_number Report.pass_thru_close = 21
fn_number Report.pass_thru_select = 22
fn_number Report.pass_thru_connect = 23
fn_number Report.pass_thru_disconnect = 24
fn_number Report.pass_thru_get_last_error = 25
fn_number Report.pass_thru_ioctl = 26
fn_number Report.pass_thru_read_msgs = 27
fn_number Report.pass_thru_read_version = 28
fn_number Report.pass_thru_set_programming_voltage = 29
fn_number Report.pass_thru_start_msg_filter = 30
fn_number Report.pass_thru_start_periodic_msg = 31
fn_number Report.pass_thru_stop_msg_filter = 32
fn_number Report.pass_thru_stop_periodic_msg = 33
fn_number Report.pass_thru_scan_for_devices = 34
fn_number Report.pass_thru_get_next_device = 35
fn_number Report.pass_thru_write_msgs = 36
fn_number Report.pass_thru_ex_configure_wifi = 37
fn_number Report.pass_thru_ex_device_watchdog = 38
fn_number Report.pass_thru_ex_download_cyphered_flash_data = 39
fn_number Report.pass_thru_ex_erase_flash = 40
fn_number Report.pass_thru_ex_initiate_cyphered_flash_download = 41
fn_number Report.pass_thru_ex_read_flash = 42
fn_number Report.pass_thru_ex_reset_flash = 43
fn_number Report.pass_thru_ex_run_self_test = 44
fn_number Report.pass_thru_ex_write_flash = 45
fn_number Report.pass_thru_load_firmware = 46
fn_number Report.pass_thru_recover_firmware = 47
fn_number Report.pass_thru_read_ip_setup = 48
fn_number Report.pass_thru_write_ip_setup = 49
fn_number Report.pass_thru_read_pc_setup = 50
fn_number Report.pass_thru_get_pointer = 51
fn_number Report.pass_thru_get_next_car_daq = 52
fn_number Report.pass_thru_read_details = 53
fn_number Report.pass_thru_queue_msgs = 54

-- The names under which the functions are exported.
unfoldable pub fn_name : Fn → String
fn_name Report.pass_thru_open = "PassThruOpen"
fn_name Report.pass_thru_close = "PassThruClose"
fn_name Report.pass_thru_select = "PassThruSelect"
fn_name Report.pass_thru_connect = "PassThruConnect"
fn_name Report.pass_thru_disconnect = "PassThruDisconnect"
fn_name Report.pass_thru_get_last_error = "PassThruGetLastError"
fn_name Report.pass_thru_ioctl = "PassThruIoctl"
fn_name Report.pass_thru_read_msgs = "PassThruReadMsgs"
fn_name Report.pass_thru_read_version = "PassThruReadVersion"
fn_name Report.pass_thru_set_programming_voltage = "PassThruSetProgrammingVoltage"
fn_name Report.pass_thru_start_msg_filter = "PassThruStartMsgFilter"
fn_name Report.pass_thru_start_periodic_msg = "PassThruStartPeriodicMsg"
fn_name Report.pass_thru_stop_msg_filter = "PassThruStopMsgFilter"
fn_name Report.pass_thru_stop_periodic_msg = "PassThruStopPeriodicMsg"
fn_name Report.pass_thru_scan_for_devices = "PassThruScanForDevices"
fn_name Report.pass_thru_get_next_device = "PassThruGetNextDevice"
fn_name Report.pass_thru_write_msgs = "PassThruWriteMsgs"
fn_name Report.pass_thru_ex_configure_wifi = "PassThruExConfigureWiFi"
fn_name Report.pass_thru_ex_device_watchdog = "PassThruExDeviceWatchdog"
fn_name Report.pass_thru_ex_download_cyphered_flash_data = "PassThruExDownloadCypheredFlashData"
fn_name Report.pass_thru_ex_erase_flash = "PassThruExEraseFlash"
fn_name Report.pass_thru_ex_initiate_cyphered_flash_download =
    "PassThruExInitiateCypheredFlashDownload"
fn_name Report.pass_thru_ex_read_flash = "PassThruExReadFlash"
fn_name Report.pass_thru_ex_reset_flash = "PassThruExResetFlash"
fn_name Report.pass_thru_ex_run_self_test = "PassThruExRunSelfTest"
fn_name Report.pass_thru_ex_write_flash = "PassThruExWriteFlash"
fn_name Report.pass_thru_load_firmware = "PassThruLoadFirmware"
fn_name Report.pass_thru_recover_firmware = "PassThruRecoverFirmware"
fn_name Report.pass_thru_read_ip_setup = "PassThruReadIPSetup"
fn_name Report.pass_thru_write_ip_setup = "PassThruWriteIPSetup"
fn_name Report.pass_thru_read_pc_setup = "PassThruReadPCSetup"
fn_name Report.pass_thru_get_pointer = "PassThruGetPointer"
fn_name Report.pass_thru_get_next_car_daq = "PassThruGetNextCarDAQ"
fn_name Report.pass_thru_read_details = "PassThruReadDetails"
fn_name Report.pass_thru_queue_msgs = "PassThruQueueMsgs"

abbrev pub by_key : Key → Cbor → Pairs → Pairs
by_key key v ps = pair (number (key_number key)) v ps

-- map_put_PASSTHRU_MSG: the map of one message, the array of these maps, and the map with the count
-- under 0 and the array under 1.
unfoldable pub encode_msg : PassThruMsg → Cbor
unfolding key_number
encode_msg m = cbor_map (
    by_key param1 (integer m.protocol_id) (
      by_key param2 (integer m.rx_status) (
        by_key param3 (integer m.tx_flags) (
          by_key param4 (integer m.timestamp) (
            by_key param5 (integer m.data_size) (
              by_key param6 (integer m.extra_data_index)
                (by_key param7 (byte_array (take m.data_size m.bytes)) no_pairs)))))))

unfoldable pub encode_items : List PassThruMsg → Items
encode_items [] = no_items
encode_items (m ∷ ms) = item (encode_msg m) (encode_items ms)

unfoldable pub encode_msgs : ℕ → List PassThruMsg → Cbor
encode_msgs count ms =
    cbor_map (pair (number 0) (integer count) (pair (number 1) (array (encode_items ms)) no_pairs))

-- `__FUNCTION__` in a method expands to a text that the compiler chooses.
module _ (function_text : Fn → List ℕ) where
  -- map_put_int, map_put_string and map_put_data, by what a handler puts. A text that is freed
  -- before its map is encoded is given as it was; `reads_freed` says where that happens.
  unfoldable pub encode_value : Value → Cbor
  unfolding fn_number encode_msgs
  encode_value (int n) = integer n
  encode_value (text s) = text_string s
  encode_value (freed_text s) = text_string s
  encode_value (msgs count ms) = encode_msgs count ms
  encode_value (octets bytes) = byte_array bytes
  encode_value (fn_key f) = integer (fn_number f)
  encode_value (failure f reason) =
      text_string (codes "Function " ++ function_text f ++ codes " -> " ++ reason)
  encode_value (not_implemented f) =
      text_string (codes "Function " ++ function_text f ++ codes " not implemented")
  encode_value (not_found_in_dll f) =
      text_string (codes "Function " ++ function_text f ++ codes " not found in DLL.")

  -- A report's map: cn_cbor_map_put appends a pair.
  unfoldable pub encode_puts : List Put → Pairs
  unfolding encode_value key_number
  encode_puts [] = no_pairs
  encode_puts (p ∷ ps) = by_key p.key (encode_value p.value) (encode_puts ps)

-- The map that the constructors send, with the address of the object.
unfoldable pub encode_connected : ℕ → Cbor
encode_connected this =
    cbor_map (by_key func_name (integer 0) (by_key param1 (integer this) no_pairs))

-- What loadFunction puts for each name, and the map of loadDll that is sent.
unfoldable pub encode_functions : List (Fn × Bool) → Pairs
unfolding fn_name
encode_functions [] = no_pairs
encode_functions ((f, found) ∷ fs) = pair (name (fn_name f)) (boolean found) (encode_functions fs)

unfoldable pub encode_loaded : List ℕ → List (Fn × Bool) → Cbor
unfolding key_number
encode_loaded path functions = cbor_map (
    by_key func_name (integer 1) (
      by_key param1 (text_string path)
        (by_key param2 (cbor_map (encode_functions functions)) no_pairs)))

-- `cbor_to_data`: `encoder` is cn_cbor_encoder_write, which gives no size when it fails.
unfoldable pub cbor_to_data : (Cbor → Option (List ℕ)) → Cbor → List ℕ
cbor_to_data encoder v = elim (encoder v) [ none ↦ [] | some bytes ↦ bytes ]
