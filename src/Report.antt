-- ===== src/Report.antt =====
-- What the implementations report through the pipe: the function keys of
-- j2534_OverIP/expipeclient.h, and the calls of j2534_OverIP/cbor_utils.cpp that fill a report.
-- A report is the sequence of entries that a handler puts into its CBOR map, oldest first; the
-- encoding into bytes is cn-cbor's. The process's identity and the time stamp, which
-- every message carries alike, are left out.
use j2534_oip_wrapper.Prelude.{ℕ, List, [], ◌∷◌, Bool, true, false, ◌||◌}
use j2534_oip_wrapper.Message.{PassThruMsg}

-- The functions of the interface, in the order of the KEY_PassThru enumeration.
pub data Fn : Type 0 where
  pass_thru_open pass_thru_close pass_thru_select pass_thru_connect : Fn
  pass_thru_disconnect pass_thru_get_last_error pass_thru_ioctl pass_thru_read_msgs : Fn
  pass_thru_read_version pass_thru_set_programming_voltage pass_thru_start_msg_filter : Fn
  pass_thru_start_periodic_msg pass_thru_stop_msg_filter pass_thru_stop_periodic_msg : Fn
  pass_thru_scan_for_devices pass_thru_get_next_device pass_thru_write_msgs : Fn
  pass_thru_ex_configure_wifi pass_thru_ex_device_watchdog : Fn
  pass_thru_ex_download_cyphered_flash_data pass_thru_ex_erase_flash : Fn
  pass_thru_ex_initiate_cyphered_flash_download pass_thru_ex_read_flash : Fn
  pass_thru_ex_reset_flash pass_thru_ex_run_self_test pass_thru_ex_write_flash : Fn
  pass_thru_load_firmware pass_thru_recover_firmware pass_thru_read_ip_setup : Fn
  pass_thru_write_ip_setup pass_thru_read_pc_setup pass_thru_get_pointer : Fn
  pass_thru_get_next_car_daq pass_thru_read_details pass_thru_queue_msgs : Fn

-- The first enumeration of ExPipeClient: the keys of a report's map.
pub data Key : Type 0 where
  func_name param1 param2 param3 param4 param5 param6 param7 rx_tx retval_long error : Key

-- A value that a handler puts: an integer, a C string, an array of messages with its count,
-- plain bytes, the key of a function, or a text in a std::string that is gone at the end of the
-- statement: `freed_text`, and the texts that start with "Function".
pub data Value : Type 0 where
  int : ℕ → Value
  text : List ℕ → Value
  freed_text : List ℕ → Value
  msgs : ℕ → List PassThruMsg → Value
  octets : List ℕ → Value
  fn_key : Fn → Value
  failure : Fn → List ℕ → Value
  not_implemented : Fn → Value
  not_found_in_dll : Fn → Value

pub record Put : Type 0 where
  pub key : Key
  pub value : Value

abbrev pub entry : Key → Value → Put
entry k v = record { key = k; value = v }

-- One message through the pipe: its label, and the entries of its map.
pub record Report : Type 0 where
  pub label : Fn
  pub puts : List Put

-- cn_cbor_string_create keeps the pointer that it is given, and does not own the text.
unfoldable pub is_freed : Value → Bool
is_freed (freed_text s) = true
is_freed (failure f reason) = true
is_freed (not_implemented f) = true
is_freed (not_found_in_dll f) = true
is_freed value = false

-- `cbor_to_data` of the map reads a text that has been freed.
unfoldable pub reads_freed : List Put → Bool
unfolding is_freed
reads_freed [] = false
reads_freed (p ∷ ps) = is_freed p.value || reads_freed ps
