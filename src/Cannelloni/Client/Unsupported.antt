-- ===== src/Cannelloni/Client/Unsupported.antt =====
-- The functions that J2534CannelloniClient reports and does not implement
-- (j2534_OverIP/j2534cannelloniclient.cpp).
use j2534_oip_wrapper.Prelude.{ℕ, List, [], ◌∷◌, ◌++◌}
use j2534_oip_wrapper.Message.{PassThruMsg, err_not_supported}
use j2534_oip_wrapper.Report
use j2534_oip_wrapper.Report.{
  Fn, Put, entry, int, text, msgs, fn_key, not_implemented, func_name, param1, param2, param3,
  param4, param5, param6, rx_tx, error,
}
use j2534_oip_wrapper.Cannelloni.Client.{Client, report}

-- A call of such a function with its arguments. Pointers to a count or an id are given by the
-- value that they point to.
pub data UnsupportedCall : Type 0 where
  queue_msgs : ℕ → List PassThruMsg → ℕ → UnsupportedCall
  start_periodic_msg : ℕ → PassThruMsg → ℕ → ℕ → UnsupportedCall
  stop_periodic_msg : ℕ → ℕ → UnsupportedCall
  start_msg_filter : ℕ → ℕ → PassThruMsg → PassThruMsg → PassThruMsg → ℕ → UnsupportedCall
  stop_msg_filter : ℕ → ℕ → UnsupportedCall
  set_programming_voltage : ℕ → ℕ → ℕ → UnsupportedCall
  ex_configure_wifi ex_device_watchdog ex_download_cyphered_flash_data : UnsupportedCall
  ex_erase_flash ex_initiate_cyphered_flash_download ex_read_flash : UnsupportedCall
  ex_reset_flash ex_run_self_test ex_write_flash : UnsupportedCall
  load_firmware recover_firmware : UnsupportedCall
  read_ip_setup write_ip_setup : ℕ → List ℕ → List ℕ → List ℕ → List ℕ → List ℕ → UnsupportedCall
  read_pc_setup : List ℕ → List ℕ → UnsupportedCall
  get_pointer : ℕ → UnsupportedCall
  read_details : ℕ → UnsupportedCall

-- The function that is called.
unfoldable pub called_fn : UnsupportedCall → Fn
called_fn (queue_msgs ch ms n) = Report.pass_thru_queue_msgs
called_fn (start_periodic_msg ch m id t) = Report.pass_thru_start_periodic_msg
called_fn (stop_periodic_msg ch id) = Report.pass_thru_stop_periodic_msg
called_fn (start_msg_filter ch ty m p f id) = Report.pass_thru_start_msg_filter
called_fn (stop_msg_filter ch id) = Report.pass_thru_stop_msg_filter
called_fn (set_programming_voltage d p v) = Report.pass_thru_set_programming_voltage
called_fn ex_configure_wifi = Report.pass_thru_ex_configure_wifi
called_fn ex_device_watchdog = Report.pass_thru_ex_device_watchdog
called_fn ex_download_cyphered_flash_data = Report.pass_thru_ex_download_cyphered_flash_data
called_fn ex_erase_flash = Report.pass_thru_ex_erase_flash
called_fn ex_initiate_cyphered_flash_download = Report.pass_thru_ex_initiate_cyphered_flash_download
called_fn ex_read_flash = Report.pass_thru_ex_read_flash
called_fn ex_reset_flash = Report.pass_thru_ex_reset_flash
called_fn ex_run_self_test = Report.pass_thru_ex_run_self_test
called_fn ex_write_flash = Report.pass_thru_ex_write_flash
called_fn load_firmware = Report.pass_thru_load_firmware
called_fn recover_firmware = Report.pass_thru_recover_firmware
called_fn (read_ip_setup d h i s g a) = Report.pass_thru_read_ip_setup
called_fn (write_ip_setup d h i s g a) = Report.pass_thru_write_ip_setup
called_fn (read_pc_setup h i) = Report.pass_thru_read_pc_setup
called_fn (get_pointer p) = Report.pass_thru_get_pointer
called_fn (read_details n) = Report.pass_thru_read_details

-- The function that the report names, in its label and under KEY_FuncName.
unfoldable pub reported_fn : UnsupportedCall → Fn
unfolding called_fn
reported_fn ex_erase_flash = Report.pass_thru_ex_download_cyphered_flash_data
reported_fn (read_details n) = Report.pass_thru_select
reported_fn call = called_fn call

-- The entries for the arguments, between the function's key and the error.
unfoldable pub argument_puts : UnsupportedCall → List Put
argument_puts (queue_msgs ch ms n) =
    entry param1 (int ch) ∷ entry param2 (msgs n ms) ∷ entry param3 (int n) ∷ []
argument_puts (start_periodic_msg ch m id t) =
    entry param1 (int ch)
    ∷ entry param2 (msgs 1 (m ∷ []))
    ∷ entry param3 (int id)
    ∷ entry param4 (int t)
    ∷ []
argument_puts (stop_periodic_msg ch id) = entry param1 (int ch) ∷ entry param2 (int id) ∷ []
argument_puts (start_msg_filter ch ty m p f id) =
    entry param1 (int ch)
    ∷ entry param2 (int ty)
    ∷ entry param3 (msgs 1 (m ∷ []))
    ∷ entry param4 (msgs 1 (p ∷ []))
    ∷ entry param5 (msgs 1 (f ∷ []))
    ∷ entry param6 (int id)
    ∷ []
argument_puts (stop_msg_filter ch id) = entry param1 (int ch) ∷ entry param2 (int id) ∷ []
argument_puts (set_programming_voltage d p v) =
    entry param1 (int d) ∷ entry param2 (int p) ∷ entry param2 (int v) ∷ []
argument_puts (read_ip_setup d h i s g a) =
    entry param1 (int d)
    ∷ entry param2 (text h)
    ∷ entry param3 (text i)
    ∷ entry param4 (text s)
    ∷ entry param5 (text g)
    ∷ entry param6 (text a)
    ∷ entry rx_tx (int 0)
    ∷ []
argument_puts (write_ip_setup d h i s g a) =
    entry param1 (int d)
    ∷ entry param2 (text h)
    ∷ entry param3 (text i)
    ∷ entry param4 (text s)
    ∷ entry param5 (text g)
    ∷ entry param6 (text a)
    ∷ []
argument_puts (read_pc_setup h i) =
    entry param1 (text h) ∷ entry param2 (text i) ∷ entry rx_tx (int 0) ∷ []
argument_puts (get_pointer p) = entry param1 (int p) ∷ []
argument_puts (read_details n) = entry param1 (int n) ∷ []
argument_puts call = []

-- The last entry is the text of a std::string that is gone when the report is made: `read_freed` holds
-- of the client that is left.
unfoldable pub unsupported : Client → UnsupportedCall → Client × ℕ
unsupported c call = (
  report c (reported_fn call) (
      entry func_name (fn_key (reported_fn call))
      ∷ (argument_puts call ++ entry error (not_implemented (called_fn call)) ∷ [])),
  err_not_supported,
)
