-- ===== src/DllWrapper/Device.antt =====
-- The methods of J2534DllWrapper for devices and channels
-- (j2534_OverIP/j2534dllwrapper.cpp).
use j2534_oip_wrapper.Prelude.{[], ◌∷◌}
use j2534_oip_wrapper.Message.{ok, ◌>>=◌}
use j2534_oip_wrapper.Report
use j2534_oip_wrapper.Report.{
  Put, entry, int, text, fn_key, func_name, param1, param2, param3, param4, param5, rx_tx,
  retval_long,
}
use j2534_oip_wrapper.Interface.{deref, name_or_empty}
use j2534_oip_wrapper.DllWrapper.{Wrapping, only_retval}

unfoldable pub pass_thru_open : Wrapping Report.pass_thru_open
pass_thru_open = record {
  label = Report.pass_thru_open;
  before = λ args. deref args.1 >>= λ device_id. ok (
      entry func_name (fn_key Report.pass_thru_open)
      ∷ entry param1 (text (name_or_empty args.0))
      ∷ entry param2 (int device_id)
      ∷ []);
  missing = [];
  after = only_retval;
}

-- The label is that of PassThruOpen.
unfoldable pub pass_thru_close : Wrapping Report.pass_thru_close
pass_thru_close = record {
  label = Report.pass_thru_open;
  before = λ device_id.
      ok (entry func_name (fn_key Report.pass_thru_close) ∷ entry param1 (int device_id) ∷ []);
  missing = [];
  after = only_retval;
}

unfoldable pub pass_thru_connect : Wrapping Report.pass_thru_connect
pass_thru_connect = record {
  label = Report.pass_thru_connect;
  before = λ args. deref args.4 >>= λ channel_id. ok (
      entry func_name (fn_key Report.pass_thru_connect)
      ∷ entry param1 (int args.0)
      ∷ entry param2 (int args.1)
      ∷ entry param3 (int args.2)
      ∷ entry param4 (int args.3)
      ∷ entry param5 (int channel_id)
      ∷ []);
  missing = [];
  after = only_retval;
}

-- The label is that of PassThruConnect.
unfoldable pub pass_thru_disconnect : Wrapping Report.pass_thru_disconnect
pass_thru_disconnect = record {
  label = Report.pass_thru_connect;
  before = λ channel_id.
      ok
        (entry func_name (fn_key Report.pass_thru_disconnect) ∷ entry param1 (int channel_id) ∷ []);
  missing = [];
  after = only_retval;
}

-- Pin and voltage go under the same key.
unfoldable pub pass_thru_set_programming_voltage : Wrapping Report.pass_thru_set_programming_voltage
pass_thru_set_programming_voltage = record {
  label = Report.pass_thru_set_programming_voltage;
  before = λ args. ok (
      entry func_name (fn_key Report.pass_thru_set_programming_voltage)
      ∷ entry param1 (int args.0)
      ∷ entry param2 (int args.1)
      ∷ entry param2 (int args.2)
      ∷ []);
  missing = [];
  after = only_retval;
}

unfoldable pub pass_thru_ioctl : Wrapping Report.pass_thru_ioctl
pass_thru_ioctl = record {
  label = Report.pass_thru_ioctl;
  before = λ args. ok (
      entry func_name (fn_key Report.pass_thru_ioctl)
      ∷ entry param1 (int args.0)
      ∷ entry param2 (int args.1)
      ∷ entry param3 (int 0)
      ∷ entry param4 (int 0)
      ∷ []);
  missing = [];
  after = only_retval;
}

unfoldable pub pass_thru_select : Wrapping Report.pass_thru_select
pass_thru_select = record {
  label = Report.pass_thru_select;
  before = λ args. ok (
      entry func_name (fn_key Report.pass_thru_select)
      ∷ entry param1 (int 0)
      ∷ entry param2 (int args.1)
      ∷ entry param3 (int args.2)
      ∷ []);
  missing = [];
  after = only_retval;
}

-- The key and the label are those of PassThruSelect.
unfoldable pub pass_thru_read_details : Wrapping Report.pass_thru_read_details
pass_thru_read_details = record {
  label = Report.pass_thru_select;
  before = λ name. deref name >>= λ number.
      ok (entry func_name (fn_key Report.pass_thru_select) ∷ entry param1 (int number) ∷ []);
  missing = [];
  after = λ retval name. deref name >>= λ number.
      ok (entry param1 (int number) ∷ entry rx_tx (int 1) ∷ entry retval_long (int retval) ∷ []);
}
