-- ===== src/DllWrapper/Queries.antt =====
-- The methods of J2534DllWrapper that hand texts and devices back
-- (j2534_OverIP/j2534dllwrapper.cpp). A null `char *` is read by the constructor of std::string,
-- or by the strlen of cn-cbor.
use j2534_oip_wrapper.Prelude.{ℕ, List, [], ◌∷◌, ◌++◌, Option, none, some, replicate}
use j2534_oip_wrapper.Message.{Result, ok, ◌>>=◌}
use j2534_oip_wrapper.Report
use j2534_oip_wrapper.Report.{
  Put, entry, int, text, freed_text, octets, fn_key, func_name, param1, param2, param3, param4,
  param5, param6, rx_tx, retval_long,
}
use j2534_oip_wrapper.Interface.{Text, deref}
use j2534_oip_wrapper.DllWrapper.{Wrapping, only_retval}

-- The three texts, each of a std::string that is gone when the report is made, in the order of the parameters.
unfoldable pub version_puts : Option Text → Option Text → Option Text → Result (List Put)
version_puts firmware dll api = deref firmware >>= λ firmware_text. deref dll >>= λ dll_text.
    deref api >>= λ api_text. ok (
      entry param2 (freed_text firmware_text)
      ∷ entry param3 (freed_text dll_text)
      ∷ entry param4 (freed_text api_text)
      ∷ [])

unfoldable pub pass_thru_read_version : Wrapping Report.pass_thru_read_version
pass_thru_read_version = record {
  label = Report.pass_thru_read_version;
  before = λ args. version_puts args.1 args.2 args.3 >>= λ texts. ok (
      entry func_name (fn_key Report.pass_thru_read_version) ∷ entry param1 (int args.0) ∷ texts
      ++ entry rx_tx (int 0) ∷ []);
  missing = [];
  after = λ retval out. version_puts out.1 out.2 out.3 >>= λ texts.
      ok (texts ++ entry retval_long (int retval) ∷ entry rx_tx (int 1) ∷ []);
}

unfoldable pub pass_thru_get_last_error : Wrapping Report.pass_thru_get_last_error
pass_thru_get_last_error = record {
  label = Report.pass_thru_get_last_error;
  before = λ description. deref description >>= λ message. ok (
      entry func_name (fn_key Report.pass_thru_get_last_error)
      ∷ entry param1 (freed_text message)
      ∷ entry rx_tx (int 0)
      ∷ []);
  missing = [];
  after = λ retval description. deref description >>= λ message. ok (
      entry param1 (freed_text message)
      ∷ entry retval_long (int retval)
      ∷ entry rx_tx (int 1)
      ∷ []);
}

-- host_name, ip_addr, subnet_mask, gateway and dhcp_addr.
unfoldable pub ip_setup_puts :
    Option Text → Option Text → Option Text → Option Text → Option Text → Result (List Put)
ip_setup_puts host ip mask gateway dhcp = deref host >>= λ host_text. deref ip >>= λ ip_text.
    deref mask >>= λ mask_text. deref gateway >>= λ gateway_text. deref dhcp >>= λ dhcp_text. ok (
      entry param2 (text host_text)
      ∷ entry param3 (text ip_text)
      ∷ entry param4 (text mask_text)
      ∷ entry param5 (text gateway_text)
      ∷ entry param6 (text dhcp_text)
      ∷ [])

unfoldable pub pass_thru_read_ip_setup : Wrapping Report.pass_thru_read_ip_setup
pass_thru_read_ip_setup = record {
  label = Report.pass_thru_read_ip_setup;
  before = λ args. ip_setup_puts args.1 args.2 args.3 args.4 args.5 >>= λ texts. ok (
      entry func_name (fn_key Report.pass_thru_read_ip_setup) ∷ entry param1 (int args.0) ∷ texts
      ++ entry rx_tx (int 0) ∷ []);
  missing = [];
  after = λ retval out. ip_setup_puts out.1 out.2 out.3 out.4 out.5 >>= λ texts.
      ok (texts ++ entry rx_tx (int 1) ∷ entry retval_long (int retval) ∷ []);
}

unfoldable pub pass_thru_write_ip_setup : Wrapping Report.pass_thru_write_ip_setup
pass_thru_write_ip_setup = record {
  label = Report.pass_thru_write_ip_setup;
  before = λ args. ip_setup_puts args.1 args.2 args.3 args.4 args.5 >>= λ texts. ok (
      entry func_name (fn_key Report.pass_thru_write_ip_setup) ∷ entry param1 (int args.0) ∷ texts);
  missing = [];
  after = only_retval;
}

unfoldable pub pass_thru_read_pc_setup : Wrapping Report.pass_thru_read_pc_setup
pass_thru_read_pc_setup = record {
  label = Report.pass_thru_read_pc_setup;
  before = λ args. deref args.0 >>= λ host_text. deref args.1 >>= λ ip_text. ok (
      entry func_name (fn_key Report.pass_thru_read_pc_setup)
      ∷ entry param1 (text host_text)
      ∷ entry param2 (text ip_text)
      ∷ entry rx_tx (int 0)
      ∷ []);
  missing = [];
  after = λ retval out. deref out.0 >>= λ host_text. deref out.1 >>= λ ip_text. ok (
      entry param1 (text host_text)
      ∷ entry param2 (text ip_text)
      ∷ entry rx_tx (int 1)
      ∷ entry retval_long (int retval)
      ∷ []);
}

unfoldable pub pass_thru_get_pointer : Wrapping Report.pass_thru_get_pointer
pass_thru_get_pointer = record {
  label = Report.pass_thru_get_pointer;
  before = λ vb_pointer.
      ok (
        entry func_name (fn_key Report.pass_thru_get_pointer) ∷ entry param1 (int vb_pointer) ∷ []);
  missing = [];
  after = λ retval vb_pointer.
      ok
        (entry param1 (int vb_pointer) ∷ entry rx_tx (int 1) ∷ entry retval_long (int retval) ∷ []);
}

-- The three entries of an answer; only a null `name` is tested for.
unfoldable pub car_daq_puts :
    Option (Option Text) → Option ℕ → Option (Option Text) → Result (List Put)
car_daq_puts none version addr = deref version >>= λ number.
    ok (entry param1 (text []) ∷ entry param2 (int number) ∷ entry param3 (text []) ∷ [])
car_daq_puts (some name) version addr = deref name >>= λ name_text. deref version >>= λ number.
    deref addr >>= λ addr_cell. deref addr_cell >>= λ addr_text.
    ok (
      entry param1 (text name_text)
      ∷ entry param2 (int number)
      ∷ entry param3 (text addr_text)
      ∷ [])

unfoldable pub pass_thru_get_next_car_daq : Wrapping Report.pass_thru_get_next_car_daq
pass_thru_get_next_car_daq = record {
  label = Report.pass_thru_get_next_car_daq;
  before = λ args. deref args.1 >>= λ number. ok (
      entry func_name (fn_key Report.pass_thru_get_next_car_daq)
      ∷ entry param1 (text [])
      ∷ entry param2 (int number)
      ∷ entry param3 (text [])
      ∷ entry rx_tx (int 0)
      ∷ []);
  missing = [];
  after = λ retval out. car_daq_puts out.0 out.1 out.2 >>= λ puts.
      ok (puts ++ entry rx_tx (int 1) ∷ entry retval_long (int retval) ∷ []);
}

unfoldable pub pass_thru_scan_for_devices : Wrapping Report.pass_thru_scan_for_devices
pass_thru_scan_for_devices = record {
  label = Report.pass_thru_scan_for_devices;
  before = λ count. deref count >>= λ number. ok (
      entry func_name (fn_key Report.pass_thru_scan_for_devices)
      ∷ entry param1 (int number)
      ∷ entry rx_tx (int 0)
      ∷ []);
  missing = [];
  after = λ retval count. deref count >>= λ number.
      ok (entry param1 (int number) ∷ entry rx_tx (int 1) ∷ entry retval_long (int retval) ∷ []);
}

-- sizeof(SDEVICE): a name of 80 bytes and six words.
abbrev pub sdevice_size : ℕ
sdevice_size = 104

-- The bytes behind `psDevice`, or a zeroed SDEVICE.
unfoldable pub device_octets : Option (List ℕ) → List ℕ
device_octets none = replicate sdevice_size 0
device_octets (some bytes) = bytes

unfoldable pub pass_thru_get_next_device : Wrapping Report.pass_thru_get_next_device
pass_thru_get_next_device = record {
  label = Report.pass_thru_get_next_device;
  before = λ device. ok (
      entry func_name (fn_key Report.pass_thru_get_next_device)
      ∷ entry param1 (octets (device_octets none))
      ∷ entry rx_tx (int 0)
      ∷ []);
  missing = [];
  after = λ retval device. ok (
      entry param1 (octets (device_octets device))
      ∷ entry rx_tx (int 1)
      ∷ entry retval_long (int retval)
      ∷ []);
}
