-- ===== src/Cannelloni/Client/Devices.antt =====
-- The enumeration of the virtual devices: PassThruScanForDevices, PassThruGetNextDevice and
-- PassThruGetNextCarDAQ of j2534_OverIP/j2534cannelloniclient.cpp. `scanIndex` is a static of the
-- class; the process has one client.
pub mod Enumeration
use j2534_oip_wrapper.Prelude.{
  ℕ, ◌+◌, List, [], ◌∷◌, ◌++◌, Bool, true, false, ◌&&◌, Option, none, some, codes, take, leb,
  if◌then◌else◌,
}
use j2534_oip_wrapper.Prelude.Assoc.{contains_key}
use j2534_oip_wrapper.Message.{status_noerror, err_null_parameter, err_no_more_devices}
use j2534_oip_wrapper.Report.{
  Put, entry, int, text, fn_key, pass_thru_scan_for_devices as scan_fn,
  pass_thru_get_next_device as next_fn, pass_thru_get_next_car_daq as daq_fn, func_name, param1,
  param2, param3, retval_long,
}
use j2534_oip_wrapper.Cannelloni.Client.{
  Client, LastError, device_count_null, ps_device_null, null_parameters, name_alloc_failed,
  addr_alloc_failed, report, error_entry, base_port, virtual_device_count, to_string,
}

-- getPortFromIndex.
unfoldable pub get_port_from_index : ℕ → ℕ
get_port_from_index index = base_port + index

unfoldable pub device_name : ℕ → List ℕ
device_name port = codes "Cannelloni UDP Port " ++ to_string port ++ codes " (CAN)"

-- The argument is `*pDeviceCount`, `none` for a null pointer; the last result is what is written
-- through it.
unfoldable pub pass_thru_scan_for_devices : Client → Option ℕ → Client × ℕ × Option ℕ
pass_thru_scan_for_devices c none = (
  report (record c { last_error = device_count_null }) scan_fn
      (entry func_name (fn_key scan_fn)
        ∷ entry param1 (int 0)
        ∷ error_entry scan_fn device_count_null
        ∷ []),
  err_null_parameter,
  none,
)
pass_thru_scan_for_devices c (some count) = (
  report (record c { scan_index = 0 }) scan_fn
      (entry func_name (fn_key scan_fn)
        ∷ entry param1 (int count)
        ∷ entry retval_long (int status_noerror)
        ∷ []),
  status_noerror,
  some virtual_device_count,
)

-- struct SDEVICE.
pub record SDevice : Type 0 where
  pub device_name_text : List ℕ
  pub device_available : ℕ
  pub device_dllfw_status : ℕ
  pub device_connect_media : ℕ
  pub device_connect_speed : ℕ
  pub device_signal_quality : ℕ
  pub device_signal_strength : ℕ

-- The device of a port, free to open if the map has no channel for it.
unfoldable pub virtual_device : Client → ℕ → SDevice
virtual_device c port = record {
  device_name_text = take 79 (device_name port);
  device_available = if contains_key port c.channels then 0 else 1;
  device_dllfw_status = 0;
  device_connect_media = 3;
  device_connect_speed = 1_000_000_000;
  device_signal_quality = 100;
  device_signal_strength = 100;
}

-- The flag says that `psDevice` is not null.
unfoldable pub pass_thru_get_next_device : Client → Bool → Client × ℕ × Option SDevice
pass_thru_get_next_device c has_device =
    let puts = entry func_name (fn_key next_fn) ∷ [] in
    if has_device
    then if leb virtual_device_count c.scan_index
      then (
        report c next_fn (puts ++ entry retval_long (int err_no_more_devices) ∷ []),
        err_no_more_devices,
        none,
      )
      else (
        report (record c { scan_index = c.scan_index + 1 }) next_fn
            (puts ++ entry retval_long (int status_noerror) ∷ []),
        status_noerror,
        some (virtual_device c (get_port_from_index c.scan_index)),
      )
    else (
      report (record c { last_error = ps_device_null }) next_fn
          (puts ++ error_entry next_fn ps_device_null ∷ []),
      err_null_parameter,
      none,
    )

-- What is written through the pointers of PassThruGetNextCarDAQ.
pub record CarDaq : Type 0 where
  pub name : List ℕ
  pub version : ℕ
  pub addr : List ℕ

daq_error : Client → List Put → LastError → Client × ℕ × Option CarDaq
daq_error c puts e = (
  report (record c { last_error = e }) daq_fn (puts ++ error_entry daq_fn e ∷ []),
  err_null_parameter,
  none,
)

-- `version` is `*version`, if that pointer is not null; `pointers` says that `name` and `addr`
-- are not; the last two arguments say that LocalAlloc gives memory for the name and the address.
unfoldable pub pass_thru_get_next_car_daq :
    Client → Option ℕ → Bool → Bool → Bool → Client × ℕ × Option CarDaq
unfolding daq_error
pass_thru_get_next_car_daq c none pointers name_alloc addr_alloc =
    daq_error c
      (entry func_name (fn_key daq_fn)
        ∷ entry param1 (text (codes "N/A"))
        ∷ entry param2 (int 0)
        ∷ entry param3 (text (codes "N/A"))
        ∷ [])
      null_parameters
pass_thru_get_next_car_daq c (some version) pointers name_alloc addr_alloc =
    let puts =
      entry func_name (fn_key daq_fn)
      ∷ entry param1 (text (codes "N/A"))
      ∷ entry param2 (int version)
      ∷ entry param3 (text (codes "N/A"))
      ∷ [] in
    if pointers
    then if leb virtual_device_count c.scan_index
      then (
        report c daq_fn (puts ++ entry retval_long (int err_no_more_devices) ∷ []),
        err_no_more_devices,
        none,
      )
      else if name_alloc
      then if addr_alloc
        then (
          report (record c { scan_index = c.scan_index + 1 }) daq_fn
              (puts ++ entry retval_long (int status_noerror) ∷ []),
          status_noerror,
          some (record {
            name = device_name (get_port_from_index c.scan_index);
            version = 100;
            addr = codes "127.0.0.1";
          }),
        )
        else daq_error c puts addr_alloc_failed
      else daq_error c puts name_alloc_failed
    else daq_error c puts null_parameters
