-- ===== src/Emulator/Methods.antt =====
-- The other methods of J2534Emulator (j2534_OverIP/j2534emulator.cpp), which send a text instead of
-- a map, and all methods together.
use j2534_oip_wrapper.Prelude.{
  ℕ, suc, List, [], ◌∷◌, Option, none, some, codes, ◌==◌, if◌then◌else◌,
}
use j2534_oip_wrapper.Message.{
  Result, ok, fault, ◌>>=◌, null_pointer, out_of_bounds, status_noerror,
}
use j2534_oip_wrapper.Report
use j2534_oip_wrapper.Report.{Fn}
use j2534_oip_wrapper.Interface.{Args, Answer, Implementation, Text, deref}
use j2534_oip_wrapper.Cannelloni.Client.Ioctl.{
  IoctlMemory, SParam, read_vbatt, get_device_info, serial_number,
}
use j2534_oip_wrapper.Emulator
use j2534_oip_wrapper.Emulator.{Emulator, called, method_name, null_param, send}

-- A method that sends "J2534Emulator … called!" and does nothing else.
unfoldable pub only_called : (f : Fn) → Args f → Emulator → Result (Answer Emulator f)
only_called f args e = ok (status_noerror, args, send e (called f))

-- The arrays of 80 bytes, as the C strings in them.
unfoldable pub pass_thru_read_version :
    Args Report.pass_thru_read_version
    → Emulator
    → Result (Answer Emulator Report.pass_thru_read_version)
pass_thru_read_version args e = deref args.3 >>= λ api. deref args.2 >>= λ dll.
    deref args.1 >>= λ firmware. ok (
      status_noerror,
      (args.0, some (codes "9"), some (codes "1.0.001 Feb 28 2023 12:46:00"), some (codes "04.04")),
      send e (called Report.pass_thru_read_version),
    )

-- For a null pointer the text goes to an array that the caller never sees.
unfoldable pub last_error_text : Option Text → Option Text
last_error_text none = none
last_error_text (some old) = some (codes "NOT SUPPORTED")

unfoldable pub pass_thru_get_last_error :
    Args Report.pass_thru_get_last_error
    → Emulator
    → Result (Answer Emulator Report.pass_thru_get_last_error)
pass_thru_get_last_error description e = ok (
  status_noerror,
  last_error_text description,
  send e (method_name Report.pass_thru_get_last_error),
)

-- The first parameter of GET_DEVICE_INFO; the others are left alone.
unfoldable pub first_device_info : Option (List SParam) → Result (Option (List SParam))
first_device_info none = fault null_pointer
first_device_info (some []) = fault out_of_bounds
first_device_info (some (p ∷ ps)) =
    if p.parameter == serial_number
    then ok (some (record p { supported = 1; value = 987654321 } ∷ ps))
    else ok (some (p ∷ ps))

-- SET_CONFIG only prints its items.
unfoldable pub ioctl_effect : ℕ → IoctlMemory → Result IoctlMemory
ioctl_effect ioctl_id mem =
    if ioctl_id == read_vbatt
    then (deref mem.output_word >>= λ old. ok (record mem { output_word = some 14400 }))
    else if ioctl_id == get_device_info
    then (first_device_info mem.output_params >>= λ ps. ok (record mem { output_params = ps }))
    else ok mem

unfoldable pub pass_thru_ioctl :
    Args Report.pass_thru_ioctl → Emulator → Result (Answer Emulator Report.pass_thru_ioctl)
pass_thru_ioctl args e = ioctl_effect args.1 args.2 >>= λ mem.
    ok (status_noerror, (args.0, args.1, mem), send e (called Report.pass_thru_ioctl))

-- With a null pointer only the two texts are sent. The version is never written: the assignment
-- `version = pVersion` is to the parameter.
unfoldable pub pass_thru_get_next_car_daq :
    Args Report.pass_thru_get_next_car_daq
    → Emulator
    → Result (Answer Emulator Report.pass_thru_get_next_car_daq)
pass_thru_get_next_car_daq (some name, some version, some addr) e =
    let told = send e (called Report.pass_thru_get_next_car_daq) in
    let named = some (some (codes "XDev1")) in
    let at = some (some (codes "192.168.155.100")) in
    if e.dev_counter == 0
    then ok (
      status_noerror,
      (named, some version, at),
      send (record told { dev_counter = suc e.dev_counter })
          (method_name Report.pass_thru_get_next_car_daq),
    )
    else ok (
      status_noerror,
      (some none, some version, some addr),
      send told (method_name Report.pass_thru_get_next_car_daq),
    )
pass_thru_get_next_car_daq args e = ok (
  status_noerror,
  args,
  send (send e (called Report.pass_thru_get_next_car_daq))
      (null_param Report.pass_thru_get_next_car_daq),
)

unfoldable pub methods : Implementation Emulator
methods Report.pass_thru_open args e = Emulator.pass_thru_open args e
methods Report.pass_thru_close args e = Emulator.pass_thru_close args e
methods Report.pass_thru_connect args e = Emulator.pass_thru_connect args e
methods Report.pass_thru_disconnect args e = Emulator.pass_thru_disconnect args e
methods Report.pass_thru_read_msgs args e = Emulator.pass_thru_read_msgs args e
methods Report.pass_thru_queue_msgs args e = Emulator.pass_thru_queue_msgs args e
methods Report.pass_thru_write_msgs args e = Emulator.pass_thru_write_msgs args e
methods Report.pass_thru_read_version args e = pass_thru_read_version args e
methods Report.pass_thru_get_last_error args e = pass_thru_get_last_error args e
methods Report.pass_thru_ioctl args e = pass_thru_ioctl args e
methods Report.pass_thru_get_next_car_daq args e = pass_thru_get_next_car_daq args e
methods f args e = only_called f args e
