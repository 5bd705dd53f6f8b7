-- ===== src/Cannelloni/Methods.antt =====
-- All methods of J2534CannelloniClient (j2534_OverIP/j2534cannelloniclient.cpp): the Cannelloni client
-- as an implementation of the interface. Between two calls the receive threads make their rounds.
use j2534_oip_wrapper.Prelude.{suc, Option, none, some, leb, if◌then◌else◌}
use j2534_oip_wrapper.Message.{
  PassThruMsg, data_capacity, Result, ok, fault, ◌>>=◌, out_of_bounds, use_after_free,
  err_not_supported,
}
use j2534_oip_wrapper.Report
use j2534_oip_wrapper.Report.{Fn}
use j2534_oip_wrapper.Interface.{Args, Answer, Implementation, deref, fetch_msgs}
use j2534_oip_wrapper.Cannelloni.Client.{Client, read_freed}
use j2534_oip_wrapper.Cannelloni.Client.Channels.{pass_thru_close, pass_thru_disconnect}
use j2534_oip_wrapper.Cannelloni.Client.Unsupported
use j2534_oip_wrapper.Cannelloni.Client.Unsupported.{UnsupportedCall}
use j2534_oip_wrapper.Cannelloni.Calls.{
  Moment, Session, receive_all, call_open, call_connect, call_read_msgs, call_write_msgs,
  call_select, call_ioctl, call_read_version, call_get_last_error, call_scan_for_devices,
  call_get_next_device, call_get_next_car_daq, refused,
}

-- One message behind a pointer, as map_put_PASSTHRU_MSG reads it.
unfoldable pub readable_msg : Option PassThruMsg → Result PassThruMsg
readable_msg p =
    deref p >>= λ m. if leb m.data_size data_capacity then ok m else fault out_of_bounds

-- The functions that only report.
unfoldable pub unsupported_call : (f : Fn) → Args f → Result (Option UnsupportedCall)
unfolding readable_msg
unsupported_call Report.pass_thru_queue_msgs args = deref args.2 >>= λ count.
    fetch_msgs count args.1 >>= λ ms. ok (some (Unsupported.queue_msgs args.0 ms count))
unsupported_call Report.pass_thru_start_periodic_msg args = readable_msg args.1 >>= λ m.
    deref args.2 >>= λ id. ok (some (Unsupported.start_periodic_msg args.0 m id args.3))
unsupported_call Report.pass_thru_stop_periodic_msg args =
    ok (some (Unsupported.stop_periodic_msg args.0 args.1))
unsupported_call Report.pass_thru_start_msg_filter args = readable_msg args.2 >>= λ mask.
    readable_msg args.3 >>= λ pattern_msg. readable_msg args.4 >>= λ flow. deref args.5 >>= λ id.
    ok (some (Unsupported.start_msg_filter args.0 args.1 mask pattern_msg flow id))
unsupported_call Report.pass_thru_stop_msg_filter args =
    ok (some (Unsupported.stop_msg_filter args.0 args.1))
unsupported_call Report.pass_thru_set_programming_voltage args =
    ok (some (Unsupported.set_programming_voltage args.0 args.1 args.2))
unsupported_call Report.pass_thru_read_ip_setup args = deref args.1 >>= λ host.
    deref args.2 >>= λ ip. deref args.3 >>= λ subnet. deref args.4 >>= λ gateway.
    deref args.5 >>= λ dhcp.
    ok (some (Unsupported.read_ip_setup args.0 host ip subnet gateway dhcp))
unsupported_call Report.pass_thru_write_ip_setup args = deref args.1 >>= λ host.
    deref args.2 >>= λ ip. deref args.3 >>= λ subnet. deref args.4 >>= λ gateway.
    deref args.5 >>= λ dhcp.
    ok (some (Unsupported.write_ip_setup args.0 host ip subnet gateway dhcp))
unsupported_call Report.pass_thru_read_pc_setup args =
    deref args.0 >>= λ host. deref args.1 >>= λ ip. ok (some (Unsupported.read_pc_setup host ip))
unsupported_call Report.pass_thru_get_pointer vb_pointer =
    ok (some (Unsupported.get_pointer vb_pointer))
unsupported_call Report.pass_thru_read_details name =
    deref name >>= λ n. ok (some (Unsupported.read_details n))
unsupported_call Report.pass_thru_ex_configure_wifi args = ok (some Unsupported.ex_configure_wifi)
unsupported_call Report.pass_thru_ex_device_watchdog args = ok (some Unsupported.ex_device_watchdog)
unsupported_call Report.pass_thru_ex_download_cyphered_flash_data args =
    ok (some Unsupported.ex_download_cyphered_flash_data)
unsupported_call Report.pass_thru_ex_erase_flash args = ok (some Unsupported.ex_erase_flash)
unsupported_call Report.pass_thru_ex_initiate_cyphered_flash_download args =
    ok (some Unsupported.ex_initiate_cyphered_flash_download)
unsupported_call Report.pass_thru_ex_read_flash args = ok (some Unsupported.ex_read_flash)
unsupported_call Report.pass_thru_ex_reset_flash args = ok (some Unsupported.ex_reset_flash)
unsupported_call Report.pass_thru_ex_run_self_test args = ok (some Unsupported.ex_run_self_test)
unsupported_call Report.pass_thru_ex_write_flash args = ok (some Unsupported.ex_write_flash)
unsupported_call Report.pass_thru_load_firmware args = ok (some Unsupported.load_firmware)
unsupported_call Report.pass_thru_recover_firmware args = ok (some Unsupported.recover_firmware)
unsupported_call f args = ok none

-- A function that is not among them is one of the functions of the client itself.
unfoldable pub refused_call :
    Moment → (f : Fn) → Args f → Client → Option UnsupportedCall → Result (Answer Client f)
refused_call now f args c none = ok (err_not_supported, args, c)
refused_call now f args c (some call) = refused now c f args call

-- A function by its arguments, at a moment.
unfoldable pub call_client : Moment → (f : Fn) → Args f → Client → Result (Answer Client f)
unfolding unsupported_call call_open call_connect call_read_msgs call_write_msgs call_select
    call_ioctl call_read_version call_get_last_error call_scan_for_devices call_get_next_device
    call_get_next_car_daq refused
call_client now Report.pass_thru_open args c = call_open now c args
call_client now Report.pass_thru_close device_id c =
    let done = pass_thru_close c device_id in ok (done.1, device_id, done.0)
call_client now Report.pass_thru_connect args c = call_connect now c args
call_client now Report.pass_thru_disconnect channel_id c =
    let done = pass_thru_disconnect c channel_id in ok (done.1, channel_id, done.0)
call_client now Report.pass_thru_read_msgs args c = call_read_msgs now c args
call_client now Report.pass_thru_write_msgs args c = call_write_msgs now c args
call_client now Report.pass_thru_select args c = call_select now c args
call_client now Report.pass_thru_ioctl args c = call_ioctl now c args
call_client now Report.pass_thru_read_version args c = call_read_version now c args
call_client now Report.pass_thru_get_last_error args c = call_get_last_error now c args
call_client now Report.pass_thru_scan_for_devices args c = call_scan_for_devices now c args
call_client now Report.pass_thru_get_next_device args c = call_get_next_device now c args
call_client now Report.pass_thru_get_next_car_daq args c = call_get_next_car_daq now c args
call_client now f args c = unsupported_call f args >>= λ call. refused_call now f args c call

-- The answer with the state for the next call. A report that reads a freed text ends the run.
unfoldable pub answer_session : (s : Session) (f : Fn) → Answer Client f → Result (Answer Session f)
answer_session s f a =
    if read_freed a.2
    then fault use_after_free
    else ok (a.0, a.1, record s { client = a.2; calls = suc s.calls })

unfoldable pub call_session : Session → (f : Fn) → Args f → Client → Result (Answer Session f)
unfolding call_client answer_session
call_session s f args c = call_client (s.moments s.calls) f args c >>= λ a. answer_session s f a

unfoldable pub methods : Implementation Session
unfolding receive_all call_session
methods f args s =
    receive_all (s.moments s.calls).received s.client >>= λ c. call_session s f args c
