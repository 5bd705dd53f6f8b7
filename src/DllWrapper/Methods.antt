-- ===== src/DllWrapper/Methods.antt =====
-- The virtual methods of J2534DllWrapper together (j2534_OverIP/j2534dllwrapper.h).
use j2534_oip_wrapper.Report
use j2534_oip_wrapper.Report.{Fn}
use j2534_oip_wrapper.Interface.{Implementation}
use j2534_oip_wrapper.DllWrapper.{Wrapper, Wrapping, wrapped}
use j2534_oip_wrapper.DllWrapper.Device
use j2534_oip_wrapper.DllWrapper.Messages
use j2534_oip_wrapper.DllWrapper.Queries
use j2534_oip_wrapper.DllWrapper.Extra

unfoldable pub wrapping : (f : Fn) → Wrapping f
wrapping Report.pass_thru_open = Device.pass_thru_open
wrapping Report.pass_thru_close = Device.pass_thru_close
wrapping Report.pass_thru_select = Device.pass_thru_select
wrapping Report.pass_thru_connect = Device.pass_thru_connect
wrapping Report.pass_thru_disconnect = Device.pass_thru_disconnect
wrapping Report.pass_thru_get_last_error = Queries.pass_thru_get_last_error
wrapping Report.pass_thru_ioctl = Device.pass_thru_ioctl
wrapping Report.pass_thru_read_msgs = Messages.pass_thru_read_msgs
wrapping Report.pass_thru_read_version = Queries.pass_thru_read_version
wrapping Report.pass_thru_set_programming_voltage = Device.pass_thru_set_programming_voltage
wrapping Report.pass_thru_start_msg_filter = Messages.pass_thru_start_msg_filter
wrapping Report.pass_thru_start_periodic_msg = Messages.pass_thru_start_periodic_msg
wrapping Report.pass_thru_stop_msg_filter = Messages.pass_thru_stop_msg_filter
wrapping Report.pass_thru_stop_periodic_msg = Messages.pass_thru_stop_periodic_msg
wrapping Report.pass_thru_scan_for_devices = Queries.pass_thru_scan_for_devices
wrapping Report.pass_thru_get_next_device = Queries.pass_thru_get_next_device
wrapping Report.pass_thru_write_msgs = Messages.pass_thru_write_msgs
wrapping Report.pass_thru_ex_configure_wifi = Extra.pass_thru_ex_configure_wifi
wrapping Report.pass_thru_ex_device_watchdog = Extra.pass_thru_ex_device_watchdog
wrapping Report.pass_thru_ex_download_cyphered_flash_data =
    Extra.pass_thru_ex_download_cyphered_flash_data
wrapping Report.pass_thru_ex_erase_flash = Extra.pass_thru_ex_erase_flash
wrapping Report.pass_thru_ex_initiate_cyphered_flash_download =
    Extra.pass_thru_ex_initiate_cyphered_flash_download
wrapping Report.pass_thru_ex_read_flash = Extra.pass_thru_ex_read_flash
wrapping Report.pass_thru_ex_reset_flash = Extra.pass_thru_ex_reset_flash
wrapping Report.pass_thru_ex_run_self_test = Extra.pass_thru_ex_run_self_test
wrapping Report.pass_thru_ex_write_flash = Extra.pass_thru_ex_write_flash
wrapping Report.pass_thru_load_firmware = Extra.pass_thru_load_firmware
wrapping Report.pass_thru_recover_firmware = Extra.pass_thru_recover_firmware
wrapping Report.pass_thru_read_ip_setup = Queries.pass_thru_read_ip_setup
wrapping Report.pass_thru_write_ip_setup = Queries.pass_thru_write_ip_setup
wrapping Report.pass_thru_read_pc_setup = Queries.pass_thru_read_pc_setup
wrapping Report.pass_thru_get_pointer = Queries.pass_thru_get_pointer
wrapping Report.pass_thru_get_next_car_daq = Queries.pass_thru_get_next_car_daq
wrapping Report.pass_thru_read_details = Device.pass_thru_read_details
wrapping Report.pass_thru_queue_msgs = Messages.pass_thru_queue_msgs

-- The object of class J2534DllWrapper around a DLL.
unfoldable pub methods : {S : Type 0} → Implementation S → Implementation (Wrapper S)
methods dll f args w = wrapped dll f (wrapping f) args w
