-- ===== src/DllWrapper/Reports.antt =====
-- Making the report of a method of J2534DllWrapper from readable and reportable arguments.
use j2534_oip_wrapper.Prelude.{ℕ, Option, none, some}
use j2534_oip_wrapper.Message.{Result, ◌>>=◌}
use j2534_oip_wrapper.Report
use j2534_oip_wrapper.Report.{Fn, Put}
use j2534_oip_wrapper.Interface.{Args, Text, deref}
use j2534_oip_wrapper.DllWrapper.Device
use j2534_oip_wrapper.DllWrapper.Messages
use j2534_oip_wrapper.DllWrapper.Messages.{msg_value}
use j2534_oip_wrapper.DllWrapper.Queries
use j2534_oip_wrapper.DllWrapper.Queries.{version_puts, ip_setup_puts, car_daq_puts}
use j2534_oip_wrapper.DllWrapper.Extra
use j2534_oip_wrapper.DllWrapper.Methods.{wrapping}
use j2534_oip_wrapper.DllWrapper.Readable.{
  NonNull, HasTexts, Readable, Reportable, Ends, Ends-bind, deref-Ends, msgs_value-Ends,
  msg_value-Ends,
}

-- A read through a pointer that is not null goes on.
deref-then :
    {A B : Type 0} (p : Option A) (k : A → Result B)
    → NonNull p
    → ((a : A) → Ends (k a))
    → Ends (deref p >>= k)
deref-then p k h e = Ends-bind (deref p) k (deref-Ends p h) e

version_puts-Ends :
    (firmware dll api : Option Text)
    → NonNull firmware
    → NonNull dll
    → NonNull api
    → Ends (version_puts firmware dll api)
unfolding version_puts
version_puts-Ends firmware dll api hf hd ha =
    deref-then firmware _ hf λ f. deref-then dll _ hd λ d. deref-then api _ ha λ a. tt

ip_setup_puts-Ends :
    (host ip mask gateway dhcp : Option Text)
    → NonNull host × NonNull ip × NonNull mask × NonNull gateway × NonNull dhcp
    → Ends (ip_setup_puts host ip mask gateway dhcp)
unfolding ip_setup_puts
ip_setup_puts-Ends host ip mask gateway dhcp h = deref-then host _ h.0 λ a.
    deref-then ip _ h.1
      λ b. deref-then mask _ h.2 λ c. deref-then gateway _ h.3 λ d. deref-then dhcp _ h.4 λ e. tt

car_daq_puts-Ends :
    (name : Option (Option Text)) (version : Option ℕ) (addr : Option (Option Text))
    → NonNull version
    → HasTexts name addr
    → Ends (car_daq_puts name version addr)
unfolding car_daq_puts deref
car_daq_puts-Ends none version addr hv ht = deref-then version _ hv λ number. tt
car_daq_puts-Ends (some name) version none hv ht = absurd ht.1
car_daq_puts-Ends (some name) version (some addr) hv ht =
    deref-then name _ ht.0 λ n. deref-then version _ hv λ v. deref-then addr _ ht.1 λ a. tt

pub before-Ends : (f : Fn) (args : Args f) → Readable f args → Ends ((wrapping f).before args)
unfolding wrapping Device.pass_thru_open Device.pass_thru_close Device.pass_thru_select
    Device.pass_thru_connect Device.pass_thru_disconnect Queries.pass_thru_get_last_error
    Device.pass_thru_ioctl Messages.pass_thru_read_msgs Queries.pass_thru_read_version
    Device.pass_thru_set_programming_voltage Messages.pass_thru_start_msg_filter
    Messages.pass_thru_start_periodic_msg Messages.pass_thru_stop_msg_filter
    Messages.pass_thru_stop_periodic_msg Queries.pass_thru_scan_for_devices
    Queries.pass_thru_get_next_device Messages.pass_thru_write_msgs
    Extra.pass_thru_ex_configure_wifi Extra.pass_thru_ex_device_watchdog
    Extra.pass_thru_ex_download_cyphered_flash_data Extra.pass_thru_ex_erase_flash
    Extra.pass_thru_ex_initiate_cyphered_flash_download Extra.pass_thru_ex_read_flash
    Extra.pass_thru_ex_reset_flash Extra.pass_thru_ex_run_self_test Extra.pass_thru_ex_write_flash
    Extra.pass_thru_load_firmware Extra.pass_thru_recover_firmware Queries.pass_thru_read_ip_setup
    Queries.pass_thru_write_ip_setup Queries.pass_thru_read_pc_setup Queries.pass_thru_get_pointer
    Queries.pass_thru_get_next_car_daq Device.pass_thru_read_details Messages.pass_thru_queue_msgs
before-Ends Report.pass_thru_open args h = deref-then args.1 _ h λ a. tt
before-Ends Report.pass_thru_connect args h = deref-then args.4 _ h λ a. tt
before-Ends Report.pass_thru_get_last_error args h = deref-then args _ h λ a. tt
before-Ends Report.pass_thru_read_msgs args h = deref-then args.2 _ h λ a. tt
before-Ends Report.pass_thru_read_version args h =
    Ends-bind (version_puts args.1 args.2 args.3) _
      (version_puts-Ends args.1 args.2 args.3 h.0 h.1 h.2) λ t. tt
before-Ends Report.pass_thru_start_msg_filter args h =
    Ends-bind (msg_value args.2) _ (msg_value-Ends args.2 h.0) λ a.
      Ends-bind (msg_value args.3) _ (msg_value-Ends args.3 h.1) λ b.
        Ends-bind (msg_value args.4) _ (msg_value-Ends args.4 h.2)
          λ c. deref-then args.5 _ h.3 λ d. tt
before-Ends Report.pass_thru_start_periodic_msg args h =
    Ends-bind (msg_value args.1) _ (msg_value-Ends args.1 h.0) λ m. deref-then args.2 _ h.1 λ a. tt
before-Ends Report.pass_thru_scan_for_devices args h = deref-then args _ h λ a. tt
before-Ends Report.pass_thru_write_msgs args h = msgs_value-Ends args.2 args.1 _ h λ n v. tt
before-Ends Report.pass_thru_read_ip_setup args h =
    Ends-bind (ip_setup_puts args.1 args.2 args.3 args.4 args.5) _
      (ip_setup_puts-Ends args.1 args.2 args.3 args.4 args.5 h) λ t. tt
before-Ends Report.pass_thru_write_ip_setup args h =
    Ends-bind (ip_setup_puts args.1 args.2 args.3 args.4 args.5) _
      (ip_setup_puts-Ends args.1 args.2 args.3 args.4 args.5 h) λ t. tt
before-Ends Report.pass_thru_read_pc_setup args h =
    deref-then args.0 _ h.0 λ a. deref-then args.1 _ h.1 λ b. tt
before-Ends Report.pass_thru_get_next_car_daq args h = deref-then args.1 _ h λ a. tt
before-Ends Report.pass_thru_read_details args h = deref-then args _ h λ a. tt
before-Ends Report.pass_thru_queue_msgs args h = msgs_value-Ends args.2 args.1 _ h λ n v. tt
before-Ends f args h = tt

pub after-Ends :
    (f : Fn) (retval : ℕ) (args : Args f)
    → Reportable f args
    → Ends ((wrapping f).after retval args)
unfolding wrapping Device.pass_thru_open Device.pass_thru_close Device.pass_thru_select
    Device.pass_thru_connect Device.pass_thru_disconnect Queries.pass_thru_get_last_error
    Device.pass_thru_ioctl Messages.pass_thru_read_msgs Queries.pass_thru_read_version
    Device.pass_thru_set_programming_voltage Messages.pass_thru_start_msg_filter
    Messages.pass_thru_start_periodic_msg Messages.pass_thru_stop_msg_filter
    Messages.pass_thru_stop_periodic_msg Queries.pass_thru_scan_for_devices
    Queries.pass_thru_get_next_device Messages.pass_thru_write_msgs
    Extra.pass_thru_ex_configure_wifi Extra.pass_thru_ex_device_watchdog
    Extra.pass_thru_ex_download_cyphered_flash_data Extra.pass_thru_ex_erase_flash
    Extra.pass_thru_ex_initiate_cyphered_flash_download Extra.pass_thru_ex_read_flash
    Extra.pass_thru_ex_reset_flash Extra.pass_thru_ex_run_self_test Extra.pass_thru_ex_write_flash
    Extra.pass_thru_load_firmware Extra.pass_thru_recover_firmware Queries.pass_thru_read_ip_setup
    Queries.pass_thru_write_ip_setup Queries.pass_thru_read_pc_setup Queries.pass_thru_get_pointer
    Queries.pass_thru_get_next_car_daq Device.pass_thru_read_details Messages.pass_thru_queue_msgs
after-Ends Report.pass_thru_get_last_error retval args h = deref-then args _ h λ a. tt
after-Ends Report.pass_thru_read_msgs retval args h = msgs_value-Ends args.2 args.1 _ h λ n v. tt
after-Ends Report.pass_thru_read_version retval args h =
    Ends-bind (version_puts args.1 args.2 args.3) _
      (version_puts-Ends args.1 args.2 args.3 h.0 h.1 h.2) λ t. tt
after-Ends Report.pass_thru_scan_for_devices retval args h = deref-then args _ h λ a. tt
after-Ends Report.pass_thru_read_ip_setup retval args h =
    Ends-bind (ip_setup_puts args.1 args.2 args.3 args.4 args.5) _
      (ip_setup_puts-Ends args.1 args.2 args.3 args.4 args.5 h) λ t. tt
after-Ends Report.pass_thru_read_pc_setup retval args h =
    deref-then args.0 _ h.0 λ a. deref-then args.1 _ h.1 λ b. tt
after-Ends Report.pass_thru_get_next_car_daq retval args h =
    Ends-bind (car_daq_puts args.0 args.1 args.2) _ (car_daq_puts-Ends args.0 args.1 args.2 h.0 h.1)
      λ t. tt
after-Ends Report.pass_thru_read_details retval args h = deref-then args _ h λ a. tt
after-Ends f retval args h = tt
