-- ===== src/Cannelloni/Refused.antt =====
-- Calls of the functions that J2534CannelloniClient does not implement
-- (j2534_OverIP/j2534cannelloniclient.cpp), through the interface of the implementations.
use j2534_oip_wrapper.Prelude.{Option, none, some}
use j2534_oip_wrapper.Message.{Result, WhenOk}
use j2534_oip_wrapper.Report
use j2534_oip_wrapper.Report.{Fn}
use j2534_oip_wrapper.Cannelloni.Client.{Client}
use j2534_oip_wrapper.Cannelloni.Client.Unsupported.{UnsupportedCall}

-- The functions whose body only reports.
abbrev pub IsUnsupported : Fn → Type 0
IsUnsupported Report.pass_thru_open = ⊥
IsUnsupported Report.pass_thru_close = ⊥
IsUnsupported Report.pass_thru_connect = ⊥
IsUnsupported Report.pass_thru_disconnect = ⊥
IsUnsupported Report.pass_thru_read_msgs = ⊥
IsUnsupported Report.pass_thru_write_msgs = ⊥
IsUnsupported Report.pass_thru_select = ⊥
IsUnsupported Report.pass_thru_ioctl = ⊥
IsUnsupported Report.pass_thru_read_version = ⊥
IsUnsupported Report.pass_thru_get_last_error = ⊥
IsUnsupported Report.pass_thru_scan_for_devices = ⊥
IsUnsupported Report.pass_thru_get_next_device = ⊥
IsUnsupported Report.pass_thru_get_next_car_daq = ⊥
IsUnsupported f = Unit

abbrev IsCall : Option UnsupportedCall → Type 0
IsCall none = ⊥
IsCall (some call) = Unit

-- A run that does not return.
abbrev Never : {A : Type 0} → Result A → Type 0
Never {A} r = WhenOk {0, 0} (λ (a : A). ⊥) r
