-- ===== src/Interface.antt =====
-- The interface that every implementation fills: j2534_OverIP/Exj2534WrapperInterface.h, with
-- the signatures of j2534_OverIP/j2534_dev_typedefs.h. A virtual method is a function of the
-- data type `Fn`; its arguments are a tuple, in the order of the signature.
pub mod Runs
use j2534_oip_wrapper.Prelude.{
  ℕ, List, [], ◌∷◌, Bool, true, ◌&&◌, Option, none, some, length, take, ltb, leb, if◌then◌else◌,
}
use j2534_oip_wrapper.Message.{
  PassThruMsg, data_capacity, Result, ok, fault, ◌>>=◌, null_pointer, out_of_bounds,
}
use j2534_oip_wrapper.Report
use j2534_oip_wrapper.Report.{Fn, Value, msgs}
use j2534_oip_wrapper.Cannelloni.Client.Ioctl.{IoctlMemory}
use j2534_oip_wrapper.Cannelloni.Client.Select.{ChannelSet}

-- A C string, without the final zero.
abbrev pub Text : Type 0
Text = List ℕ

-- A pointer is `none` if it is null, and else what it points to: a word, a C string, an array of
-- messages, the bytes of an SDEVICE. The methods of Drew Technologies without parameters take
-- `Unit`.
abbrev pub Args : Fn → Type 0
Args Report.pass_thru_open = Option Text × Option ℕ
Args Report.pass_thru_close = ℕ
Args Report.pass_thru_select = Option ChannelSet × ℕ × ℕ
Args Report.pass_thru_connect = ℕ × ℕ × ℕ × ℕ × Option ℕ
Args Report.pass_thru_disconnect = ℕ
Args Report.pass_thru_get_last_error = Option Text
Args Report.pass_thru_ioctl = ℕ × ℕ × IoctlMemory
Args Report.pass_thru_read_msgs = ℕ × Option (List PassThruMsg) × Option ℕ × ℕ
Args Report.pass_thru_read_version = ℕ × Option Text × Option Text × Option Text
Args Report.pass_thru_set_programming_voltage = ℕ × ℕ × ℕ
Args Report.pass_thru_start_msg_filter =
    ℕ × ℕ × Option PassThruMsg × Option PassThruMsg × Option PassThruMsg × Option ℕ
Args Report.pass_thru_start_periodic_msg = ℕ × Option PassThruMsg × Option ℕ × ℕ
Args Report.pass_thru_stop_msg_filter = ℕ × ℕ
Args Report.pass_thru_stop_periodic_msg = ℕ × ℕ
Args Report.pass_thru_scan_for_devices = Option ℕ
Args Report.pass_thru_get_next_device = Option (List ℕ)
Args Report.pass_thru_write_msgs = ℕ × Option (List PassThruMsg) × Option ℕ × ℕ
Args Report.pass_thru_ex_configure_wifi = Unit
Args Report.pass_thru_ex_device_watchdog = Unit
Args Report.pass_thru_ex_download_cyphered_flash_data = Unit
Args Report.pass_thru_ex_erase_flash = Unit
Args Report.pass_thru_ex_initiate_cyphered_flash_download = Unit
Args Report.pass_thru_ex_read_flash = Unit
Args Report.pass_thru_ex_reset_flash = Unit
Args Report.pass_thru_ex_run_self_test = Unit
Args Report.pass_thru_ex_write_flash = Unit
Args Report.pass_thru_load_firmware = Unit
Args Report.pass_thru_recover_firmware = Unit
Args Report.pass_thru_read_ip_setup =
    ℕ × Option Text × Option Text × Option Text × Option Text × Option Text
Args Report.pass_thru_write_ip_setup =
    ℕ × Option Text × Option Text × Option Text × Option Text × Option Text
Args Report.pass_thru_read_pc_setup = Option Text × Option Text
Args Report.pass_thru_get_pointer = ℕ
Args Report.pass_thru_get_next_car_daq = Option (Option Text) × Option ℕ × Option (Option Text)
Args Report.pass_thru_read_details = Option ℕ
Args Report.pass_thru_queue_msgs = ℕ × Option (List PassThruMsg) × Option ℕ

-- What a method leaves: its status, its arguments with the memory behind the pointers as it is
-- then, and the state of the object. A parameter that is no pointer is passed by value: the caller
-- finds it as it was.
abbrev pub Answer : Type 0 → Fn → Type 0
Answer S f = ℕ × Args f × S

-- The virtual methods of an object with state `S`.
abbrev pub Implementation : Type 0 → Type 0
Implementation S = (f : Fn) → Args f → S → Result (Answer S f)

pub record Call : Type 0 where
  pub fn : Fn
  pub args : Args fn

-- The status of a call and its arguments afterwards.
pub record Reply : Type 0 where
  pub fn : Fn
  pub status : ℕ
  pub args : Args fn

-- A sequence of calls on one object, with the replies in their order.
unfoldable pub run : {S : Type 0} → Implementation S → List Call → S → Result (List Reply × S)
run methods [] s = ok ([], s)
run methods (c ∷ cs) s = methods c.fn c.args s >>= λ a. run methods cs a.2 >>= λ rest.
    ok (record { fn = c.fn; status = a.0; args = a.1 } ∷ rest.0, rest.1)

-- A read through a pointer.
unfoldable pub deref : {A : Type 0} → Option A → Result A
deref none = fault null_pointer
deref (some a) = ok a

-- `(pName == NULL?"":(const char *)pName)`
unfoldable pub name_or_empty : Option Text → Text
name_or_empty none = []
name_or_empty (some name) = name

unfoldable pub all_fit : List PassThruMsg → Bool
all_fit [] = true
all_fit (m ∷ ms) = leb m.data_size data_capacity && all_fit ms

-- The first `count` messages of an array, of each the bytes that its DataSize counts.
unfoldable pub fetch_msgs : ℕ → Option (List PassThruMsg) → Result (List PassThruMsg)
unfolding all_fit
fetch_msgs count none = if ltb 0 count then fault null_pointer else ok []
fetch_msgs count (some ms) =
    if leb count (length ms) && all_fit (take count ms)
    then ok (take count ms)
    else fault out_of_bounds

-- What map_put_PASSTHRU_MSG of j2534_OverIP/cbor_utils.cpp puts.
unfoldable pub msgs_value : ℕ → Option (List PassThruMsg) → Result Value
unfolding fetch_msgs
msgs_value count p = fetch_msgs count p >>= λ ms. ok (msgs count ms)
