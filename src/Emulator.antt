-- ===== src/Emulator.antt =====
-- J2534Emulator of j2534_OverIP/j2534emulator.cpp: an interface without hardware. Allocations are
-- taken to succeed; what it prints to the console is not modelled, but what it reads to print is.

pub mod Methods
pub mod Replies
pub mod Enumeration
use j2534_oip_wrapper.Prelude.{
  ℕ, List, [], ◌∷◌, ◌++◌, Option, none, some, codes, ◌==◌, if◌then◌else◌,
}
use j2534_oip_wrapper.Message.{
  PassThruMsg, data_array, Result, ok, fault, ◌>>=◌, null_pointer, out_of_bounds, status_noerror,
}
use j2534_oip_wrapper.Report
use j2534_oip_wrapper.Report.{
  Fn, Put, Report, entry, int, text, msgs, fn_key, func_name, param1, param2, param3, param4,
  param5,
}
use j2534_oip_wrapper.Interface.{
  Args, Answer, Implementation, Text, deref, name_or_empty, fetch_msgs,
}
use j2534_oip_wrapper.Cannelloni.Client.Ioctl.{
  IoctlMemory, SParam, read_vbatt, get_device_info, serial_number,
}

-- A message to the pipe: that of the constructor, with the address of the object; the report of a
-- method; the text "J2534Emulator … called!"; the name of a method; its name and " NULLPARAM".
pub data Notice : Type 0 where
  connected : ℕ → Notice
  call_report : Report → Notice
  called method_name null_param : Fn → Notice

-- `dev_counter` is the global `_dev_counter`; the process has one emulator. `sent` is newest first.
pub record Emulator : Type 0 where
  pub dev_counter : ℕ
  pub sent : List Notice

unfoldable pub new_emulator : ℕ → Emulator
new_emulator this = record { dev_counter = 0; sent = connected this ∷ [] }

unfoldable pub send : Emulator → Notice → Emulator
send e notice = record e { sent = notice ∷ e.sent }

unfoldable pub send_report : Emulator → Fn → List Put → Emulator
unfolding send
send_report e f puts =
    send e (call_report (record { label = f; puts = entry func_name (fn_key f) ∷ puts }))

unfoldable pub pass_thru_open :
    Args Report.pass_thru_open → Emulator → Result (Answer Emulator Report.pass_thru_open)
unfolding send_report
pass_thru_open args e = deref args.1 >>= λ old. ok (
  status_noerror,
  (args.0, some 777),
  send_report e Report.pass_thru_open
      (entry param1 (text (name_or_empty args.0)) ∷ entry param2 (int 777) ∷ []),
)

unfoldable pub pass_thru_close :
    Args Report.pass_thru_close → Emulator → Result (Answer Emulator Report.pass_thru_close)
unfolding send_report
pass_thru_close device_id e = ok (
  status_noerror,
  device_id,
  send_report e Report.pass_thru_close (entry param1 (int device_id) ∷ []),
)

-- ISO9141, CAN and ISO15765 of enum ProtocolId. Another protocol leaves `*pChannelID` alone.
unfoldable pub channel_of : ℕ → ℕ → ℕ
channel_of protocol_id old =
    if protocol_id == 3
    then 1
    else if protocol_id == 5
    then 2
    else if protocol_id == 6
    then 3
    else old

unfoldable pub pass_thru_connect :
    Args Report.pass_thru_connect → Emulator → Result (Answer Emulator Report.pass_thru_connect)
unfolding send_report
pass_thru_connect args e = deref args.4 >>= λ old.
    let channel_id = channel_of args.1 old in
    ok (
      status_noerror,
      (args.0, args.1, args.2, args.3, some channel_id),
      send_report e Report.pass_thru_connect (
          entry param1 (int args.0)
          ∷ entry param2 (int args.1)
          ∷ entry param3 (int args.2)
          ∷ entry param4 (int args.3)
          ∷ entry param5 (int channel_id)
          ∷ []),
    )

unfoldable pub pass_thru_disconnect :
    Args Report.pass_thru_disconnect
    → Emulator
    → Result (Answer Emulator Report.pass_thru_disconnect)
unfolding send_report
pass_thru_disconnect channel_id e = ok (
  status_noerror,
  channel_id,
  send_report e Report.pass_thru_disconnect (entry param1 (int channel_id) ∷ []),
)

-- ISO15765, with the flag ISO15765_FRAME_PAD.
abbrev pub flow_control_msg : PassThruMsg
flow_control_msg = record {
  protocol_id = 6;
  rx_status = 0;
  tx_flags = 0x40;
  timestamp = 0;
  data_size = 3;
  extra_data_index = 0;
  bytes = data_array (0x30 ∷ 0x00 ∷ 0x01 ∷ []);
}

-- `memcpy(&pMsg[0], …)`.
unfoldable pub write_first : PassThruMsg → Option (List PassThruMsg) → Result (List PassThruMsg)
write_first m none = fault null_pointer
write_first m (some []) = fault out_of_bounds
write_first m (some (old ∷ ms)) = ok (m ∷ ms)

unfoldable pub pass_thru_read_msgs :
    Args Report.pass_thru_read_msgs → Emulator → Result (Answer Emulator Report.pass_thru_read_msgs)
unfolding send_report
pass_thru_read_msgs args e = deref args.2 >>= λ num_msgs.
    write_first flow_control_msg args.1 >>= λ ms. ok (
      status_noerror,
      (args.0, some ms, some 1, args.3),
      send_report e Report.pass_thru_read_msgs (
          entry param1 (int args.0)
          ∷ entry param2 (int 0)
          ∷ entry param3 (int 1)
          ∷ entry param4 (int args.3)
          ∷ []),
    )

unfoldable pub pass_thru_queue_msgs :
    Args Report.pass_thru_queue_msgs
    → Emulator
    → Result (Answer Emulator Report.pass_thru_queue_msgs)
unfolding send_report
pass_thru_queue_msgs args e = deref args.2 >>= λ num_msgs. fetch_msgs num_msgs args.1 >>= λ ms. ok (
  status_noerror,
  args,
  send_report e Report.pass_thru_queue_msgs (
      entry param1 (int args.0)
      ∷ entry param2 (msgs num_msgs ms)
      ∷ entry param3 (int num_msgs)
      ∷ []),
)

unfoldable pub pass_thru_write_msgs :
    Args Report.pass_thru_write_msgs
    → Emulator
    → Result (Answer Emulator Report.pass_thru_write_msgs)
unfolding send_report
pass_thru_write_msgs args e = deref args.2 >>= λ num_msgs. fetch_msgs num_msgs args.1 >>= λ ms. ok (
  status_noerror,
  args,
  send_report e Report.pass_thru_write_msgs (
      entry param1 (int args.0)
      ∷ entry param2 (msgs num_msgs ms)
      ∷ entry param3 (int num_msgs)
      ∷ entry param4 (int args.3)
      ∷ []),
)
