-- ===== src/DllWrapper/Messages.antt =====
-- The methods of J2534DllWrapper for messages, periodic messages and filters
-- (j2534_OverIP/j2534dllwrapper.cpp).
use j2534_oip_wrapper.Prelude.{[], ◌∷◌, Option, none, some}
use j2534_oip_wrapper.Message.{PassThruMsg, Result, ok, fault, ◌>>=◌, null_pointer}
use j2534_oip_wrapper.Report
use j2534_oip_wrapper.Report.{
  Put, Value, entry, int, fn_key, func_name, param1, param2, param3, param4, param5, param6, rx_tx,
  retval_long,
}
use j2534_oip_wrapper.Interface.{deref, msgs_value}
use j2534_oip_wrapper.DllWrapper.{Wrapping, only_retval}

unfoldable pub pass_thru_read_msgs : Wrapping Report.pass_thru_read_msgs
pass_thru_read_msgs = record {
  label = Report.pass_thru_read_msgs;
  before = λ args. deref args.2 >>= λ num_msgs. ok (
      entry func_name (fn_key Report.pass_thru_read_msgs)
      ∷ entry param1 (int args.0)
      ∷ entry param3 (int num_msgs)
      ∷ entry param4 (int args.3)
      ∷ entry rx_tx (int 0)
      ∷ []);
  missing = entry param2 (int 0) ∷ [];
  after = λ retval out. deref out.2 >>= λ num_msgs. msgs_value num_msgs out.1 >>= λ read. ok (
      entry param2 read
      ∷ entry param3 (int num_msgs)
      ∷ entry param4 (int out.3)
      ∷ entry rx_tx (int 1)
      ∷ entry retval_long (int retval)
      ∷ []);
}

unfoldable pub pass_thru_queue_msgs : Wrapping Report.pass_thru_queue_msgs
pass_thru_queue_msgs = record {
  label = Report.pass_thru_queue_msgs;
  before = λ args. deref args.2 >>= λ num_msgs. msgs_value num_msgs args.1 >>= λ queued. ok (
      entry func_name (fn_key Report.pass_thru_queue_msgs)
      ∷ entry param1 (int args.0)
      ∷ entry param2 queued
      ∷ entry param3 (int num_msgs)
      ∷ []);
  missing = [];
  after = only_retval;
}

unfoldable pub pass_thru_write_msgs : Wrapping Report.pass_thru_write_msgs
pass_thru_write_msgs = record {
  label = Report.pass_thru_write_msgs;
  before = λ args. deref args.2 >>= λ num_msgs. msgs_value num_msgs args.1 >>= λ written. ok (
      entry func_name (fn_key Report.pass_thru_write_msgs)
      ∷ entry param1 (int args.0)
      ∷ entry param2 written
      ∷ entry param3 (int num_msgs)
      ∷ entry param4 (int args.3)
      ∷ []);
  missing = [];
  after = only_retval;
}

-- `map_put_PASSTHRU_MSG` of one message behind a pointer.
unfoldable pub msg_value : Option PassThruMsg → Result Value
msg_value none = fault null_pointer
msg_value (some m) = msgs_value 1 (some (m ∷ []))

unfoldable pub pass_thru_start_periodic_msg : Wrapping Report.pass_thru_start_periodic_msg
pass_thru_start_periodic_msg = record {
  label = Report.pass_thru_start_periodic_msg;
  before = λ args. msg_value args.1 >>= λ msg. deref args.2 >>= λ msg_id. ok (
      entry func_name (fn_key Report.pass_thru_start_periodic_msg)
      ∷ entry param1 (int args.0)
      ∷ entry param2 msg
      ∷ entry param3 (int msg_id)
      ∷ entry param4 (int args.3)
      ∷ []);
  missing = [];
  after = only_retval;
}

unfoldable pub pass_thru_stop_periodic_msg : Wrapping Report.pass_thru_stop_periodic_msg
pass_thru_stop_periodic_msg = record {
  label = Report.pass_thru_stop_periodic_msg;
  before = λ args. ok (
      entry func_name (fn_key Report.pass_thru_stop_periodic_msg)
      ∷ entry param1 (int args.0)
      ∷ entry param2 (int args.1)
      ∷ []);
  missing = [];
  after = only_retval;
}

unfoldable pub pass_thru_start_msg_filter : Wrapping Report.pass_thru_start_msg_filter
pass_thru_start_msg_filter = record {
  label = Report.pass_thru_start_msg_filter;
  before = λ args. msg_value args.2 >>= λ mask. msg_value args.3 >>= λ pattern_msg.
      msg_value args.4 >>= λ flow_control. deref args.5 >>= λ msg_id. ok (
        entry func_name (fn_key Report.pass_thru_start_msg_filter)
        ∷ entry param1 (int args.0)
        ∷ entry param2 (int args.1)
        ∷ entry param3 mask
        ∷ entry param4 pattern_msg
        ∷ entry param5 flow_control
        ∷ entry param6 (int msg_id)
        ∷ []);
  missing = [];
  after = only_retval;
}

unfoldable pub pass_thru_stop_msg_filter : Wrapping Report.pass_thru_stop_msg_filter
pass_thru_stop_msg_filter = record {
  label = Report.pass_thru_stop_msg_filter;
  before = λ args. ok (
      entry func_name (fn_key Report.pass_thru_stop_msg_filter)
      ∷ entry param1 (int args.0)
      ∷ entry param2 (int args.1)
      ∷ []);
  missing = [];
  after = only_retval;
}
