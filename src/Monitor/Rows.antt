-- ===== src/Monitor/Rows.antt =====
-- The rows that a report of PassThruReadMsgs adds to the list of received messages.
use j2534_oip_wrapper.Prelude.{
  ℕ, zero, suc, ◌≡◌, refl, sym, ap, ◌∙◌, ◌≤◌, arith, List, [], ◌∷◌, ◌++◌, append_assoc, append-nil,
  Option, some, map, length, take, length-take, le→leb, All, All-take,
}
use j2534_oip_wrapper.Message.{PassThruMsg, data_capacity, data_array, ok, ◌>>=◌}
use j2534_oip_wrapper.Report
use j2534_oip_wrapper.Report.{
  Fn, Put, entry, int, msgs, fn_key, func_name, param1, param2, param3, param4, rx_tx, retval_long,
}
use j2534_oip_wrapper.Interface.{Implementation, deref, msgs_value}
use j2534_oip_wrapper.Cbor.{
  cbor_map, value_of, same_key, to_map, to_array, to_integer, to_byte_array,
}
use j2534_oip_wrapper.Cbor.Encode.{
  encode_msg, encode_items, encode_msgs, encode_value, encode_puts, key_number,
}
use j2534_oip_wrapper.DllWrapper.{is_stale, Wrapper, procedure, send}
use j2534_oip_wrapper.DllWrapper.Methods.{wrapping, methods}
use j2534_oip_wrapper.DllWrapper.Transparent.{methods-before, forward-procedure}
use j2534_oip_wrapper.DllWrapper.Messages.{pass_thru_read_msgs}
use j2534_oip_wrapper.DllWrapper.Readable.{FitsMsg, fetch_msgs_lem}
use j2534_oip_wrapper.Monitor.{at_key, decode_msg, add_msgs, process_param2, process_read_report}

-- A message as the application shows it: the bytes behind DataSize are zero.
abbrev pub shown : PassThruMsg → PassThruMsg
shown m = record m { bytes = data_array (take m.data_size m.bytes) }

decode-encode : (m : PassThruMsg) → FitsMsg m → decode_msg (encode_msg m) ≡ ok (shown m)
unfolding decode_msg encode_msg at_key value_of same_key key_number to_map to_integer to_byte_array
decode-encode m h =
    let short : length (take m.data_size m.bytes) ≤ data_capacity =
      omega (arith, length-take m.data_size m.bytes) in
    rw (le→leb (length (take m.data_size m.bytes)) data_capacity short) refl

add_msgs-encode :
    (n : ℕ) (ms rows : List PassThruMsg)
    → n ≡ length ms
    → All FitsMsg ms
    → add_msgs n (encode_items ms) rows ≡ ok (rows ++ map shown ms)
unfolding add_msgs encode_items
add_msgs-encode zero [] rows e h = ap ok (sym (append-nil rows))
add_msgs-encode (suc n) [] rows e h = absurd (omega arith)
add_msgs-encode zero (m ∷ ms) rows e h = absurd (omega arith)
add_msgs-encode (suc n) (m ∷ ms) rows e h =
    ap (λ r. r >>= λ q. add_msgs n (encode_items ms) (rows ++ q ∷ [])) (decode-encode m h.0)
    ∙ add_msgs-encode n ms (rows ++ shown m ∷ []) (omega arith) h.1
    ∙ ap ok (append_assoc rows (shown m ∷ []) (map shown ms))

-- The entries of the report that the wrapper sends when a read has left `n` messages.
abbrev pub read_puts : (channel_id timeout num n retval : ℕ) → List PassThruMsg → List Put
read_puts channel_id timeout num n retval read =
    entry func_name (fn_key Report.pass_thru_read_msgs)
    ∷ entry param1 (int channel_id)
    ∷ entry param3 (int num)
    ∷ entry param4 (int timeout)
    ∷ entry rx_tx (int 0)
    ∷ entry param2 (msgs n read)
    ∷ entry param3 (int n)
    ∷ entry param4 (int timeout)
    ∷ entry rx_tx (int 1)
    ∷ entry retval_long (int retval)
    ∷ []

pub read_puts-shown :
    (function_text : Fn → List ℕ) (channel_id timeout num n retval : ℕ) (ms rows : List PassThruMsg)
    → n ≤ length ms
    → All FitsMsg ms
    → process_read_report
        (cbor_map
          (encode_puts function_text (read_puts channel_id timeout num n retval (take n ms))))
        rows
      ≡ ok (rows ++ map shown (take n ms))
unfolding process_read_report process_param2 at_key value_of same_key key_number to_map to_array
    to_integer encode_puts encode_value encode_msgs
read_puts-shown function_text channel_id timeout num n retval ms rows h k =
    add_msgs-encode n (take n ms) rows (omega (arith, length-take n ms)) (All-take FitsMsg n ms k)

-- When the function PassThruReadMsgs of the wrapped DLL leaves `n` messages in its array, the wrapper
-- sends one report, whose map makes the application append exactly these `n` messages, in their
-- order, to the rows that it shows: their fields, the bytes that DataSize counts, and zeros
-- behind them. The array has at least `n` messages, none with more bytes than its data has room for.
pub read_report_shown :
    {S : Type 0} (dll : Implementation S) (w : Wrapper S) (function_text : Fn → List ℕ)
    (channel_id timeout num n retval : ℕ) (buffer : Option (List PassThruMsg))
    (ms rows : List PassThruMsg) (s : S)
    → w.functions Report.pass_thru_read_msgs ≡ procedure
    → dll Report.pass_thru_read_msgs (channel_id, buffer, some num, timeout) w.dll
      ≡ ok (retval, (channel_id, some ms, some n, timeout), s)
    → n ≤ length ms
    → All FitsMsg ms
    → let puts = read_puts channel_id timeout num n retval (take n ms) in
      (methods dll Report.pass_thru_read_msgs (channel_id, buffer, some num, timeout) w
        ≡ ok (
          retval,
          (channel_id, some ms, some n, timeout),
          send dll (record w { dll = s }) Report.pass_thru_read_msgs puts,
        ))
      × (process_read_report (cbor_map (encode_puts function_text puts)) rows
          ≡ ok (rows ++ map shown (take n ms)))
unfolding wrapping pass_thru_read_msgs deref msgs_value is_stale
read_report_shown dll w function_text channel_id timeout num n retval buffer ms rows s p d h k = (
  methods-before dll Report.pass_thru_read_msgs (channel_id, buffer, some num, timeout) w _ refl
      ∙ forward-procedure dll Report.pass_thru_read_msgs (channel_id, buffer, some num, timeout) w _
          (retval, (channel_id, some ms, some n, timeout), s) _ p refl d
          (rw (fetch_msgs_lem n ms h k) refl),
  read_puts-shown function_text channel_id timeout num n retval ms rows h k,
)
