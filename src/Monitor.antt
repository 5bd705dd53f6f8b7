-- ===== src/Monitor.antt =====
-- The list of received messages in the monitoring application: ExJ2534ReadMsgsList of
-- j2534_OverIP_App/exj2534readmsgslist.cpp. It decodes the maps that map_put_PASSTHRU_MSG makes.
pub mod Rows
pub mod Views
pub mod Server
pub mod Arrival
pub mod Pages
pub mod Journey
pub mod History
pub mod Reload
pub mod Roles
use j2534_oip_wrapper.Prelude.{
  ℕ, zero, suc, List, [], ◌∷◌, ◌++◌, Option, none, some, length, leb, if◌then◌else◌,
}
use j2534_oip_wrapper.Message.{
  PassThruMsg, data_capacity, data_array, Result, ok, fault, ◌>>=◌, out_of_bounds,
}
use j2534_oip_wrapper.Report.{Key, param1, param2, param3, param4, param5, param6, param7}
use j2534_oip_wrapper.Cbor.{
  Cbor, Items, Pairs, undefined, integer, number, no_items, item, value_of, to_map, to_array,
  to_integer, to_byte_array,
}
use j2534_oip_wrapper.Cbor.Encode.{key_number}

-- `value(PipeMessage::KEY_…)`.
unfoldable pub at_key : Key → Pairs → Cbor
unfolding value_of key_number
at_key key ps = value_of (number (key_number key)) ps

-- One round of the loop of processPipeMessage: the new PASSTHRU_MSG. Whether or not the length
-- is DataSize, the bytes are copied into the array of 4128.
unfoldable pub decode_msg : Cbor → Result PassThruMsg
unfolding at_key to_integer to_byte_array to_map
decode_msg v =
    let ps = to_map v in
    let bytes = to_byte_array (at_key param7 ps) in
    if leb (length bytes) data_capacity
    then ok (record {
      protocol_id = to_integer 0 (at_key param1 ps);
      rx_status = to_integer 0 (at_key param2 ps);
      tx_flags = to_integer 0 (at_key param3 ps);
      timestamp = to_integer 0 (at_key param4 ps);
      data_size = to_integer 0 (at_key param5 ps);
      extra_data_index = to_integer 0 (at_key param6 ps);
      bytes = data_array bytes;
    })
    else fault out_of_bounds

-- The loop with addElement: `count` messages, behind the rows that are there. An element that the
-- array lacks is undefined.
unfoldable pub add_msgs : ℕ → Items → List PassThruMsg → Result (List PassThruMsg)
unfolding decode_msg
add_msgs zero items rows = ok rows
add_msgs (suc count) no_items rows =
    decode_msg undefined >>= λ m. add_msgs count no_items (rows ++ m ∷ [])
add_msgs (suc count) (item v items) rows =
    decode_msg v >>= λ m. add_msgs count items (rows ++ m ∷ [])

-- processPipeMessage on a report: an integer under KEY_Param2 stands for a null pMsg, another value
-- than a map is taken for an empty one.
unfoldable pub process_param2 : Cbor → List PassThruMsg → Result (List PassThruMsg)
unfolding value_of to_map to_array to_integer add_msgs
process_param2 (integer n) rows = ok rows
process_param2 v rows =
    add_msgs (to_integer 0 (value_of (number 0) (to_map v)))
      (to_array (value_of (number 1) (to_map v))) rows

unfoldable pub process_read_report : Cbor → List PassThruMsg → Result (List PassThruMsg)
unfolding process_param2 at_key to_map
process_read_report report rows = process_param2 (at_key param2 (to_map report)) rows

-- `removeElementByIndex` of this and the other lists: `at` outside the list is undefined.
unfoldable pub remove_element_by_index : {A : Type 0} → ℕ → List A → Result (List A)
remove_element_by_index idx [] = fault out_of_bounds
remove_element_by_index zero (m ∷ rows) = ok rows
remove_element_by_index (suc idx) (m ∷ rows) =
    remove_element_by_index idx rows >>= λ rest. ok (m ∷ rest)

-- `p_objs[row]`.
unfoldable pub at_row : {A : Type 0} → List A → ℕ → Result A
at_row [] row = fault out_of_bounds
at_row (m ∷ rows) zero = ok m
at_row (m ∷ rows) (suc row) = at_row rows row

-- The row that `data` of this and the other lists shows: a row past the end gives an empty QVariant,
-- here `none`; the row just behind the end passes the test, too.
unfoldable pub shown_row : {A : Type 0} → List A → ℕ → Result (Option A)
unfolding at_row
shown_row rows row =
    if leb row (length rows) then (at_row rows row >>= λ m. ok (some m)) else ok none
