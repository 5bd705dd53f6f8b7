-- ===== src/Cannelloni/Memory.antt =====
-- The memory behind the pointers of J2534CannelloniClient's functions
-- (j2534_OverIP/j2534cannelloniclient.cpp).
use j2534_oip_wrapper.Prelude.{
  ℕ, ◌-◌, ◌==◌, replicate, List, [], ◌∷◌, ◌++◌, Bool, true, false, Option, none, some, length, take,
  drop, leb, if◌then◌else◌,
}
use j2534_oip_wrapper.Prelude.Bytes.{to_le32}
use j2534_oip_wrapper.Message.{PassThruMsg, Result, ok, fault, null_pointer, out_of_bounds}
use j2534_oip_wrapper.Interface.{Text}
use j2534_oip_wrapper.Cannelloni.Client.Devices.{SDevice}

-- What the caller finds behind a pointer after a write, if there was one.
unfoldable pub written : {A : Type 0} → Option A → Option A → Result (Option A)
written old none = ok old
written none (some a) = fault null_pointer
written (some old) (some a) = ok (some a)

-- An array whose first elements were overwritten.
unfoldable pub overwrite :
    List PassThruMsg → Option (List PassThruMsg) → Result (Option (List PassThruMsg))
overwrite [] old = ok old
overwrite (m ∷ ms) none = fault null_pointer
overwrite (m ∷ ms) (some old) =
    if leb (length (m ∷ ms)) (length old)
    then ok (some (m ∷ ms ++ drop (length (m ∷ ms)) old))
    else fault out_of_bounds

-- The messages that the loop of PassThruWriteMsgs looks at.
unfoldable pub array_msgs : ℕ → Option (List PassThruMsg) → Result (List PassThruMsg)
array_msgs count none = if leb count 0 then ok [] else fault null_pointer
array_msgs count (some ms) =
    if leb count (length ms) then ok (take count ms) else fault out_of_bounds

-- In the place of a message that is not looked at.
abbrev pub unread_msg : PassThruMsg
unread_msg = record {
  protocol_id = 0;
  rx_status = 0;
  tx_flags = 0;
  timestamp = 0;
  data_size = 0;
  extra_data_index = 0;
  bytes = [];
}

unfoldable pub is_set : {A : Type 0} → Option A → Bool
is_set none = false
is_set (some a) = true

-- The C string in an array.
unfoldable pub c_string : List ℕ → Text
c_string [] = []
c_string (b ∷ bs) = let rest = c_string bs in if b == 0 then [] else b ∷ rest

-- The bytes of an SDEVICE: the name in an array of 80, and six words.
unfoldable pub device_bytes : SDevice → List ℕ
device_bytes d =
    d.device_name_text
    ++ replicate (80 - length d.device_name_text) 0
    ++ to_le32 d.device_available
    ++ to_le32 d.device_dllfw_status
    ++ to_le32 d.device_connect_media
    ++ to_le32 d.device_connect_speed
    ++ to_le32 d.device_signal_quality
    ++ to_le32 d.device_signal_strength
