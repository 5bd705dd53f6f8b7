-- ===== src/Sockets.antt =====
-- The older socket server, ExJ2534OIPSocks (j2534_OverIP/exj2534oipsocks.{h,cpp}), and the loader of
-- a DLL that belongs to it, ExJ2534Device (j2534_OverIP/exj2534device.{h,cpp}). The two threads are
-- given by the rounds of their loops; a round runs alone.
pub mod Rounds
use j2534_oip_wrapper.Prelude.{
  ℕ, ◌+◌, ◌*◌, ◌-◌, ◌^◌, List, [], ◌∷◌, ◌++◌, Bool, true, false, ◌&&◌, Option, none, some, length,
  get_or, take, drop, leb, ltb, ◌==◌, if◌then◌else◌,
}
use j2534_oip_wrapper.Message.{
  PassThruMsg, data_capacity, data_array, can, Result, ok, fault, ◌>>=◌, out_of_bounds,
}
use j2534_oip_wrapper.Report
use j2534_oip_wrapper.Report.{Fn}
use j2534_oip_wrapper.DllWrapper.{Pointer, load_function}

-- A descriptor of -1 is `none`. `recv_buffer` has the first `m_recv_buffer_size` messages of the
-- array of 100000; `thread_buffer` is the array of 8192 bytes of the receive thread.
pub record Server : Type 0 where
  pub client_fd : Option ℕ
  pub server_fd : Option ℕ
  pub recv_buffer : List PassThruMsg
  pub thread_buffer : List ℕ

abbrev pub recv_capacity : ℕ
recv_capacity = 100_000

abbrev pub thread_capacity : ℕ
thread_capacity = 8192

-- The constructor; `stack` is what the array of the receive thread holds at first.
unfoldable pub new_server : List ℕ → Server
new_server stack = record {
  client_fd = none;
  server_fd = none;
  recv_buffer = [];
  thread_buffer = stack;
}

-- init_server: `socket` answers with a descriptor or fails; the results of bind and listen are not
-- looked at.
unfoldable pub init_server : Option ℕ → Server → Server
init_server socket s = record s { server_fd = socket }

unfoldable pub close_client : Server → Server
close_client s = record s { client_fd = none }

unfoldable pub close_server : Server → Server
close_server s = record s { server_fd = none }

unfoldable pub reset_buffer : Server → Server
reset_buffer s = record s { recv_buffer = [] }

-- One round of accept_thread: `accept` on the descriptor of the client.
unfoldable pub accept_round : (Option ℕ → Option ℕ) → Server → Server
unfolding reset_buffer
accept_round accept s = elim (accept s.client_fd) [
  | none ↦ record s { client_fd = none }
  | some fd ↦ reset_buffer (record s { client_fd = some fd })
]

-- ntohl of the four bytes of the length.
unfoldable pub of_be32 : List ℕ → ℕ
of_be32 bytes =
    get_or bytes 0 0 * 2 ^ 24
    + get_or bytes 1 0 * 2 ^ 16
    + get_or bytes 2 0 * 2 ^ 8
    + get_or bytes 3 0

-- The result of recv as it is compared with a length: the failure -1 becomes a word.
unfoldable pub recv_result : Option (List ℕ) → ℕ
recv_result none = 2 ^ 32 - 1
recv_result (some bytes) = length bytes

unfoldable pub received : Option (List ℕ) → List ℕ
received none = []
received (some bytes) = bytes

unfoldable pub is_ping : List ℕ → Bool
is_ping buffer =
    (get_or buffer 0 0 == 0)
    && (get_or buffer 1 0 == 0)
    && (get_or buffer 2 0 == 0)
    && (get_or buffer 3 0 == 0)

-- The message that is pushed: `DataSize` bytes are copied out of the buffer of the thread.
unfoldable pub pushed : ℕ → ℕ → List ℕ → PassThruMsg
pushed now size buffer = record {
  protocol_id = can;
  rx_status = 0;
  tx_flags = 0;
  timestamp = now;
  data_size = size;
  extra_data_index = 0;
  bytes = data_array (take size buffer);
}

unfoldable pub push : ℕ → ℕ → Server → Result Server
unfolding pushed
push now size s =
    if ltb (length s.recv_buffer) recv_capacity && leb size data_capacity
    then ok (record s { recv_buffer = s.recv_buffer ++ pushed now size s.thread_buffer ∷ [] })
    else fault out_of_bounds

-- The part of the round behind the length: recv writes what it receives into the buffer.
unfoldable pub recv_payload : ℕ → ℕ → Option (List ℕ) → Server → Result Server
unfolding recv_result received is_ping push
recv_payload now size answer s =
    let bytes = received answer in
    let s' = record s { thread_buffer = bytes ++ drop (length bytes) s.thread_buffer } in
    if ltb thread_capacity (length bytes)
    then fault out_of_bounds
    else if recv_result answer == size
    then (if is_ping s'.thread_buffer then ok s' else push now size s')
    else ok s'

-- One round of recv_thread; `header` and `payload` are what the two calls of recv receive.
unfoldable pub connected_round : ℕ → (header payload : Option (List ℕ)) → Server → Result Server
unfolding recv_result received of_be32 recv_payload
connected_round now header payload s =
    if recv_result header == 4 then recv_payload now (of_be32 (received header)) payload s else ok s

unfoldable pub recv_round : ℕ → (header payload : Option (List ℕ)) → Server → Result Server
unfolding connected_round
recv_round now header payload s = elim s.client_fd [
  | none ↦ ok s
  | some fd ↦ connected_round now header payload s
]

-- ExJ2534Device: the members that its constructor sets, and the function pointers.
pub record Device : Type 0 where
  pub loaded : Bool
  pub path : Option (List ℕ)
  pub functions : Fn → Pointer

-- What GetProcAddress is asked for; the other pointers do not exist.
unfoldable pub assign_device : (Fn → Bool) → (Fn → Pointer) → Fn → Pointer
unfolding load_function
assign_device exported old Report.pass_thru_open = load_function (exported Report.pass_thru_open)
assign_device exported old Report.pass_thru_close = load_function (exported Report.pass_thru_close)
assign_device exported old Report.pass_thru_connect =
    load_function (exported Report.pass_thru_connect)
assign_device exported old Report.pass_thru_disconnect =
    load_function (exported Report.pass_thru_disconnect)
assign_device exported old Report.pass_thru_read_msgs =
    load_function (exported Report.pass_thru_read_msgs)
assign_device exported old Report.pass_thru_write_msgs =
    load_function (exported Report.pass_thru_write_msgs)
assign_device exported old Report.pass_thru_start_periodic_msg =
    load_function (exported Report.pass_thru_start_periodic_msg)
assign_device exported old Report.pass_thru_stop_periodic_msg =
    load_function (exported Report.pass_thru_stop_periodic_msg)
assign_device exported old Report.pass_thru_start_msg_filter =
    load_function (exported Report.pass_thru_start_msg_filter)
assign_device exported old Report.pass_thru_stop_msg_filter =
    load_function (exported Report.pass_thru_stop_msg_filter)
assign_device exported old Report.pass_thru_set_programming_voltage =
    load_function (exported Report.pass_thru_set_programming_voltage)
assign_device exported old Report.pass_thru_read_version =
    load_function (exported Report.pass_thru_read_version)
assign_device exported old Report.pass_thru_get_last_error =
    load_function (exported Report.pass_thru_get_last_error)
assign_device exported old Report.pass_thru_ioctl = load_function (exported Report.pass_thru_ioctl)
assign_device exported old f = old f

-- J2534WrapperInit; `loads` says that LoadLibraryExA succeeds.
unfoldable pub wrapper_init : Bool → (Fn → Bool) → Device → Device
unfolding assign_device
wrapper_init loads exported d = elim d.path [
  | none ↦ d
  | some path ↦
      if loads
      then record d { loaded = true; functions = assign_device exported d.functions }
      else record d { loaded = false }
]

-- loadJ2534Dll.
unfoldable pub load_j2534_dll : Bool → (Fn → Bool) → List ℕ → Device → Device
unfolding wrapper_init
load_j2534_dll loads exported path d = wrapper_init loads exported (record d { path = some path })
