-- ===== src/Cannelloni/Client/Open.antt =====
-- PassThruOpen of j2534_OverIP/j2534cannelloniclient.cpp.
pub mod Outcome
use j2534_oip_wrapper.Prelude.{
  ℕ, ◌%◌, ◌^◌, List, [], ◌∷◌, ◌++◌, Bool, true, false, not, ◌&&◌, ◌||◌, Option, none, some, codes,
  length, replicate, leb, ltb, ◌==◌, if◌then◌else◌,
}
use j2534_oip_wrapper.Prelude.Assoc.{assign, contains_key, remove}
use j2534_oip_wrapper.Message.{
  status_noerror, err_null_parameter, err_device_in_use, err_device_not_connected,
  err_invalid_device_id,
}
use j2534_oip_wrapper.Report.{
  Put, entry, int, text, fn_key, pass_thru_open as open_fn, func_name, param1, param2, retval_long,
}
use j2534_oip_wrapper.Cannelloni.Packet.{init_packet}
use j2534_oip_wrapper.Cannelloni.Receive.{Channel, SockAddr, max_packet_size}
use j2534_oip_wrapper.Cannelloni.Client.{
  Client, LastError, device_id_null, all_opened, no_free_ports, socket_failed, invalid_host,
  connect_failed, report, error_entry, virtual_device_count,
}

-- What the Winsock calls of one PassThruOpen return. `pton_check` is the call with no buffer for
-- the address, `pton` the call with one; `wsa_error` is what WSAGetLastError says.
pub record OpenEnv : Type 0 where
  pub socket : Option ℕ
  pub pton_check : List ℕ → Bool
  pub pton : List ℕ → Option ℕ
  pub connects : Bool
  pub wsa_error : ℕ

-- `isprint` in the "C" locale.
is_print : ℕ → Bool
is_print c = leb 0x20 c && leb c 0x7e

all_print : List ℕ → Bool
all_print [] = true
all_print (c ∷ cs) = is_print c && all_print cs

-- isValidHostString.
unfoldable pub is_valid_host_string : OpenEnv → List ℕ → Bool
unfolding all_print is_print
is_valid_host_string env str =
    not (length str == 0 || ltb 15 (length str)) && (all_print str && env.pton_check str)

starts_with : List ℕ → List ℕ → Bool
starts_with [] str = true
starts_with (p ∷ ps) [] = false
starts_with (p ∷ ps) (c ∷ cs) = p == c && starts_with ps cs

-- `std::string::contains`.
unfoldable pub contains : List ℕ → List ℕ → Bool
unfolding starts_with
contains word [] = starts_with word []
contains word (c ∷ cs) = starts_with word (c ∷ cs) || contains word cs

-- Host and port that the name selects; `none` is a null `pName`.
unfoldable pub open_host : Client → OpenEnv → Option (List ℕ) → List ℕ
open_host c env none = codes "127.0.0.1"
open_host c env (some name) = if is_valid_host_string env name then name else c.default_host

unfoldable pub open_port : Client → Option (List ℕ) → ℕ
open_port c none = c.default_port
open_port c (some name) =
    if contains (codes "20000") name
    then 20000
    else if contains (codes "20001") name
    then 20001
    else if contains (codes "20002") name
    then 20002
    else c.default_port

-- An error path: `lastError`, `lastErrorLong`, the report, and no device.
unfoldable pub open_refused : Client → List Put → LastError → ℕ → Client × ℕ × Option ℕ
open_refused c puts e code = (
  report (record c { last_error = e; last_error_long = code }) open_fn
      (puts ++ error_entry open_fn e ∷ []),
  code,
  none,
)

abbrev open_puts : List Put
open_puts = entry func_name (fn_key open_fn) ∷ []

host_puts : List ℕ → List Put
host_puts host = open_puts ++ entry param1 (text host) ∷ []

port_puts : List ℕ → ℕ → List Put
unfolding host_puts
port_puts host port = host_puts host ++ entry param1 (text host) ∷ entry param2 (int port) ∷ []

blank_puts : List Put
blank_puts = entry param1 (text []) ∷ entry param2 (int 0) ∷ []

unfoldable pub close_socket : Client → ℕ → Client
close_socket c fd = record c { sockets = remove fd c.sockets }

-- `static_cast<uint16_t>(port)` wraps; the thread's array starts zeroed.
unfoldable pub new_channel : ℕ → ℕ → ℕ → Channel
new_channel fd addr port = record {
  sockfd = fd;
  target_addr = record { port = port % 2 ^ 16; addr = addr };
  running = true;
  stop_requested = false;
  seq_no = 0;
  msg_queue = [];
  rx_buffer = replicate max_packet_size 0;
}

-- The socket is connected: the empty packet goes out (a failure is only printed), the channel is
-- moved into the map, and its thread starts.
unfoldable pub open_connected : Client → List ℕ → ℕ → ℕ → ℕ → Client × ℕ × Option ℕ
unfolding port_puts
open_connected c host port fd addr = (
  report
      (record c {
        sent = (fd, init_packet c.version) ∷ c.sent;
        channels = assign port (new_channel fd addr port) c.channels;
        last_error_long = status_noerror;
      })
      open_fn (port_puts host port ++ entry retval_long (int status_noerror) ∷ []),
  status_noerror,
  some port,
)

-- From the creation of the socket on.
unfoldable pub open_socket : Client → OpenEnv → List ℕ → ℕ → ℕ → Client × ℕ × Option ℕ
unfolding port_puts host_puts
open_socket c env host port fd =
    let opened = record c { sockets = c.sockets ++ fd ∷ [] } in
    let closed = close_socket opened fd in
    elim (env.pton host) [
      | none ↦ open_refused closed (port_puts host port) (invalid_host host) err_invalid_device_id
      | some addr ↦
          if env.connects
          then open_connected opened host port fd addr
          else open_refused closed (host_puts host) (connect_failed env.wsa_error)
              err_device_not_connected
    ]

-- The tests before the socket is created.
unfoldable pub open_checked : Client → OpenEnv → List ℕ → ℕ → Client × ℕ × Option ℕ
unfolding port_puts host_puts blank_puts
open_checked c env host port =
    if leb virtual_device_count (length c.channels)
    then open_refused c (host_puts host ++ blank_puts) all_opened err_device_in_use
    else if contains_key port c.channels
    then open_refused c (port_puts host port) no_free_ports err_device_in_use
    else elim env.socket [
      | none ↦
          open_refused c (port_puts host port) (socket_failed env.wsa_error)
            err_device_not_connected
      | some fd ↦ open_socket c env host port fd
    ]

-- The flag says that `pDeviceID` is not null. The result is the state, the status that the
-- function returns, and the device that it writes, if any.
unfoldable pub pass_thru_open : Client → OpenEnv → Option (List ℕ) → Bool → Client × ℕ × Option ℕ
unfolding blank_puts
pass_thru_open c env name has_device_id =
    if has_device_id
    then open_checked c env (open_host c env name) (open_port c name)
    else open_refused c (open_puts ++ blank_puts) device_id_null err_null_parameter
