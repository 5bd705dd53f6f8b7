-- ===== src/Cannelloni/System.antt =====
-- The client as a whole: the calls of its functions and the rounds of its receive threads, in any
-- order (j2534_OverIP/j2534cannelloniclient.cpp). A run of steps is one interleaving of the calls
-- and the threads' rounds.
use j2534_oip_wrapper.Prelude.{
  ℕ, ◌%◌, if◌then◌else◌, true, false, codes, ◌≡◌, refl, subst, arith, List, [], Bool, Option, none,
  some,
}
use j2534_oip_wrapper.Message.{PassThruMsg, ok, WhenOk, status_noerror, err_device_not_connected}
use j2534_oip_wrapper.Cannelloni.Client.{Client, report, no_error, wsa_startup_failed}
use j2534_oip_wrapper.Cannelloni.Client.Valid.{IsValid, PartsAreValid}
use j2534_oip_wrapper.Cannelloni.Client.Open.{OpenEnv, pass_thru_open}
use j2534_oip_wrapper.Cannelloni.Client.Channels.{
  pass_thru_close, pass_thru_connect, pass_thru_disconnect,
}
use j2534_oip_wrapper.Cannelloni.Client.ReadMsgs.{ReadDone, pass_thru_read_msgs}
use j2534_oip_wrapper.Cannelloni.Client.WriteMsgs.{WriteDone, pass_thru_write_msgs}
use j2534_oip_wrapper.Cannelloni.Client.Devices.{
  pass_thru_scan_for_devices, pass_thru_get_next_device, pass_thru_get_next_car_daq,
}
use j2534_oip_wrapper.Cannelloni.Client.Select.{ChannelSet, SelectEnv, pass_thru_select}
use j2534_oip_wrapper.Cannelloni.Client.Ioctl.{IoctlMemory, pass_thru_ioctl, pass_thru_read_version}
use j2534_oip_wrapper.Cannelloni.Client.Unsupported.{UnsupportedCall, unsupported}
use j2534_oip_wrapper.Cannelloni.Client.Errors.{pass_thru_get_last_error}
use j2534_oip_wrapper.Cannelloni.Client.Threads.{Datagram, thread_round, thread_round-IsValid}
use j2534_oip_wrapper.Cannelloni.Client.Invariant.{
  FreshSocket, pass_thru_open-IsValid, pass_thru_close-IsValid, pass_thru_connect-IsValid,
  pass_thru_disconnect-IsValid,
}
use j2534_oip_wrapper.Cannelloni.Client.Invariant.Messages.{
  pass_thru_read_msgs-IsValid, pass_thru_write_msgs-IsValid,
}
use j2534_oip_wrapper.Cannelloni.Client.Invariant.Queries.{
  pass_thru_scan_for_devices-IsValid, pass_thru_get_next_device-IsValid,
  pass_thru_get_next_car_daq-IsValid,
}
use j2534_oip_wrapper.Cannelloni.Client.Invariant.Reports.{
  pass_thru_select-IsValid, pass_thru_ioctl-IsValid,
}

-- One call that returns, or one round of a thread that does.
pub data Step (c : Client) : Client → Type 0 where
  open_step :
      (env : OpenEnv) (name : Option (List ℕ)) (has_device_id : Bool)
      → FreshSocket c env
      → Step c (pass_thru_open c env name has_device_id).0
  close_step : (device_id : ℕ) → Step c (pass_thru_close c device_id).0
  connect_step :
      (device_id protocol_id flags baudrate : ℕ)
      → Step c (pass_thru_connect c device_id protocol_id flags baudrate).0
  disconnect_step : (channel_id : ℕ) → Step c (pass_thru_disconnect c channel_id).0
  read_step :
      (channel_id : ℕ) (has_buffer : Bool) (num timeout : ℕ) (elapsed : ℕ → ℕ) (d : ReadDone)
      → pass_thru_read_msgs c channel_id has_buffer num timeout elapsed ≡ ok d
      → Step c d.client
  write_step :
      (channel_id : ℕ) (ms : List PassThruMsg) (timeout : ℕ) (sends : ℕ → Bool) (wsa_error : ℕ)
      (d : WriteDone)
      → pass_thru_write_msgs c channel_id ms timeout sends wsa_error ≡ ok d
      → Step c d.client
  scan_step : (count : Option ℕ) → Step c (pass_thru_scan_for_devices c count).0
  next_device_step : (has_device : Bool) → Step c (pass_thru_get_next_device c has_device).0
  next_car_daq_step :
      (version : Option ℕ) (pointers name_alloc addr_alloc : Bool)
      → Step c (pass_thru_get_next_car_daq c version pointers name_alloc addr_alloc).0
  select_step :
      (env : SelectEnv) (set : Option ChannelSet) (select_type timeout : ℕ) (c' : Client)
      (status : ℕ)
      → pass_thru_select c env set select_type timeout ≡ some (c', status)
      → Step c c'
  ioctl_step :
      (channel_id ioctl_id : ℕ) (mem mem' : IoctlMemory) (c' : Client) (status : ℕ)
      → pass_thru_ioctl c channel_id ioctl_id mem ≡ ok (c', status, mem')
      → Step c c'
  read_version_step :
      (device_id : ℕ) (firmware dll api : List ℕ)
      → Step c (pass_thru_read_version c device_id firmware dll api).0
  last_error_step : (has_buffer : Bool) → Step c (pass_thru_get_last_error c has_buffer).0
  unsupported_step : (call : UnsupportedCall) → Step c (unsupported c call).0
  thread_step :
      (port : ℕ) (received : List ℕ) (c' : Client)
      → Datagram received
      → thread_round c port received ≡ ok c'
      → Step c c'

-- What getDefaults reads from the registry key of the installation; a value that is missing is
-- `none`.
pub record Registry : Type 0 where
  pub host : Option (List ℕ)
  pub port : Option ℕ
  pub version : Option ℕ

get_or_default : {A : Type 0} → A → Option A → A
get_or_default d none = d
get_or_default d (some a) = a

-- The constructor with getDefaults: the registry key, and whether WSAStartup succeeds. With no
-- key the port keeps the `indeterminate` value that the object's memory holds. The version is cut to
-- a byte. The constructor's own message to the pipe is left out.
unfoldable pub initial : Option Registry → ℕ → Bool → Client
unfolding get_or_default
initial key indeterminate winsock_starts =
    let base : Client = record {
      version = 1;
      default_host = [];
      default_port = indeterminate;
      channels = [];
      scan_index = 0;
      last_error = if winsock_starts then no_error else wsa_startup_failed;
      last_error_long = if winsock_starts then status_noerror else err_device_not_connected;
      reports = [];
      sent = [];
      sockets = [];
    } in
    elim key [
      | none ↦ base
      | some values ↦ record base {
        version = get_or_default 1 values.version % 256;
        default_host = get_or_default (codes "127.0.0.1") values.host;
        default_port = get_or_default 20000 values.port;
      }
    ]

-- The states that runs from a client reach.
pub data Reach (c : Client) : Client → Type 0 where
  start : Reach c c
  after : (c' c'' : Client) → Reach c c' → Step c' c'' → Reach c c''

nothing_open : PartsAreValid [] [] 0
nothing_open = record {
  capacity = omega arith;
  distinct_ports = tt;
  channels_valid = tt;
  no_leak = refl;
  distinct_sockets = tt;
  index_bound = omega arith;
}

pub initial-IsValid :
    (key : Option Registry) (indeterminate : ℕ) (winsock_starts : Bool)
    → IsValid (initial key indeterminate winsock_starts)
unfolding initial
initial-IsValid none indeterminate winsock_starts = nothing_open
initial-IsValid (some values) indeterminate winsock_starts = nothing_open

-- A step keeps the invariant.
pub Step-IsValid : (c c' : Client) → Step c c' → IsValid c → IsValid c'
Step-IsValid c _ (open_step env name has_device_id fresh) v =
    pass_thru_open-IsValid c env name has_device_id v fresh
Step-IsValid c _ (close_step device_id) v = pass_thru_close-IsValid c device_id v
Step-IsValid c _ (connect_step device_id protocol_id flags baudrate) v =
    pass_thru_connect-IsValid c device_id protocol_id flags baudrate v
Step-IsValid c _ (disconnect_step channel_id) v = pass_thru_disconnect-IsValid c channel_id v
Step-IsValid c _ (read_step channel_id has_buffer num timeout elapsed d e) v =
    subst (WhenOk (λ (t : ReadDone). IsValid t.client)) e
      (pass_thru_read_msgs-IsValid c channel_id has_buffer num timeout elapsed v)
Step-IsValid c _ (write_step channel_id ms timeout sends wsa_error d e) v =
    subst (WhenOk (λ (t : WriteDone). IsValid t.client)) e
      (pass_thru_write_msgs-IsValid c channel_id ms timeout sends wsa_error v)
Step-IsValid c _ (scan_step count) v = pass_thru_scan_for_devices-IsValid c count v
Step-IsValid c _ (next_device_step has_device) v = pass_thru_get_next_device-IsValid c has_device v
Step-IsValid c _ (next_car_daq_step version pointers name_alloc addr_alloc) v =
    pass_thru_get_next_car_daq-IsValid c version pointers name_alloc addr_alloc v
Step-IsValid c c' (select_step env set select_type timeout _ status e) v =
    pass_thru_select-IsValid c c' env set select_type timeout status e v
Step-IsValid c _ (ioctl_step channel_id ioctl_id mem mem' c' status e) v =
    subst (WhenOk (λ (r : Client × ℕ × IoctlMemory). IsValid r.0)) e
      (pass_thru_ioctl-IsValid c channel_id ioctl_id mem v)
Step-IsValid c _ (read_version_step device_id firmware dll api) v =
    unfold pass_thru_read_version report in v
Step-IsValid c _ (last_error_step true) v = unfold pass_thru_get_last_error report in v
Step-IsValid c _ (last_error_step false) v = unfold pass_thru_get_last_error report in v
Step-IsValid c _ (unsupported_step call) v = unfold unsupported report in v
Step-IsValid c _ (thread_step port received c' d e) v =
    subst (WhenOk IsValid) e (thread_round-IsValid c port received v d)

-- Every state that is reached from the constructor by calls that return and by rounds of the
-- receive threads that do, in any order, has at most three channels on distinct ports, each with a
-- byte for its sequence number and a buffer of 1500 bytes, and its open sockets are exactly those
-- of its channels, each once: no call leaks a socket.
pub Reach-IsValid :
    (key : Option Registry) (indeterminate : ℕ) (winsock_starts : Bool) (c : Client)
    → Reach (initial key indeterminate winsock_starts) c
    → IsValid c
Reach-IsValid key indeterminate winsock_starts _ start =
    initial-IsValid key indeterminate winsock_starts
Reach-IsValid key indeterminate winsock_starts _ (after c' c'' r s) =
    Step-IsValid c' c'' s (Reach-IsValid key indeterminate winsock_starts c' r)
