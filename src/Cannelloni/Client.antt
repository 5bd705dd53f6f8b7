-- ===== src/Cannelloni/Client.antt =====
-- The state of J2534CannelloniClient (j2534_OverIP/j2534cannelloniclient.{h,cpp}) and what its
-- functions share. A function takes the state and returns it anew beside its results.
pub mod Valid
pub mod Invariant
pub mod Open
pub mod Channels
pub mod ReadMsgs
pub mod WriteMsgs
pub mod Devices
pub mod Select
pub mod Ioctl
pub mod Unsupported
pub mod Errors
pub mod Threads
pub mod Lifecycle
pub mod Freed
use j2534_oip_wrapper.Prelude.{
  Bool, false, true, ℕ, zero, suc, ◌+◌, ◌/◌, ◌%◌, List, [], ◌∷◌, ◌++◌, codes, ltb, if◌then◌else◌,
}
use j2534_oip_wrapper.Report.{Fn, Put, Report, error, failure, entry, reads_freed}
use j2534_oip_wrapper.Cannelloni.Receive.{Channel}

-- The texts that `lastError` takes, with what is appended to them.
pub data LastError : Type 0 where
  no_error wsa_startup_failed device_id_null all_opened no_free_ports : LastError
  device_id_not_found invalid_device_id invalid_channel_id invalid_can_msg : LastError
  error_description_null null_parameters name_alloc_failed addr_alloc_failed : LastError
  device_count_null ps_device_null channel_set_null channel_set_empty : LastError
  socket_failed connect_failed send_failed : ℕ → LastError
  invalid_host : List ℕ → LastError

-- `std::to_string` of a word: at most ten digits.
unfoldable pub decimal : ℕ → ℕ → List ℕ
decimal zero n = []
decimal (suc digits) n =
    let front = decimal digits (n / 10) in
    if ltb n 10 then (48 + n) ∷ [] else front ++ (48 + n % 10) ∷ []

unfoldable pub to_string : ℕ → List ℕ
unfolding decimal
to_string n = decimal 10 n

unfoldable pub error_text : LastError → List ℕ
error_text no_error = codes "No error"
error_text wsa_startup_failed = codes "WSAStartup failed"
error_text device_id_null = codes "pDeviceID is null"
error_text all_opened = codes "All virtual devices are already opened"
error_text no_free_ports = codes "No free ports"
error_text device_id_not_found = codes "DeviceID not found"
error_text invalid_device_id = codes "Invalid DeviceID"
error_text invalid_channel_id = codes "Invalid ChannelID"
error_text invalid_can_msg = codes "Invalid CAN msg format"
error_text error_description_null = codes "pErrorDescription is null"
error_text null_parameters = codes "Null parameter(s)"
error_text name_alloc_failed = codes "LocalAlloc failed for name"
error_text addr_alloc_failed = codes "LocalAlloc failed for addr"
error_text device_count_null = codes "pDeviceCount is null"
error_text ps_device_null = codes "psDevice is null"
error_text channel_set_null = codes "ChannelSetPtr is null"
error_text channel_set_empty = codes "Invalid ChannelSet (empty list)"
error_text (socket_failed code) = codes "Socket creation failed: " ++ to_string code
error_text (connect_failed code) = codes "Connect failed: " ++ to_string code
error_text (send_failed code) = codes "Send failed: " ++ to_string code
error_text (invalid_host host) = codes "Invalid host IP: " ++ host

-- `reports` are the messages to the pipe, newest first; `sent` the datagrams handed to a socket,
-- newest first; `sockets` those that are open, oldest first.
pub record Client : Type 0 where
  pub version : ℕ
  pub default_host : List ℕ
  pub default_port : ℕ
  pub channels : List (ℕ × Channel)
  pub scan_index : ℕ
  pub last_error : LastError
  pub last_error_long : ℕ
  pub reports : List Report
  pub sent : List (ℕ × List ℕ)
  pub sockets : List ℕ

abbrev pub base_port : ℕ
base_port = 20000

abbrev pub virtual_device_count : ℕ
virtual_device_count = 3

-- `_p_pipe->send` of a map with these entries.
unfoldable pub report : Client → Fn → List Put → Client
report c label puts = record c { reports = record { label = label; puts = puts } ∷ c.reports }

-- The entry under KEY_Error: "Function … -> " and `lastError`. It is the text of a
-- std::string that is gone when the report is made.
unfoldable pub error_entry : Fn → LastError → Put
error_entry fn e = entry error (failure fn (error_text e))

-- The last report of the client was made of a text that had been freed: from there on its behaviour is
-- undefined. What the functions are modelled to do behind such a report is what they do if the read
-- does no harm.
unfoldable pub read_freed : Client → Bool
read_freed c = elim c.reports [ [] ↦ false | r ∷ rs ↦ reads_freed r.puts ]
