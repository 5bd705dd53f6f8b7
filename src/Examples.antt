-- ===== src/Examples.antt =====
-- Concrete messages, channels, clients and environments for the tests and examples.
pub mod Devices
pub mod Transfer
pub mod Reception
pub mod Pipes
pub mod Implementations
pub mod Exported
pub mod Application
pub mod Servers
use j2534_oip_wrapper.Prelude.{
  ℕ, ◌≡◌, refl, arith, List, [], ◌∷◌, ◌++◌, true, false, none, some, codes, length,
  length-replicate, replicate, All-replicate, All,
}
use j2534_oip_wrapper.Prelude.Bytes.{IsByte}
use j2534_oip_wrapper.Message.{PassThruMsg}
use j2534_oip_wrapper.Cannelloni.Receive.{Channel}
use j2534_oip_wrapper.Cannelloni.Client.{Client, no_error}
use j2534_oip_wrapper.Cannelloni.Client.Open.{OpenEnv}
use j2534_oip_wrapper.Cannelloni.Receive.Loopback.{Sendable}

-- An OBD request with identifier 0x7e0 and 8 bytes of data.
abbrev pub request : PassThruMsg
request = record {
  protocol_id = 5;
  rx_status = 0;
  tx_flags = 0;
  timestamp = 0;
  data_size = 12;
  extra_data_index = 0;
  bytes = 0 ∷ 0 ∷ 7 ∷ 0xe0 ∷ 2 ∷ 1 ∷ 12 ∷ 0 ∷ 0 ∷ 0 ∷ 0 ∷ 0 ∷ replicate 4116 0;
}

-- The same with 3 bytes of data, and with a size that is none of a CAN message.
abbrev pub short_request : PassThruMsg
short_request = record request { data_size = 7 }

abbrev pub wide_request : PassThruMsg
wide_request = record request { data_size = 13 }

pub request-Sendable : Sendable request
request-Sendable = record {
  whole_array = omega (arith, length-replicate {A = ℕ} 4116 0);
  all_bytes = (
    omega arith,
    (
      omega arith,
      (
        omega arith,
        (
          omega arith,
          (
            omega arith,
            (
              omega arith,
              (
                omega arith,
                (
                  omega arith,
                  (
                    omega arith,
                    (
                      omega arith,
                      (omega arith, (omega arith, All-replicate IsByte 4116 0 (omega arith))),
                    ),
                  ),
                ),
              ),
            ),
          ),
        ),
      ),
    ),
  );
}

pub short_request-Sendable : Sendable short_request
short_request-Sendable = record {
  whole_array = request-Sendable.whole_array;
  all_bytes = request-Sendable.all_bytes;
}

-- The channel of port 20001 on socket 5, before its number wraps, with two messages queued.
abbrev pub channel : Channel
channel = record {
  sockfd = 5;
  target_addr = record { port = 20001; addr = 2130706433 };
  running = true;
  stop_requested = false;
  seq_no = 255;
  msg_queue = request ∷ short_request ∷ [];
  rx_buffer = replicate 1500 0;
}

abbrev pub empty_client : Client
empty_client = record {
  version = 1;
  default_host = codes "127.0.0.1";
  default_port = 20000;
  channels = [];
  scan_index = 0;
  last_error = no_error;
  last_error_long = 0;
  reports = [];
  sent = [];
  sockets = [];
}

abbrev pub busy_client : Client
busy_client = record empty_client { channels = (20001, channel) ∷ []; sockets = 5 ∷ [] }

-- Winsock that opens socket 7 and connects.
abbrev pub working : OpenEnv
working = record {
  socket = some 7;
  pton_check = λ host. true;
  pton = λ host. some 2130706433;
  connects = true;
  wsa_error = 0;
}
