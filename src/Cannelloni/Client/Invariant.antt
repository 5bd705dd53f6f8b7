-- ===== src/Cannelloni/Client/Invariant.antt =====
-- The functions of J2534CannelloniClient keep its representation invariant.
pub mod Messages
pub mod Queries
pub mod Reports
use j2534_oip_wrapper.Prelude.{
  ℕ, suc, ◌+◌, ◌%◌, ◌^◌, ◌≤◌, ◌<◌, ◌≡◌, ◌≢◌, refl, sym, ap, ◌∙◌, arith, List, [], ◌∷◌, ◌++◌, Option,
  none, some, Option-cases, inl, inr, false, true, Bool, Bool-cases, leb→lt, ◌==◌, leb, ltb,
  if◌then◌else◌, ==_self, length, length-replicate, replicate, All, All-replicate,
}
use j2534_oip_wrapper.Prelude.Bytes.{IsByte}
use j2534_oip_wrapper.Prelude.Assoc.{Fresh, remove, remove-Fresh, find, contains_key}
use j2534_oip_wrapper.Message.{PassThruMsg, Result, ok, fault, ◌>>=◌}
use j2534_oip_wrapper.Cannelloni.Receive.{Channel, max_packet_size}
use j2534_oip_wrapper.Cannelloni.Client.{Client, LastError, report, virtual_device_count}
use j2534_oip_wrapper.Cannelloni.Client.Valid.{
  ChannelIsValid, IsValid, PartsAreValid, PartsAreValid-insert, PartsAreValid-erase,
  PartsAreValid-update, PartsAreValid-find,
}
use j2534_oip_wrapper.Cannelloni.Client.Open.{
  OpenEnv, open_host, open_port, open_refused, close_socket, new_channel, open_connected,
  open_socket, open_checked, pass_thru_open,
}
use j2534_oip_wrapper.Cannelloni.Client.Channels.{
  pass_thru_close, pass_thru_connect, pass_thru_disconnect,
}

-- The operating system hands out sockets that are not open.
abbrev pub FreshSocket : Client → OpenEnv → Type 0
FreshSocket c env = (fd : ℕ) → env.socket ≡ some fd → Fresh fd c.sockets

pub remove_last : (x : ℕ) (xs : List ℕ) → Fresh x xs → remove x (xs ++ x ∷ []) ≡ xs
unfolding remove
remove_last x [] h = rw (==_self x)
remove_last x (y ∷ ys) h = ground (arith, remove_last x ys h.1)

new_channel-IsValid : (fd addr port : ℕ) → ChannelIsValid port (new_channel fd addr port)
unfolding new_channel
new_channel-IsValid fd addr port = record {
  target = refl;
  seq = omega arith;
  buffer_size = length-replicate max_packet_size 0;
  buffer_bytes = All-replicate IsByte max_packet_size 0 (omega arith);
}

open_socket-IsValid :
    (c : Client) (env : OpenEnv) (host : List ℕ) (port fd : ℕ)
    → IsValid c
    → length c.channels < virtual_device_count
    → contains_key port c.channels ≡ false
    → Fresh fd c.sockets
    → IsValid (open_socket c env host port fd).0
unfolding open_socket open_refused open_connected close_socket report new_channel
open_socket-IsValid c env host port fd v room absent fresh = elim (Option-cases (env.pton host)) [
  | inl bad ↦ rw (bad, open_socket, remove_last fd c.sockets fresh) v
  | inr (addr, good) ↦ elim (Bool-cases env.connects) [
    | inl yes_ ↦
        rw (good, yes_, open_socket)
          (PartsAreValid-insert port (new_channel fd addr port) v room absent fresh
            (new_channel-IsValid fd addr port))
    | inr not_ ↦ rw (good, not_, open_socket, remove_last fd c.sockets fresh) v
  ]
]

open_checked-IsValid :
    (c : Client) (env : OpenEnv) (host : List ℕ) (port : ℕ)
    → IsValid c
    → FreshSocket c env
    → IsValid (open_checked c env host port).0
unfolding open_checked open_refused report
open_checked-IsValid c env host port v fresh =
    elim (Bool-cases (leb virtual_device_count (length c.channels))) [
      | inl full ↦ rw (full, open_checked) v
      | inr room ↦ elim (Bool-cases (contains_key port c.channels)) [
        | inl taken ↦ rw (room, taken, open_checked) v
        | inr free ↦ elim (Option-cases env.socket) [
          | inl failed ↦ rw (room, free, failed, open_checked) v
          | inr (fd, made) ↦
              rw (room, free, made, open_checked)
                (open_socket-IsValid c env host port fd v (leb→lt _ _ room) free (fresh fd made))
        ]
      ]
    ]

pub pass_thru_open-IsValid :
    (c : Client) (env : OpenEnv) (name : Option (List ℕ)) (has_device_id : Bool)
    → IsValid c
    → FreshSocket c env
    → IsValid (pass_thru_open c env name has_device_id).0
unfolding pass_thru_open open_refused report
pass_thru_open-IsValid c env name true v fresh =
    open_checked-IsValid c env (open_host c env name) (open_port c name) v fresh
pass_thru_open-IsValid c env name false v fresh = v

pub pass_thru_close-IsValid :
    (c : Client) (device_id : ℕ) → IsValid c → IsValid (pass_thru_close c device_id).0
unfolding pass_thru_close close_socket report
pass_thru_close-IsValid c device_id v = elim (Option-cases (find device_id c.channels)) [
  | inl absent ↦ rw (absent, pass_thru_close) v
  | inr (ctx, found) ↦ rw (found, pass_thru_close) (PartsAreValid-erase device_id ctx v found)
]

pub pass_thru_connect-IsValid :
    (c : Client) (device_id protocol_id flags baudrate : ℕ)
    → IsValid c
    → IsValid (pass_thru_connect c device_id protocol_id flags baudrate).0
unfolding pass_thru_connect report
pass_thru_connect-IsValid c device_id protocol_id flags baudrate v =
    elim (Option-cases (find device_id c.channels)) [
      | inl absent ↦ rw (absent, pass_thru_connect) v
      | inr (ctx, found) ↦ rw (found, pass_thru_connect) v
    ]

pub pass_thru_disconnect-IsValid :
    (c : Client) (channel_id : ℕ) → IsValid c → IsValid (pass_thru_disconnect c channel_id).0
unfolding pass_thru_disconnect report
pass_thru_disconnect-IsValid c channel_id v = v
