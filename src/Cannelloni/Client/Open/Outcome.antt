-- ===== src/Cannelloni/Client/Open/Outcome.antt =====
-- What PassThruOpen of j2534_OverIP/j2534cannelloniclient.cpp leaves behind.
use j2534_oip_wrapper.Prelude.{
  ℕ, ◌≡◌, ◌≢◌, ◌<◌, refl, arith, List, [], ◌∷◌, ◌++◌, Bool, true, false, Bool-cases, Option, none,
  some, Option-cases, ◌⊎◌, inl, inr, length, leb, lt→leb, le→leb, ◌≤◌,
}
use j2534_oip_wrapper.Prelude.Assoc.{Fresh, assign_absent, contains_key}
use j2534_oip_wrapper.Message.{
  status_noerror, err_null_parameter, err_device_in_use, err_device_not_connected,
  err_invalid_device_id,
}
use j2534_oip_wrapper.Cannelloni.Packet.{init_packet}
use j2534_oip_wrapper.Report.{Put, pass_thru_open as open_fn, reads_freed, is_freed}
use j2534_oip_wrapper.Cannelloni.Client.Freed.{reads_freed-failure}
use j2534_oip_wrapper.Cannelloni.Client.{
  Client, LastError, report, virtual_device_count, error_entry, error_text, read_freed,
}
use j2534_oip_wrapper.Cannelloni.Client.Invariant.{FreshSocket, remove_last}
use j2534_oip_wrapper.Cannelloni.Client.Open.{
  OpenEnv, open_host, open_port, open_refused, close_socket, new_channel, open_connected,
  open_socket, open_checked, pass_thru_open,
}

-- The calls of Winsock that an open needs succeed: `fd` is the new socket, `addr` the peer.
pub record Connects (c : Client) (env : OpenEnv) (name : Option (List ℕ)) (fd addr : ℕ)
    : Type 0 where
  pub made : env.socket ≡ some fd
  pub resolved : env.pton (open_host c env name) ≡ some addr
  pub connected : env.connects ≡ true

pub opens :
    (c : Client) (env : OpenEnv) (name : Option (List ℕ)) (fd addr : ℕ)
    → length c.channels < virtual_device_count
    → contains_key (open_port c name) c.channels ≡ false
    → Connects c env name fd addr
    → pass_thru_open c env name true
      ≡ open_connected
          (record c { sockets = c.sockets ++ fd ∷ [] })
          (open_host c env name)
          (open_port c name)
          fd
          addr
unfolding pass_thru_open open_checked open_socket
opens c env name fd addr room free w =
    simp (lt→leb _ _ room, free, w.made, open_socket, w.resolved, w.connected)

-- Where there is room, the port is free and the calls of Winsock succeed, PassThruOpen returns
-- STATUS_NOERROR and the port as the device, appends a new channel for the port to the map and its
-- socket to the open ones, and sends the empty packet, once, on that socket.
pub open_succeeds :
    (c : Client) (env : OpenEnv) (name : Option (List ℕ)) (fd addr : ℕ)
    → length c.channels < virtual_device_count
    → contains_key (open_port c name) c.channels ≡ false
    → Connects c env name fd addr
    → let (c', status, device) = pass_thru_open c env name true in
      (status ≡ status_noerror)
      × (device ≡ some (open_port c name))
      × (c'.channels
          ≡ c.channels ++ (open_port c name, new_channel fd addr (open_port c name)) ∷ [])
      × (c'.sockets ≡ c.sockets ++ fd ∷ [])
      × (c'.sent ≡ (fd, init_packet c.version) ∷ c.sent)
unfolding open_connected report
open_succeeds c env name fd addr room free w =
    rw (opens c env name fd addr room free w)
      (refl, refl, assign_absent _ _ c.channels free, refl, refl)

-- A refused open. Its report is made of a freed text.
pub record Refused (c : Client) (r : Client × ℕ × Option ℕ) : Type 0 where
  pub no_device : r.2 ≡ none
  pub same_channels : r.0.channels ≡ c.channels
  pub same_sockets : r.0.sockets ≡ c.sockets
  pub same_sent : r.0.sent ≡ c.sent
  pub recorded : r.0.last_error_long ≡ r.1
  pub is_error : r.1 ≢ status_noerror
  pub undefined : read_freed r.0 ≡ true

-- The two outcomes of an open of a port.
abbrev pub Outcome : Client → ℕ → Client × ℕ × Option ℕ → Type 0
Outcome c port r =
    ((r.1 ≡ status_noerror) × (r.2 ≡ some port) × (read_freed r.0 ≡ false)) ⊎ Refused c r

-- An error path on a state with the same channels, sockets and datagrams.
refused :
    (c c' : Client) (puts : List Put) (e : LastError) (code : ℕ)
    → code ≢ status_noerror
    → c'.channels ≡ c.channels
    → c'.sockets ≡ c.sockets
    → c'.sent ≡ c.sent
    → Refused c (open_refused c' puts e code)
unfolding open_refused report read_freed error_entry
refused c c' puts e code n e1 e2 e3 = record {
  no_device = refl;
  same_channels = e1;
  same_sockets = e2;
  same_sent = e3;
  recorded = refl;
  is_error = n;
  undefined = reads_freed-failure puts open_fn (error_text e);
}

open_socket-Outcome :
    (c : Client) (env : OpenEnv) (host : List ℕ) (port fd : ℕ)
    → Fresh fd c.sockets
    → Outcome c port (open_socket c env host port fd)
unfolding open_socket open_connected close_socket read_freed reads_freed is_freed report
open_socket-Outcome c env host port fd fresh = elim (Option-cases (env.pton host)) [
  | inl bad ↦
      simp (bad, open_socket)
        (inr (
          refused c _ _ _ err_invalid_device_id (omega arith) refl (remove_last fd c.sockets fresh)
            refl))
  | inr (addr, good) ↦ elim (Bool-cases env.connects) [
    | inl yes_ ↦ simp (good, yes_, open_socket) (inl (refl, refl, refl))
    | inr not_ ↦
        simp (good, not_, open_socket)
          (inr (
            refused c _ _ _ err_device_not_connected (omega arith) refl
              (remove_last fd c.sockets fresh) refl))
  ]
]

-- PassThruOpen either returns STATUS_NOERROR with the port as the device, and its report has no freed
-- text; or it goes wrong, and then makes its report of a text that has been freed. If that read does
-- no harm it returns an error, which it also records, writes no device, leaves the channels as they
-- were, has sent nothing, and has closed the socket that it created. A socket that Winsock creates is
-- not one that is open.
pub open-Outcome :
    (c : Client) (env : OpenEnv) (name : Option (List ℕ)) (has_device_id : Bool)
    → FreshSocket c env
    → Outcome c (open_port c name) (pass_thru_open c env name has_device_id)
unfolding pass_thru_open open_checked
open-Outcome c env name false fresh =
    inr (refused c c _ _ err_null_parameter (omega arith) refl refl refl)
open-Outcome c env name true fresh =
    elim (Bool-cases (leb virtual_device_count (length c.channels))) [
      | inl full ↦ simp full (inr (refused c c _ _ err_device_in_use (omega arith) refl refl refl))
      | inr room ↦ elim (Bool-cases (contains_key (open_port c name) c.channels)) [
        | inl taken ↦
            simp (room, taken)
              (inr (refused c c _ _ err_device_in_use (omega arith) refl refl refl))
        | inr free ↦ elim (Option-cases env.socket) [
          | inl failed ↦
              simp (room, free, failed)
                (inr (refused c c _ _ err_device_not_connected (omega arith) refl refl refl))
          | inr (fd, made) ↦
              simp (room, free, made)
                (open_socket-Outcome c env (open_host c env name) (open_port c name) fd
                  (fresh fd made))
        ]
      ]
    ]

-- With three channels open, or with a channel on the port, an open with a `pDeviceID` that is not
-- null returns ERR_DEVICE_IN_USE, whatever Winsock would say.
pub open_in_use :
    (c : Client) (env : OpenEnv) (name : Option (List ℕ))
    → (virtual_device_count ≤ length c.channels)
      ⊎ (contains_key (open_port c name) c.channels ≡ true)
    → (pass_thru_open c env name true).1 ≡ err_device_in_use
unfolding pass_thru_open open_checked open_refused
open_in_use c env name (inl full) = rw (le→leb _ _ full, pass_thru_open) refl
open_in_use c env name (inr taken) =
    elim (Bool-cases (leb virtual_device_count (length c.channels))) [
      | inl full ↦ rw (full, pass_thru_open) refl
      | inr room ↦ rw (room, taken, pass_thru_open) refl
    ]
