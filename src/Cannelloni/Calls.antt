-- ===== src/Cannelloni/Calls.antt =====
-- The functions of J2534CannelloniClient (j2534_OverIP/j2534cannelloniclient.{h,cpp}) as the methods
-- of the interface of the implementations: with the memory behind their pointers.
use j2534_oip_wrapper.Prelude.{
  ℕ, ◌&&◌, replicate, List, [], ◌∷◌, Bool, none, some, leb, not, codes, if◌then◌else◌,
}
use j2534_oip_wrapper.Cannelloni.Memory.{
  written, overwrite, array_msgs, unread_msg, is_set, c_string, device_bytes,
}
use j2534_oip_wrapper.Prelude.Assoc.{contains_key}
use j2534_oip_wrapper.Message.{PassThruMsg, Result, ok, fault, ◌>>=◌, endless}
use j2534_oip_wrapper.Report
use j2534_oip_wrapper.Report.{Fn}
use j2534_oip_wrapper.Interface.{Args, Answer, deref}
use j2534_oip_wrapper.Cannelloni.Client.{Client, virtual_device_count}
use j2534_oip_wrapper.Cannelloni.Client.Open.{OpenEnv, pass_thru_open}
use j2534_oip_wrapper.Cannelloni.Client.Channels.{pass_thru_connect}
use j2534_oip_wrapper.Cannelloni.Client.ReadMsgs.{pass_thru_read_msgs}
use j2534_oip_wrapper.Cannelloni.Client.WriteMsgs.{pass_thru_write_msgs}
use j2534_oip_wrapper.Cannelloni.Client.Select.{SelectEnv, pass_thru_select}
use j2534_oip_wrapper.Cannelloni.Client.Ioctl.{pass_thru_ioctl, pass_thru_read_version}
use j2534_oip_wrapper.Cannelloni.Client.Errors.{pass_thru_get_last_error}
use j2534_oip_wrapper.Cannelloni.Client.Devices.{
  device_name, get_port_from_index, pass_thru_scan_for_devices, pass_thru_get_next_device,
  pass_thru_get_next_car_daq,
}
use j2534_oip_wrapper.Cannelloni.Client.Unsupported.{UnsupportedCall, unsupported}
use mathlib.Core.Option
use j2534_oip_wrapper.Cannelloni.Client.Threads.{thread_round}

-- What surrounds one call: the datagrams that the receive threads have got since the call before,
-- each with the port of its channel, and what Winsock and the clock answer during the call.
pub record Moment : Type 0 where
  pub received : List (ℕ × List ℕ)
  pub open_env : OpenEnv
  pub elapsed : ℕ → ℕ
  pub sends : ℕ → Bool
  pub wsa_error : ℕ
  pub select_env : SelectEnv
  pub name_alloc : Bool
  pub addr_alloc : Bool

-- The client with what will surround its calls.
pub record Session : Type 0 where
  pub client : Client
  pub moments : ℕ → Moment
  pub calls : ℕ

-- The rounds of the receive threads.
unfoldable pub receive_all : List (ℕ × List ℕ) → Client → Result Client
receive_all [] c = ok c
receive_all ((port, bytes) ∷ more) c = thread_round c port bytes >>= λ c'. receive_all more c'

-- The answer of a call whose writes may fault.
unfoldable pub tell :
    (f : Fn) {A : Type 0} → Result A → (A → Args f) → ℕ → Client → Result (Answer Client f)
tell f told args status c = told >>= λ a. ok (status, args a, c)

module _ (now : Moment) (c : Client) where
  unfoldable pub call_open :
      Args Report.pass_thru_open → Result (Answer Client Report.pass_thru_open)
  unfolding written is_set
  call_open args =
      let done = pass_thru_open c now.open_env args.0 (is_set args.1) in
      tell Report.pass_thru_open (written args.1 done.2) (λ id. (args.0, id)) done.1 done.0

  unfoldable pub call_connect :
      Args Report.pass_thru_connect → Result (Answer Client Report.pass_thru_connect)
  unfolding written
  call_connect args =
      let done = pass_thru_connect c args.0 args.1 args.2 args.3 in
      tell Report.pass_thru_connect (written args.4 done.2)
        (λ id. (args.0, args.1, args.2, args.3, id)) done.1 done.0

  unfoldable pub call_read_msgs :
      Args Report.pass_thru_read_msgs → Result (Answer Client Report.pass_thru_read_msgs)
  unfolding overwrite is_set
  call_read_msgs args = deref args.2 >>= λ num.
      pass_thru_read_msgs c args.0 (is_set args.1) num args.3 now.elapsed >>= λ done.
      tell Report.pass_thru_read_msgs (overwrite done.out args.1)
        (λ buffer. (args.0, buffer, some done.num_msgs, args.3)) done.status done.client

  -- The messages that are sent. An unknown channel is refused before any message is looked at.
  unfoldable pub seen_msgs : Args Report.pass_thru_write_msgs → ℕ → Result (List PassThruMsg)
  unfolding array_msgs
  seen_msgs args num =
      if contains_key args.0 c.channels
      then array_msgs num args.1
      else ok (replicate num unread_msg)

  unfoldable pub write_seen :
      Args Report.pass_thru_write_msgs
      → List PassThruMsg
      → Result (Answer Client Report.pass_thru_write_msgs)
  write_seen args ms = pass_thru_write_msgs c args.0 ms args.3 now.sends now.wsa_error >>= λ done.
      ok (done.status, (args.0, args.1, some done.num_msgs, args.3), done.client)

  unfoldable pub call_write_msgs :
      Args Report.pass_thru_write_msgs → Result (Answer Client Report.pass_thru_write_msgs)
  unfolding seen_msgs write_seen
  call_write_msgs args = deref args.2 >>= λ num. seen_msgs args num >>= λ ms. write_seen args ms

  -- Out of fuel only where a sleep is shorter than its time.
  unfoldable pub call_select :
      Args Report.pass_thru_select → Result (Answer Client Report.pass_thru_select)
  call_select args = elim (pass_thru_select c now.select_env args.0 args.1 args.2) [
    | none ↦ fault endless
    | some done ↦ ok (done.1, args, done.0)
  ]

  unfoldable pub call_ioctl :
      Args Report.pass_thru_ioctl → Result (Answer Client Report.pass_thru_ioctl)
  call_ioctl args = pass_thru_ioctl c args.0 args.1 args.2 >>= λ done.
      ok (done.1, (args.0, args.1, done.2), done.0)

  unfoldable pub call_read_version :
      Args Report.pass_thru_read_version → Result (Answer Client Report.pass_thru_read_version)
  unfolding c_string
  call_read_version args = deref args.1 >>= λ firmware. deref args.2 >>= λ dll.
      deref args.3 >>= λ api.
      let done = pass_thru_read_version c args.0 firmware dll api in
      ok (
        done.1,
        (args.0, some (c_string done.2), some (c_string done.3), some (c_string done.4)),
        done.0,
      )

  unfoldable pub call_get_last_error :
      Args Report.pass_thru_get_last_error → Result (Answer Client Report.pass_thru_get_last_error)
  unfolding written is_set c_string
  call_get_last_error description =
      let done = pass_thru_get_last_error c (is_set description) in
      tell Report.pass_thru_get_last_error (written description (Option.map c_string done.2))
        (λ told. told) done.1 done.0

  unfoldable pub call_scan_for_devices :
      Args Report.pass_thru_scan_for_devices
      → Result (Answer Client Report.pass_thru_scan_for_devices)
  unfolding written
  call_scan_for_devices count =
      let done = pass_thru_scan_for_devices c count in
      tell Report.pass_thru_scan_for_devices (written count done.2) (λ told. told) done.1 done.0

  unfoldable pub call_get_next_device :
      Args Report.pass_thru_get_next_device
      → Result (Answer Client Report.pass_thru_get_next_device)
  unfolding written is_set device_bytes
  call_get_next_device device =
      let done = pass_thru_get_next_device c (is_set device) in
      tell Report.pass_thru_get_next_device (written device (Option.map device_bytes done.2))
        (λ told. told) done.1 done.0

  -- PassThruGetNextCarDAQ gets as far as its allocations.
  allocates : Args Report.pass_thru_get_next_car_daq → Bool
  unfolding is_set
  allocates args =
      is_set args.0 && is_set args.1 && is_set args.2 && not (leb virtual_device_count c.scan_index)

  -- What is behind its pointers then. An allocation that fails leaves null pointers, and a name that
  -- was allocated before is freed.
  car_daq_written :
      Args Report.pass_thru_get_next_car_daq → Bool → Args Report.pass_thru_get_next_car_daq
  car_daq_written args reached =
      if reached
      then if now.name_alloc
        then if now.addr_alloc
          then (
            some (some (device_name (get_port_from_index c.scan_index))),
            some 100,
            some (some (codes "127.0.0.1")),
          )
          else (some none, some 100, some none)
        else (some none, args.1, args.2)
      else args

  unfoldable pub call_get_next_car_daq :
      Args Report.pass_thru_get_next_car_daq
      → Result (Answer Client Report.pass_thru_get_next_car_daq)
  unfolding is_set car_daq_written allocates
  call_get_next_car_daq args =
      let done =
        pass_thru_get_next_car_daq c args.1 (is_set args.0 && is_set args.2) now.name_alloc
          now.addr_alloc in
      ok (done.1, car_daq_written args (allocates args), done.0)

  -- A function that only reports: its pointers are read for the report, and written nowhere.
  unfoldable pub refused : (f : Fn) → Args f → UnsupportedCall → Result (Answer Client f)
  refused f args call = let done = unsupported c call in ok (done.1, args, done.0)
