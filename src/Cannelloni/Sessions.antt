-- ===== src/Cannelloni/Sessions.antt =====
-- Calls of J2534CannelloniClient through the interface of the implementations
-- (j2534_OverIP/j2534cannelloniclient.cpp).
use j2534_oip_wrapper.Prelude.{
  ℕ, List, [], ◌∷◌, All, Option, none, some, Option-cases, inl, inr, ◌&&◌,
}
use j2534_oip_wrapper.Message.{PassThruMsg, Result, ok, fault, ◌>>=◌, WhenOk, WhenOk-bind}
use j2534_oip_wrapper.Report
use j2534_oip_wrapper.Report.{Fn}
use j2534_oip_wrapper.Interface.{Args, Answer, deref}
use j2534_oip_wrapper.Cannelloni.Client.{Client}
use j2534_oip_wrapper.Cannelloni.Client.Valid.{IsValid}
use j2534_oip_wrapper.Cannelloni.Client.Invariant.{FreshSocket}
use j2534_oip_wrapper.Cannelloni.Client.ReadMsgs.{ReadDone, pass_thru_read_msgs}
use j2534_oip_wrapper.Cannelloni.Client.WriteMsgs.{WriteDone, pass_thru_write_msgs}
use j2534_oip_wrapper.Cannelloni.Client.Select.{pass_thru_select}
use j2534_oip_wrapper.Cannelloni.Client.Ioctl.{IoctlMemory, pass_thru_ioctl}
use j2534_oip_wrapper.Cannelloni.Client.Unsupported.{UnsupportedCall}
use j2534_oip_wrapper.Cannelloni.Client.Invariant.Reports.{pass_thru_ioctl-IsValid}
use j2534_oip_wrapper.Cannelloni.Methods.{call_client, unsupported_call, refused_call}
use j2534_oip_wrapper.Cannelloni.Client.Threads.{Datagram, thread_round, thread_round-IsValid}
use j2534_oip_wrapper.Cannelloni.System.{Step, Step-IsValid}
use j2534_oip_wrapper.Cannelloni.System
use j2534_oip_wrapper.Cannelloni.Calls
use j2534_oip_wrapper.Cannelloni.Calls.{Moment, Session, receive_all, refused, tell}
use j2534_oip_wrapper.Cannelloni.Memory.{is_set, overwrite}
use j2534_oip_wrapper.Cannelloni.Client.Invariant.Messages.{
  pass_thru_read_msgs-IsValid, pass_thru_write_msgs-IsValid,
}

pub receive_all-IsValid :
    (received : List (ℕ × List ℕ)) (c : Client)
    → IsValid c
    → All (λ (r : ℕ × List ℕ). Datagram r.1) received
    → WhenOk IsValid (receive_all received c)
unfolding receive_all
receive_all-IsValid [] c v h = v
receive_all-IsValid ((port, bytes) ∷ more) c v (d, ds) =
    WhenOk-bind IsValid IsValid (thread_round c port bytes) (receive_all more)
      (thread_round-IsValid c port bytes v d) λ c' v'. receive_all-IsValid more c' v' ds

pub anything : {A : Type 0} (r : Result A) → WhenOk {0, 0} (λ (a : A). Unit) r
anything (ok a) = tt
anything (fault e) = tt

-- The state of the client in an answer is valid.
abbrev pub Keeps : (f : Fn) → Result (Answer Client f) → Type 0
Keeps f r = WhenOk (λ (a : Answer Client f). IsValid a.2) r

tell-Keeps :
    (f : Fn) {A : Type 0} (told : Result A) (args : A → Args f) (status : ℕ) (c : Client)
    → IsValid c
    → Keeps f (tell f told args status c)
unfolding tell
tell-Keeps f (ok a) args status c v = v
tell-Keeps f (fault e) args status c v = tt

module _ (now : Moment) (c : Client) (v : IsValid c) where
  kept : (c' : Client) → Step c c' → IsValid c'
  kept c' s = Step-IsValid c c' s v

  call_open-Keeps :
      FreshSocket c now.open_env
      → (args : Args Report.pass_thru_open)
      → Keeps Report.pass_thru_open (Calls.call_open now c args)
  unfolding Calls.call_open
  call_open-Keeps fresh args =
      tell-Keeps Report.pass_thru_open _ _ _ _
        (kept _ (System.open_step now.open_env args.0 (is_set args.1) fresh))

  call_read_msgs-Keeps :
      (args : Args Report.pass_thru_read_msgs)
      → Keeps Report.pass_thru_read_msgs (Calls.call_read_msgs now c args)
  unfolding Calls.call_read_msgs deref
  call_read_msgs-Keeps (id, buffer, none, timeout) = tt
  call_read_msgs-Keeps (id, buffer, some num, timeout) =
      WhenOk-bind (λ (t : ReadDone). IsValid t.client)
        (λ (a : Answer Client Report.pass_thru_read_msgs). IsValid a.2)
        (pass_thru_read_msgs c id (is_set buffer) num timeout now.elapsed)
        (λ done.
          tell Report.pass_thru_read_msgs (overwrite done.out buffer) _ done.status done.client)
        (pass_thru_read_msgs-IsValid c id (is_set buffer) num timeout now.elapsed v)
        λ done w. tell-Keeps Report.pass_thru_read_msgs _ _ _ _ w

  call_connect-Keeps :
      (args : Args Report.pass_thru_connect)
      → Keeps Report.pass_thru_connect (Calls.call_connect now c args)
  unfolding Calls.call_connect
  call_connect-Keeps args =
      tell-Keeps Report.pass_thru_connect _ _ _ _
        (kept _ (System.connect_step args.0 args.1 args.2 args.3))

  write_seen-Keeps :
      (args : Args Report.pass_thru_write_msgs) (ms : List PassThruMsg)
      → Keeps Report.pass_thru_write_msgs (Calls.write_seen now c args ms)
  unfolding Calls.write_seen
  write_seen-Keeps args ms =
      WhenOk-bind (λ (t : WriteDone). IsValid t.client)
        (λ (a : Answer Client Report.pass_thru_write_msgs). IsValid a.2)
        (pass_thru_write_msgs c args.0 ms args.3 now.sends now.wsa_error)
        (λ done. ok (done.status, (args.0, args.1, some done.num_msgs, args.3), done.client))
        (pass_thru_write_msgs-IsValid c args.0 ms args.3 now.sends now.wsa_error v) λ done w. w

  call_write_msgs-Keeps :
      (args : Args Report.pass_thru_write_msgs)
      → Keeps Report.pass_thru_write_msgs (Calls.call_write_msgs now c args)
  unfolding Calls.call_write_msgs deref
  call_write_msgs-Keeps (id, buffer, none, timeout) = tt
  call_write_msgs-Keeps (id, buffer, some num, timeout) =
      WhenOk-bind {0, 0, 0, 0} (λ (ms : List PassThruMsg). Unit)
        (λ (a : Answer Client Report.pass_thru_write_msgs). IsValid a.2)
        (Calls.seen_msgs now c (id, buffer, some num, timeout) num)
        (Calls.write_seen now c (id, buffer, some num, timeout))
        (anything (Calls.seen_msgs now c (id, buffer, some num, timeout) num))
        λ ms u. write_seen-Keeps (id, buffer, some num, timeout) ms

  call_select-Keeps :
      (args : Args Report.pass_thru_select)
      → Keeps Report.pass_thru_select (Calls.call_select now c args)
  unfolding Calls.call_select
  call_select-Keeps args =
      elim (Option-cases (pass_thru_select c now.select_env args.0 args.1 args.2)) [
        | inl e ↦ rw (e, Calls.call_select) tt
        | inr (done, e) ↦
            rw (e, Calls.call_select)
              (kept _ (System.select_step now.select_env args.0 args.1 args.2 done.0 done.1 e))
      ]

  call_ioctl-Keeps :
      (args : Args Report.pass_thru_ioctl)
      → Keeps Report.pass_thru_ioctl (Calls.call_ioctl now c args)
  unfolding Calls.call_ioctl
  call_ioctl-Keeps args =
      WhenOk-bind (λ (r : Client × ℕ × IoctlMemory). IsValid r.0)
        (λ (a : Answer Client Report.pass_thru_ioctl). IsValid a.2)
        (pass_thru_ioctl c args.0 args.1 args.2)
        (λ done. ok (done.1, (args.0, args.1, done.2), done.0))
        (pass_thru_ioctl-IsValid c args.0 args.1 args.2 v) λ done w. w

  call_read_version-Keeps :
      (args : Args Report.pass_thru_read_version)
      → Keeps Report.pass_thru_read_version (Calls.call_read_version now c args)
  unfolding Calls.call_read_version deref
  call_read_version-Keeps (id, none, dll, api) = tt
  call_read_version-Keeps (id, some f, none, api) = tt
  call_read_version-Keeps (id, some f, some d, none) = tt
  call_read_version-Keeps (id, some f, some d, some a) = kept _ (System.read_version_step id f d a)

  call_get_last_error-Keeps :
      (args : Args Report.pass_thru_get_last_error)
      → Keeps Report.pass_thru_get_last_error (Calls.call_get_last_error now c args)
  unfolding Calls.call_get_last_error
  call_get_last_error-Keeps args =
      tell-Keeps Report.pass_thru_get_last_error _ _ _ _
        (kept _ (System.last_error_step (is_set args)))

  call_scan_for_devices-Keeps :
      (args : Args Report.pass_thru_scan_for_devices)
      → Keeps Report.pass_thru_scan_for_devices (Calls.call_scan_for_devices now c args)
  unfolding Calls.call_scan_for_devices
  call_scan_for_devices-Keeps args =
      tell-Keeps Report.pass_thru_scan_for_devices _ _ _ _ (kept _ (System.scan_step args))

  call_get_next_device-Keeps :
      (args : Args Report.pass_thru_get_next_device)
      → Keeps Report.pass_thru_get_next_device (Calls.call_get_next_device now c args)
  unfolding Calls.call_get_next_device
  call_get_next_device-Keeps args =
      tell-Keeps Report.pass_thru_get_next_device _ _ _ _
        (kept _ (System.next_device_step (is_set args)))

  call_get_next_car_daq-Keeps :
      (args : Args Report.pass_thru_get_next_car_daq)
      → Keeps Report.pass_thru_get_next_car_daq (Calls.call_get_next_car_daq now c args)
  unfolding Calls.call_get_next_car_daq
  call_get_next_car_daq-Keeps args = kept _ (
      System.next_car_daq_step args.1 (is_set args.0 && is_set args.2) now.name_alloc
        now.addr_alloc)

  refused_call-Keeps :
      (f : Fn) (args : Args f) (call : Option UnsupportedCall)
      → Keeps f (refused_call now f args c call)
  unfolding refused_call refused
  refused_call-Keeps f args none = v
  refused_call-Keeps f args (some call) = kept _ (System.unsupported_step call)

  unsupported_call-Keeps :
      (f : Fn) (args : Args f)
      → Keeps f (unsupported_call f args >>= λ call. refused_call now f args c call)
  unsupported_call-Keeps f args =
      WhenOk-bind (λ (call : Option UnsupportedCall). Unit) (λ (a : Answer Client f). IsValid a.2)
        (unsupported_call f args) (refused_call now f args c) (anything _)
        λ call u. refused_call-Keeps f args call

  pub call_client-Keeps :
      FreshSocket c now.open_env → (f : Fn) (args : Args f) → Keeps f (call_client now f args c)
  unfolding call_client
  call_client-Keeps fresh Report.pass_thru_open args = call_open-Keeps fresh args
  call_client-Keeps fresh Report.pass_thru_close args = kept _ (System.close_step args)
  call_client-Keeps fresh Report.pass_thru_connect args = call_connect-Keeps args
  call_client-Keeps fresh Report.pass_thru_disconnect args = kept _ (System.disconnect_step args)
  call_client-Keeps fresh Report.pass_thru_read_msgs args = call_read_msgs-Keeps args
  call_client-Keeps fresh Report.pass_thru_write_msgs args = call_write_msgs-Keeps args
  call_client-Keeps fresh Report.pass_thru_select args = call_select-Keeps args
  call_client-Keeps fresh Report.pass_thru_ioctl args = call_ioctl-Keeps args
  call_client-Keeps fresh Report.pass_thru_read_version args = call_read_version-Keeps args
  call_client-Keeps fresh Report.pass_thru_get_last_error args = call_get_last_error-Keeps args
  call_client-Keeps fresh Report.pass_thru_scan_for_devices args = call_scan_for_devices-Keeps args
  call_client-Keeps fresh Report.pass_thru_get_next_device args = call_get_next_device-Keeps args
  call_client-Keeps fresh Report.pass_thru_get_next_car_daq args = call_get_next_car_daq-Keeps args
  call_client-Keeps fresh f args = unsupported_call-Keeps f args
