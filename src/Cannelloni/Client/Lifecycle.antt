-- ===== src/Cannelloni/Client/Lifecycle.antt =====
-- Opening, connecting, closing: PassThruOpen, PassThruConnect and PassThruClose of
-- j2534_OverIP/j2534cannelloniclient.cpp one after the other.
use j2534_oip_wrapper.Prelude.{
  ℕ, ◌≡◌, ◌<◌, refl, ap, ◌∙◌, List, [], ◌∷◌, ◌++◌, Bool, true, false, Bool-cases, Option, none,
  some, Option-cases, inl, inr, length, ◌==◌, ==_self, if◌then◌else◌,
}
use j2534_oip_wrapper.Prelude.Assoc.{
  Fresh, remove, find, erase, assign, find-erase, find-assign, contains_key,
}
use j2534_oip_wrapper.Message.{
  PassThruMsg, ok, status_noerror, err_invalid_device_id, err_invalid_channel_id,
}
use j2534_oip_wrapper.Cannelloni.Receive.{Channel}
use j2534_oip_wrapper.Cannelloni.Client.{
  Client, report, virtual_device_count, read_freed, error_entry,
}
use j2534_oip_wrapper.Report.{reads_freed, is_freed}
use j2534_oip_wrapper.Cannelloni.Client.Invariant.{remove_last}
use j2534_oip_wrapper.Cannelloni.Client.Open.{
  OpenEnv, open_host, open_port, close_socket, new_channel, open_connected, pass_thru_open,
}
use j2534_oip_wrapper.Cannelloni.Client.Open.Outcome.{Connects, opens}
use j2534_oip_wrapper.Cannelloni.Client.Channels.{pass_thru_close, pass_thru_connect}
use j2534_oip_wrapper.Cannelloni.Client.ReadMsgs.{ReadDone, pass_thru_read_msgs}
use j2534_oip_wrapper.Cannelloni.Client.WriteMsgs.{WriteDone, pass_thru_write_msgs}

-- Erasing a key that was just written to a map without it.
erase-assign :
    (k : ℕ) (ctx : Channel) (m : List (ℕ × Channel))
    → contains_key k m ≡ false
    → erase k (assign k ctx m) ≡ m
unfolding erase assign contains_key
erase-assign k ctx [] h = rw (==_self k)
erase-assign k ctx ((j, d) ∷ m) h = elim (Bool-cases (j == k)) [
  | inl hit ↦ let bad : true ≡ false = rw hit at h in cc
  | inr miss ↦
      let h' : contains_key k m ≡ false = rw miss at h in
      rw (miss, erase) (simp miss (ap (◌∷◌ (j, d)) (erase-assign k ctx m h')))
]

close_parts :
    (c : Client) (id : ℕ) (ctx : Channel)
    → find id c.channels ≡ some ctx
    → ((pass_thru_close c id).1 ≡ status_noerror)
      × ((pass_thru_close c id).0.channels ≡ erase id c.channels)
      × ((pass_thru_close c id).0.sockets ≡ remove ctx.sockfd c.sockets)
unfolding pass_thru_close close_socket report
close_parts c id ctx found = rw (found, pass_thru_close) (refl, refl, refl)

-- An open that succeeds, followed by the close of the device that it returned, gives back the
-- channels and the sockets as they were before.
pub open_then_close :
    (c : Client) (env : OpenEnv) (name : Option (List ℕ)) (fd addr : ℕ)
    → length c.channels < virtual_device_count
    → contains_key (open_port c name) c.channels ≡ false
    → Connects c env name fd addr
    → Fresh fd c.sockets
    → let opened = (pass_thru_open c env name true).0 in
      let (c', status) = pass_thru_close opened (open_port c name) in
      (status ≡ status_noerror) × (c'.channels ≡ c.channels) × (c'.sockets ≡ c.sockets)
unfolding open_connected report new_channel
open_then_close c env name fd addr room free w fresh = rw (opens c env name fd addr room free w) (
    let port : ℕ = open_port c name in
    let ctx : Channel = new_channel fd addr port in
    let (done, channels, sockets) =
      close_parts
        (open_connected (record c { sockets = c.sockets ++ fd ∷ [] }) (open_host c env name) port fd
          addr).0
        port ctx
        (find-assign port port ctx c.channels
          ∙ ap (λ (b : Bool). if b then some ctx else find port c.channels) (==_self port)) in
    (
      done,
      channels ∙ erase-assign port ctx c.channels free,
      sockets ∙ remove_last fd c.sockets fresh,
    ))

-- Closing a device that is open returns STATUS_NOERROR, takes its channel out of the map, closes
-- its socket, and leaves every other channel as it was.
pub close_open_device :
    (c : Client) (device_id j : ℕ) (ctx : Channel)
    → find device_id c.channels ≡ some ctx
    → let (c', status) = pass_thru_close c device_id in
      (status ≡ status_noerror)
      × (find j c'.channels ≡ (if device_id == j then none else find j c.channels))
      × (c'.sockets ≡ remove ctx.sockfd c.sockets)
close_open_device c device_id j ctx found =
    let (done, channels, sockets) = close_parts c device_id ctx found in
    (done, ap (find j) channels ∙ find-erase device_id j c.channels, sockets)

-- After a close the device is not in the map, whether it was open or not.
close_forgets :
    (c : Client) (device_id : ℕ) → find device_id (pass_thru_close c device_id).0.channels ≡ none
unfolding pass_thru_close close_socket report
close_forgets c device_id = elim (Option-cases (find device_id c.channels)) [
  | inl absent ↦ rw (absent, pass_thru_close) absent
  | inr (ctx, found) ↦
      rw (found, pass_thru_close)
        (find-erase device_id device_id c.channels
          ∙ ap (λ (b : Bool). if b then none else find device_id c.channels) (==_self device_id))
]

-- What the calls with the identifier of a device that is not open come to.
abbrev pub Refusals :
    (c : Client) (id protocol_id flags baudrate : ℕ) (has_buffer : Bool) (num timeout : ℕ)
    (elapsed : ℕ → ℕ) (ms : List PassThruMsg) (sends : ℕ → Bool) (wsa_error : ℕ)
    → Type 0
Refusals c id protocol_id flags baudrate has_buffer num timeout elapsed ms sends wsa_error =
    (((pass_thru_close c id).1 ≡ err_invalid_device_id)
      × (read_freed (pass_thru_close c id).0 ≡ true))
    × (((pass_thru_connect c id protocol_id flags baudrate).1 ≡ err_invalid_device_id)
        × (read_freed (pass_thru_connect c id protocol_id flags baudrate).0 ≡ true))
    × ((d : ReadDone) × (pass_thru_read_msgs c id has_buffer num timeout elapsed ≡ ok d)
        × (d.status ≡ err_invalid_channel_id)
        × (d.out ≡ [])
        × (read_freed d.client ≡ true))
    × ((d : WriteDone) × (pass_thru_write_msgs c id ms timeout sends wsa_error ≡ ok d)
        × (d.status ≡ err_invalid_channel_id)
        × (d.client.sent ≡ c.sent)
        × (read_freed d.client ≡ true))

unknown_is_refused :
    (c : Client) (id protocol_id flags baudrate : ℕ) (has_buffer : Bool) (num timeout : ℕ)
    (elapsed : ℕ → ℕ) (ms : List PassThruMsg) (sends : ℕ → Bool) (wsa_error : ℕ)
    → find id c.channels ≡ none
    → Refusals c id protocol_id flags baudrate has_buffer num timeout elapsed ms sends wsa_error
unfolding pass_thru_close pass_thru_connect pass_thru_read_msgs pass_thru_write_msgs report
    read_freed reads_freed is_freed error_entry
unknown_is_refused c id protocol_id flags baudrate has_buffer num timeout elapsed ms sends wsa_error
      h =
    rw (h, pass_thru_close, pass_thru_connect, pass_thru_read_msgs, pass_thru_write_msgs)
      ((refl, refl), (refl, refl), (_, refl, refl, refl, refl), (_, refl, refl, refl, refl))

-- After a close of a device, whether it was open or not, a second close, a connection to it, and
-- reading from and writing to it each make their report of a text that has been freed. If that read
-- does no harm the first two return ERR_INVALID_DEVICE_ID and the others ERR_INVALID_CHANNEL_ID, with
-- no message read and none sent. The pointers to the counts are not null.
pub closed_is_refused :
    (c : Client) (id protocol_id flags baudrate : ℕ) (has_buffer : Bool) (num timeout : ℕ)
    (elapsed : ℕ → ℕ) (ms : List PassThruMsg) (sends : ℕ → Bool) (wsa_error : ℕ)
    → Refusals
        (pass_thru_close c id).0
        id
        protocol_id
        flags
        baudrate
        has_buffer
        num
        timeout
        elapsed
        ms
        sends
        wsa_error
closed_is_refused c id protocol_id flags baudrate has_buffer num timeout elapsed ms sends
      wsa_error =
    unknown_is_refused (pass_thru_close c id).0 id protocol_id flags baudrate has_buffer num timeout
      elapsed ms sends wsa_error (close_forgets c id)
