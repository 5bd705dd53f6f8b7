-- ===== src/Cannelloni/Client/Devices/Enumeration.antt =====
-- A whole enumeration: PassThruScanForDevices and PassThruGetNextDevice of
-- j2534_OverIP/j2534cannelloniclient.cpp.
use j2534_oip_wrapper.Prelude.{
  ℕ, zero, suc, ◌≡◌, ◌≤◌, refl, ap, arith, List, [], ◌∷◌, ◌++◌, true, false, Option, none, some,
  le→leb, length, ◌<◌, leb, inl, inr, Bool-cases, Bool, if◌then◌else◌, ◌∙◌,
}
use j2534_oip_wrapper.Prelude.Assoc.{Fresh, contains_key, contains_key-assign}
use j2534_oip_wrapper.Cannelloni.Client.Open.{
  OpenEnv, open_port, new_channel, open_connected, pass_thru_open,
}
use j2534_oip_wrapper.Cannelloni.Client.Open.Outcome.{Connects, opens}
use j2534_oip_wrapper.Cannelloni.Client.Channels.{pass_thru_close}
use j2534_oip_wrapper.Cannelloni.Client.Lifecycle.{open_then_close}
use j2534_oip_wrapper.Message.{status_noerror, err_no_more_devices}
use j2534_oip_wrapper.Cannelloni.Client.{Client, report, virtual_device_count}
use j2534_oip_wrapper.Cannelloni.Client.Devices.{
  SDevice, virtual_device, get_port_from_index, pass_thru_scan_for_devices,
  pass_thru_get_next_device,
}

-- `n` calls of PassThruGetNextDevice: their results, and the state behind them.
unfoldable pub next_devices : ℕ → Client → List (ℕ × Option SDevice) × Client
next_devices zero c = ([], c)
next_devices (suc n) c =
    let (c', status, device) = pass_thru_get_next_device c true in
    let (found, last) = next_devices n c' in ((status, device) ∷ found, last)

-- The calls behind the last device, all of which say ERR_NO_MORE_DEVICES.
unfoldable pub no_more : ℕ → List (ℕ × Option SDevice)
no_more zero = []
no_more (suc n) = (err_no_more_devices, none) ∷ no_more n

next_over :
    (n : ℕ) (c : Client) → virtual_device_count ≤ c.scan_index → (next_devices n c).0 ≡ no_more n
unfolding next_devices no_more pass_thru_get_next_device report
next_over zero c h = refl
next_over (suc n) c h =
    rw (le→leb _ _ h, pass_thru_get_next_device)
      (ap (◌∷◌ (err_no_more_devices, none)) (next_over n _ h))

next_device_keeps :
    (c : Client)
    → ((pass_thru_get_next_device c true).0.channels ≡ c.channels)
      × ((pass_thru_get_next_device c true).0.sockets ≡ c.sockets)
unfolding pass_thru_get_next_device report
next_device_keeps c = elim (Bool-cases (leb virtual_device_count c.scan_index)) [
  | inl over ↦ rw (over, pass_thru_get_next_device) (refl, refl)
  | inr more ↦ rw (more, pass_thru_get_next_device) (refl, refl)
]

next_devices_keep :
    (n : ℕ) (c : Client)
    → ((next_devices n c).1.channels ≡ c.channels) × ((next_devices n c).1.sockets ≡ c.sockets)
unfolding next_devices
next_devices_keep zero c = (refl, refl)
next_devices_keep (suc n) c =
    let (channels, sockets) = next_devices_keep n (pass_thru_get_next_device c true).0 in
    let (same, open_) = next_device_keeps c in (channels ∙ same, sockets ∙ open_)

-- The devices of the three ports, as the map shows them.
abbrev pub all_devices : Client → List (ℕ × Option SDevice)
all_devices c =
    (status_noerror, some (virtual_device c 20000))
    ∷ (status_noerror, some (virtual_device c 20001))
    ∷ (status_noerror, some (virtual_device c 20002))
    ∷ []

-- After a scan, which reports three devices, the first three calls of PassThruGetNextDevice return
-- the devices of the ports 20000, 20001 and 20002 in that order, and every later call returns
-- ERR_NO_MORE_DEVICES; the channels and the open sockets stay as they are.
pub scan_lists_devices :
    (c : Client) (count n : ℕ)
    → let (scanned, status, found) = pass_thru_scan_for_devices c (some count) in
      (status ≡ status_noerror)
      × (found ≡ some 3)
      × ((next_devices (suc (suc (suc n))) scanned).0 ≡ all_devices c ++ no_more n)
      × (let last = (next_devices (suc (suc (suc n))) scanned).1 in
          (last.channels ≡ c.channels) × (last.sockets ≡ c.sockets))
unfolding pass_thru_scan_for_devices next_devices pass_thru_get_next_device report virtual_device
    get_port_from_index
scan_lists_devices c count n = (
  refl,
  refl,
  ap (λ t. all_devices c ++ t) (next_over n _ (omega arith)),
  next_devices_keep (suc (suc (suc n))) (pass_thru_scan_for_devices c (some count)).0,
)

-- The availability that is shown for a port.
shown :
    (c : Client) (port : ℕ) (open_ : Bool)
    → contains_key port c.channels ≡ open_
    → (virtual_device c port).device_available ≡ (if open_ then 0 else 1)
unfolding virtual_device
shown c port open_ e = ap (λ (b : Bool). if b then 0 else 1) e

-- Where an open succeeds, its port is shown as not available behind it, and as available again
-- behind the close of the device that it returned.
pub shown_while_open :
    (c : Client) (env : OpenEnv) (name : Option (List ℕ)) (fd addr : ℕ)
    → length c.channels < virtual_device_count
    → contains_key (open_port c name) c.channels ≡ false
    → Connects c env name fd addr
    → Fresh fd c.sockets
    → let opened = (pass_thru_open c env name true).0 in
      let closed = (pass_thru_close opened (open_port c name)).0 in
      ((virtual_device opened (open_port c name)).device_available ≡ 0)
      × ((virtual_device closed (open_port c name)).device_available ≡ 1)
unfolding open_connected report
shown_while_open c env name fd addr room free w fresh =
    let port : ℕ = open_port c name in
    let opened : Client = (pass_thru_open c env name true).0 in
    let (status, channels, sockets) = open_then_close c env name fd addr room free w fresh in
    (
      shown opened port true (
          rw (opens c env name fd addr room free w)
            (contains_key-assign port (new_channel fd addr port) c.channels)),
      shown (pass_thru_close opened port).0 port false (ap (contains_key port) channels ∙ free),
    )
