-- ===== src/Cannelloni/Client/Invariant/Queries.antt =====
-- The enumeration of the devices keeps the invariant of J2534CannelloniClient.
use j2534_oip_wrapper.Prelude.{
  ℕ, ◌+◌, ◌≤◌, arith, Option, none, some, inl, inr, false, true, Bool, Bool-cases, leb, leb→lt,
}
use j2534_oip_wrapper.Cannelloni.Client.{Client, report, virtual_device_count}
use j2534_oip_wrapper.Cannelloni.Client.Valid.{IsValid, PartsAreValid}
use j2534_oip_wrapper.Cannelloni.Client.Devices.{
  pass_thru_scan_for_devices, pass_thru_get_next_device, pass_thru_get_next_car_daq,
}

-- The index moves, the rest stays.
IsValid-index :
    (c : Client) (index : ℕ)
    → IsValid c
    → index ≤ virtual_device_count
    → PartsAreValid c.channels c.sockets index
IsValid-index c index v h = record {
  capacity = v.capacity;
  distinct_ports = v.distinct_ports;
  channels_valid = v.channels_valid;
  no_leak = v.no_leak;
  distinct_sockets = v.distinct_sockets;
  index_bound = h;
}

pub pass_thru_scan_for_devices-IsValid :
    (c : Client) (count : Option ℕ) → IsValid c → IsValid (pass_thru_scan_for_devices c count).0
unfolding pass_thru_scan_for_devices report
pass_thru_scan_for_devices-IsValid c none v = v
pass_thru_scan_for_devices-IsValid c (some count) v = IsValid-index c 0 v (omega arith)

pub pass_thru_get_next_device-IsValid :
    (c : Client) (has_device : Bool)
    → IsValid c
    → IsValid (pass_thru_get_next_device c has_device).0
unfolding pass_thru_get_next_device report
pass_thru_get_next_device-IsValid c false v = v
pass_thru_get_next_device-IsValid c true v =
    elim (Bool-cases (leb virtual_device_count c.scan_index)) [
      | inl over ↦ rw (over, pass_thru_get_next_device) v
      | inr more ↦
          rw (more, pass_thru_get_next_device)
            (IsValid-index c (c.scan_index + 1) v (omega (arith, leb→lt _ _ more)))
    ]

pub pass_thru_get_next_car_daq-IsValid :
    (c : Client) (version : Option ℕ) (pointers name_alloc addr_alloc : Bool)
    → IsValid c
    → IsValid (pass_thru_get_next_car_daq c version pointers name_alloc addr_alloc).0
unfolding pass_thru_get_next_car_daq report
pass_thru_get_next_car_daq-IsValid c none pointers name_alloc addr_alloc v = v
pass_thru_get_next_car_daq-IsValid c (some version) false name_alloc addr_alloc v = v
pass_thru_get_next_car_daq-IsValid c (some version) true false addr_alloc v =
    elim (Bool-cases (leb virtual_device_count c.scan_index)) [
      | inl over ↦ rw (over, pass_thru_get_next_car_daq) v
      | inr more ↦ rw (more, pass_thru_get_next_car_daq) v
    ]
pass_thru_get_next_car_daq-IsValid c (some version) true true false v =
    elim (Bool-cases (leb virtual_device_count c.scan_index)) [
      | inl over ↦ rw (over, pass_thru_get_next_car_daq) v
      | inr more ↦ rw (more, pass_thru_get_next_car_daq) v
    ]
pass_thru_get_next_car_daq-IsValid c (some version) true true true v =
    elim (Bool-cases (leb virtual_device_count c.scan_index)) [
      | inl over ↦ rw (over, pass_thru_get_next_car_daq) v
      | inr more ↦
          rw (more, pass_thru_get_next_car_daq)
            (IsValid-index c (c.scan_index + 1) v (omega (arith, leb→lt _ _ more)))
    ]
