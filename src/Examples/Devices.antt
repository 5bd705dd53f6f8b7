-- ===== src/Examples/Devices.antt =====
-- Examples of opening, enumerating, selecting and reporting.
use j2534_oip_wrapper.Prelude.{
  ◌-◌, replicate, ℕ, ◌*◌, ◌≡◌, ◌≤◌, refl, arith, List, [], ◌∷◌, ◌++◌, true, false, Option, none,
  some, length, if◌then◌else◌, ◌==◌,
}
use j2534_oip_wrapper.Prelude.Assoc.{find, contains_key}
use j2534_oip_wrapper.Message.{status_noerror, err_invalid_device_id}
use j2534_oip_wrapper.Cannelloni.Client.{Client, device_id_not_found, error_text, read_freed}
use j2534_oip_wrapper.Cannelloni.Client.Valid.{IsValid}
use j2534_oip_wrapper.Cannelloni.Client.Invariant.{FreshSocket}
use j2534_oip_wrapper.Cannelloni.Client.Open.{open_port, pass_thru_open}
use j2534_oip_wrapper.Cannelloni.Client.Open.Outcome.{Connects, Outcome, open-Outcome}
use j2534_oip_wrapper.Cannelloni.Client.Channels.{pass_thru_close}
use j2534_oip_wrapper.Cannelloni.Client.Lifecycle.{Refusals, open_then_close, closed_is_refused}
use j2534_oip_wrapper.Cannelloni.Client.Devices.{pass_thru_scan_for_devices}
use j2534_oip_wrapper.Cannelloni.Client.Devices.Enumeration.{
  next_devices, all_devices, no_more, scan_lists_devices,
}
use j2534_oip_wrapper.Cannelloni.Client.Select.{
  ChannelSet, SelectEnv, pass_thru_select, select_status,
}
use j2534_oip_wrapper.Cannelloni.Client.Select.Timing.{Sleeps, Waited, select_returns}
use j2534_oip_wrapper.Cannelloni.Client.Ioctl.{SConfig, IoctlMemory}
use j2534_oip_wrapper.Cannelloni.Client.Errors.{pass_thru_get_last_error}
use j2534_oip_wrapper.Cannelloni.Client.Errors.Text.{close_leaves_code}
use j2534_oip_wrapper.Cannelloni.System.{
  initial, open_step, close_step, start, after, Reach-IsValid,
}
use j2534_oip_wrapper.Examples.{channel, empty_client, busy_client, working, request}

-- The default port, through a null `pName`.
default_free : contains_key (open_port busy_client none) busy_client.channels ≡ false
unfolding open_port contains_key
default_free = refl

working-Connects : Connects busy_client working none 7 2130706433
working-Connects = record { made = refl; resolved = refl; connected = refl }

seven_fresh : FreshSocket busy_client working
seven_fresh fd e = (let same : 7 ≡ fd = cc in omega arith, tt)

abbrev opened : Client × ℕ × Option ℕ
opened = pass_thru_open busy_client working none true

-- The constructor, an open and a close.
abbrev started : Client
started = initial none 20000 true

abbrev ended : Client
ended = (pass_thru_close (pass_thru_open started working none true).0 20000).0

started_fresh : FreshSocket started working
unfolding initial
started_fresh fd e = tt

Reach-IsValid_example : IsValid ended
Reach-IsValid_example = Reach-IsValid none 20000 true ended (
    after (pass_thru_open started working none true).0 ended
      (after started (pass_thru_open started working none true).0 start
        (open_step working none true started_fresh))
      (close_step 20000))

open_then_close_example :
    let (c', status) = pass_thru_close opened.0 (open_port busy_client none) in
    (status ≡ status_noerror) × (c'.channels ≡ busy_client.channels) × (c'.sockets ≡ 5 ∷ [])
open_then_close_example =
    open_then_close busy_client working none 7 2130706433 (omega arith) default_free
      working-Connects (omega arith, tt)

open-Outcome_example : Outcome busy_client (open_port busy_client none) opened
open-Outcome_example = open-Outcome busy_client working none true seven_fresh

busy_found : find 20001 busy_client.channels ≡ some channel
unfolding find
busy_found = refl

busy_other : find 20000 busy_client.channels ≡ none
unfolding find
busy_other = refl

close_leaves_code_example :
    let (c', status) = pass_thru_close busy_client 20000 in
    let text = error_text device_id_not_found in
    (read_freed c' ≡ true)
    × (status ≡ err_invalid_device_id)
    × ((pass_thru_get_last_error c' true).2 ≡ some (text ++ replicate (80 - length text) 0))
    × ((pass_thru_get_last_error c' true).1 ≡ (pass_thru_get_last_error busy_client true).1)
close_leaves_code_example = close_leaves_code busy_client 20000 busy_other

closed_is_refused_example :
    Refusals
      (pass_thru_close busy_client 20001).0
      20001
      5
      0
      500000
      true
      4
      0
      (λ i. i)
      (request ∷ [])
      (λ i. true)
      0
closed_is_refused_example =
    closed_is_refused busy_client 20001 5 0 500000 true 4 0 (λ i. i) (request ∷ []) (λ i. true) 0

scan_lists_devices_example :
    let (scanned, status, found) = pass_thru_scan_for_devices busy_client (some 9) in
    (status ≡ status_noerror)
    × (found ≡ some 3)
    × ((next_devices 5 scanned).0 ≡ all_devices busy_client ++ no_more 2)
    × (let last = (next_devices 5 scanned).1 in
        (last.channels ≡ busy_client.channels) × (last.sockets ≡ 5 ∷ []))
scan_lists_devices_example = scan_lists_devices busy_client 9 2

-- A clock that stands at 10 milliseconds more in every round, and a queue that fills in round 2.
abbrev filling : SelectEnv
filling = record {
  elapsed = λ i. 10 * i;
  snapshot = λ i. if i == 2 then busy_client.channels else [];
}

filling-Sleeps : Sleeps filling
filling-Sleeps i = omega arith

abbrev one_channel : ChannelSet
one_channel = record {
  address = 64;
  channel_count = 1;
  channel_threshold = 1;
  channel_list = some (20001 ∷ []);
}

select_returns_example :
    (c' : Client) × (r : ℕ) × (pass_thru_select busy_client filling (some one_channel) 1 50
      ≡ some (c', select_status r))
    × Waited filling 50 (20001 ∷ []) 1 0 r
select_returns_example =
    select_returns busy_client filling one_channel (20001 ∷ []) 1 50 (omega arith) refl
      filling-Sleeps

-- The text "No error" has 8 characters.
no_error_short : length (error_text empty_client.last_error) ≤ 79
unfolding error_text
no_error_short = omega arith

abbrev items : List SConfig
items = record { parameter = 1; value = 0 } ∷ record { parameter = 3; value = 7 } ∷ []

abbrev memory : IoctlMemory
memory = record { input = some items; output_word = some 0; output_params = some [] }
