-- ===== src/Cannelloni/Client/Select.antt =====
-- PassThruSelect of j2534_OverIP/j2534cannelloniclient.cpp.
pub mod Timing
use j2534_oip_wrapper.Prelude.{
  ℕ, zero, suc, ◌+◌, ◌/◌, List, [], ◌∷◌, ◌++◌, Bool, true, false, not, Option, none, some, is_empty,
  leb, ltb, ◌==◌, if◌then◌else◌,
}
use j2534_oip_wrapper.Prelude.Assoc.{find}
use j2534_oip_wrapper.Message.{err_null_parameter, err_invalid_channel_id, err_timeout}
use j2534_oip_wrapper.Report.{
  Put, entry, int, fn_key, pass_thru_select as select_fn, func_name, param1, param2, param3,
  retval_long,
}
use j2534_oip_wrapper.Cannelloni.Receive.{Channel}
use j2534_oip_wrapper.Cannelloni.Client.{
  Client, LastError, channel_set_null, channel_set_empty, report, error_entry,
}

-- SCHANNELSET; `channel_list` is `none` for a null pointer. `address` is the pointer's value.
pub record ChannelSet : Type 0 where
  pub address : ℕ
  pub channel_count : ℕ
  pub channel_threshold : ℕ
  pub channel_list : Option (List ℕ)

-- The channel is in the map and its queue holds a message.
unfoldable pub is_ready : List (ℕ × Channel) → ℕ → Bool
is_ready channels id = elim (find id channels) [
  | none ↦ false
  | some ctx ↦ not (is_empty ctx.msg_queue)
]

-- One poll of the channels of the set.
unfoldable pub count_ready : List (ℕ × Channel) → List ℕ → ℕ
count_ready channels [] = 0
count_ready channels (id ∷ ids) =
    let rest = count_ready channels ids in if is_ready channels id then suc rest else rest

-- What the function sees while it waits: in round `i` the milliseconds since its start, and the
-- channel map, whose queues the receive threads fill meanwhile.
pub record SelectEnv : Type 0 where
  pub elapsed : ℕ → ℕ
  pub snapshot : ℕ → List (ℕ × Channel)

-- The loop from round `i` on; `none` means that the fuel ran out. The count starts at 0 in every
-- round, and a round that finds the time over returns that.
unfoldable pub select_loop : SelectEnv → ℕ → List ℕ → ℕ → ℕ → ℕ → Option ℕ
select_loop env timeout ids threshold zero i = none
select_loop env timeout ids threshold (suc fuel) i =
    let ready = count_ready (env.snapshot i) ids in
    let rest = select_loop env timeout ids threshold fuel (suc i) in
    if leb timeout (env.elapsed i) then some 0 else if leb threshold ready then some ready else rest

-- Each round but the last sleeps 10 milliseconds.
unfoldable pub select_fuel : ℕ → ℕ
select_fuel timeout = timeout / 10 + 2

-- `static_cast<long>(readyCount)`, or ERR_TIMEOUT.
unfoldable pub select_status : ℕ → ℕ
select_status ready = if ltb 0 ready then ready else err_timeout

select_refused : Client → List Put → LastError → ℕ → Option (Client × ℕ)
select_refused c puts e code =
    some
      (report (record c { last_error = e }) select_fn (puts ++ error_entry select_fn e ∷ []), code)

select_wait : Client → SelectEnv → List Put → ℕ → List ℕ → ℕ → Option (Client × ℕ)
select_wait c env puts timeout ids threshold =
    elim (select_loop env timeout ids threshold (select_fuel timeout) 0) [
      | none ↦ none
      | some ready ↦ some (
        report c select_fn (puts ++ entry retval_long (int (select_status ready)) ∷ []),
        select_status ready,
      )
    ]

select_puts : ℕ → ℕ → ℕ → List Put
select_puts address select_type timeout =
    entry func_name (fn_key select_fn)
    ∷ entry param1 (int address)
    ∷ entry param2 (int select_type)
    ∷ entry param3 (int timeout)
    ∷ []

-- `set` is `none` for a null pointer. `ChannelList` is taken to hold the ChannelCount ids.
unfoldable pub pass_thru_select :
    Client → SelectEnv → Option ChannelSet → ℕ → ℕ → Option (Client × ℕ)
unfolding select_refused select_wait select_puts
pass_thru_select c env none select_type timeout =
    select_refused c (select_puts 0 select_type timeout) channel_set_null err_null_parameter
pass_thru_select c env (some set) select_type timeout =
    let puts = select_puts set.address select_type timeout in
    if set.channel_count == 0
    then select_refused c puts channel_set_empty err_invalid_channel_id
    else elim set.channel_list [
      | none ↦ select_refused c puts channel_set_empty err_invalid_channel_id
      | some ids ↦ select_wait c env puts timeout ids set.channel_threshold
    ]
