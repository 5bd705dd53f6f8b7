-- ===== src/Cannelloni/Client/Select/Timing.antt =====
-- The waiting loop of PassThruSelect of j2534_OverIP/j2534cannelloniclient.cpp: that it ends, and
-- with what.
use j2534_oip_wrapper.Prelude.{
  ℕ, zero, suc, ◌+◌, ◌*◌, ◌≡◌, ◌≢◌, ◌≤◌, ◌<◌, refl, arith, List, Bool-cases, inl, inr, ne→==, some,
  leb, leb→le, leb→lt,
}
use j2534_oip_wrapper.Cannelloni.Client.{Client}
use j2534_oip_wrapper.Cannelloni.Client.Select.{
  ChannelSet, SelectEnv, count_ready, select_loop, select_fuel, select_status, pass_thru_select,
  select_wait,
}

-- Between two rounds the loop sleeps at least 10 milliseconds of the clock.
abbrev pub Sleeps : SelectEnv → Type 0
Sleeps env = (i : ℕ) → env.elapsed i + 10 ≤ env.elapsed (suc i)

elapsed_bound : (env : SelectEnv) → Sleeps env → (i : ℕ) → 10 * i ≤ env.elapsed i
elapsed_bound env s zero = omega arith
elapsed_bound env s (suc i) = omega (arith, s i, elapsed_bound env s i)

-- What the loop returns: the count of a round before the timeout in which enough channels are
-- ready while none was enough before it, or 0 if the time is over first.
pub data Waited (env : SelectEnv) (timeout : ℕ) (ids : List ℕ) (threshold : ℕ)
    : ℕ → ℕ → Type 0 where
  late : (i : ℕ) → timeout ≤ env.elapsed i → Waited env timeout ids threshold i 0
  enough :
      (i : ℕ)
      → env.elapsed i < timeout
      → threshold ≤ count_ready (env.snapshot i) ids
      → Waited env timeout ids threshold i (count_ready (env.snapshot i) ids)
  again :
      (i r : ℕ)
      → env.elapsed i < timeout
      → count_ready (env.snapshot i) ids < threshold
      → Waited env timeout ids threshold (suc i) r
      → Waited env timeout ids threshold i r

-- With fuel for every round before the timeout the loop returns.
loop_returns :
    (env : SelectEnv) (timeout : ℕ) (ids : List ℕ) (threshold fuel i : ℕ)
    → Sleeps env
    → timeout + 10 ≤ 10 * (fuel + i)
    → 10 * i < timeout + 10
    → (r : ℕ) × (select_loop env timeout ids threshold fuel i ≡ some r)
      × Waited env timeout ids threshold i r
unfolding select_loop
loop_returns env timeout ids threshold zero i s h g = absurd (omega arith)
loop_returns env timeout ids threshold (suc fuel) i s h g =
    elim (Bool-cases (leb timeout (env.elapsed i))) [
      | inl over ↦ rw (over, select_loop) (0, refl, late i (leb→le _ _ over))
      | inr early ↦ elim (Bool-cases (leb threshold (count_ready (env.snapshot i) ids))) [
        | inl many ↦
            rw (early, many, select_loop) (_, refl, enough i (leb→lt _ _ early) (leb→le _ _ many))
        | inr few ↦
            let (r, e, w) =
              loop_returns env timeout ids threshold fuel (suc i) s (omega (arith, h))
                (omega (arith, elapsed_bound env s i, leb→lt _ _ early)) in
            rw (early, few, select_loop) (r, e, again i r (leb→lt _ _ early) (leb→lt _ _ few) w)
      ]
    ]

-- Where each sleep lasts at least 10 milliseconds, PassThruSelect on a set with a list returns: the
-- count of the first poll before the timeout in which at least the threshold of the channels had a
-- message, if there is such a poll and the count is not 0, and ERR_TIMEOUT otherwise.
pub select_returns :
    (c : Client) (env : SelectEnv) (set : ChannelSet) (ids : List ℕ) (select_type timeout : ℕ)
    → set.channel_count ≢ 0
    → set.channel_list ≡ some ids
    → Sleeps env
    → (c' : Client) × (r : ℕ) × (pass_thru_select c env (some set) select_type timeout
        ≡ some (c', select_status r))
      × Waited env timeout ids set.channel_threshold 0 r
unfolding pass_thru_select select_fuel select_wait
select_returns c env set ids select_type timeout n listed s =
    let (r, e, w) =
      loop_returns env timeout ids set.channel_threshold (select_fuel timeout) 0 s (omega arith)
        (omega arith) in
    rw (ne→== _ _ n, listed, e, pass_thru_select, select_wait) (_, r, refl, w)
