-- ===== src/Pipe/Connect.antt =====
-- ExPipeClient::connect (j2534_OverIP/expipeclient.cpp): the attempts to open the named pipe, and
-- the start of the monitoring application when the pipe does not exist.
use j2534_oip_wrapper.Prelude.{ℕ, zero, suc, ◌+◌, ◌*◌, ◌≤◌, ◌≡◌, refl, arith, Bool, true, false}

-- What the registry and CreateProcess answer: no key can be opened, the key has no path of the
-- application, the application cannot be started, or it is started.
pub data Launch : Type 0 where
  no_key no_path start_fails started : Launch

-- What CreateFile answers: a handle, that the pipe does not exist, that it is busy, or another error.
pub data Opening : Type 0 where
  opened : Opening
  not_found : Launch → Opening
  busy other_error : Opening

-- The result, the calls of CreateFile, the started applications, and the seconds of sleep.
pub record Connection : Type 0 where
  pub connected : Bool
  pub attempts : ℕ
  pub launches : ℕ
  pub slept : ℕ

abbrev tried : Bool → Connection
tried connected = record { connected = connected; attempts = 1; launches = 0; slept = 0 }

-- An attempt that sleeps for 10 seconds, with what follows.
abbrev waited : ℕ → Connection → Connection
waited launches rest = record rest {
  attempts = suc rest.attempts;
  launches = launches + rest.launches;
  slept = 10 + rest.slept;
}

-- The loop, from an attempt on with so many left. `pipe attempt` is what CreateFile answers.
unfoldable pub connect_loop : ℕ → ℕ → (ℕ → Opening) → Connection
connect_loop zero attempt pipe = record { connected = false; attempts = 0; launches = 0; slept = 0 }
connect_loop (suc left) attempt pipe =
    let rest = connect_loop left (suc attempt) pipe in
    elim (pipe attempt) [
      | opened ↦ tried true
      | busy ↦ waited 0 rest
      | other_error ↦ tried false
      | not_found launch ↦ elim launch [
        | start_fails ↦ tried false
        | started ↦ waited 1 rest
        | no_key ↦ waited 0 rest
        | no_path ↦ waited 0 rest
      ]
    ]

abbrev pub max_attempts : ℕ
max_attempts = 3

unfoldable pub connect : (ℕ → Opening) → Connection
unfolding connect_loop
connect pipe = connect_loop max_attempts 0 pipe

connect_loop-bounds :
    (left attempt : ℕ) (pipe : ℕ → Opening)
    → let c = connect_loop left attempt pipe in
      (c.attempts ≤ left) × (c.launches ≤ c.attempts) × (c.slept ≤ 10 * c.attempts)
unfolding connect_loop
connect_loop-bounds zero attempt pipe = (omega arith, omega arith, omega arith)
connect_loop-bounds (suc left) attempt pipe =
    ground (arith, connect_loop-bounds left (suc attempt) pipe)

-- Connecting makes at most three attempts, starts the application at most once for each, and sleeps
-- for at most ten seconds after each.
pub connect-bounds :
    (pipe : ℕ → Opening)
    → let c = connect pipe in
      (c.attempts ≤ 3) × (c.launches ≤ c.attempts) × (c.slept ≤ 10 * c.attempts)
unfolding connect
connect-bounds pipe = connect_loop-bounds 3 0 pipe

-- A pipe that never appears although the application is started each time: three applications run
-- and half a minute has passed.
pub connect-restarts :
    (pipe : ℕ → Opening)
    → ((attempt : ℕ) → pipe attempt ≡ not_found started)
    → connect pipe ≡ record { connected = false; attempts = 3; launches = 3; slept = 30 }
unfolding connect connect_loop
connect-restarts pipe h = rw (h 0, h 1, h 2) refl
