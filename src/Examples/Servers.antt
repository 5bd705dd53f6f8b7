-- ===== src/Examples/Servers.antt =====
-- Examples of the older socket server and of the cells of the monitoring application's lists.
use j2534_oip_wrapper.Prelude.{ℕ, ◌≡◌, ◌<◌, ◌⊎◌, refl, List, [], ◌∷◌, Option, none, some, length}
use j2534_oip_wrapper.Message.{ok, fault, out_of_bounds}
use j2534_oip_wrapper.Sockets.{new_server, init_server, accept_round, recv_round}
use j2534_oip_wrapper.Sockets.Rounds.{
  start, next, init_step, accept_step, recv_step, client_never_connects,
}
use j2534_oip_wrapper.Monitor.Roles.{Stands, invalid, number, cell_at, cell_at-rows}

-- Winsock's answer: no socket, no connection.
abbrev accept : Option ℕ → Option ℕ
accept none = none
accept (some fd) = some 9

-- The server is opened, and both threads make a round.
client_never_connects_example :
    ((accept_round accept (init_server (some 5) (new_server []))).client_fd ≡ none)
    × ((accept_round accept (init_server (some 5) (new_server []))).recv_buffer ≡ [])
unfolding recv_round accept_round init_server new_server
client_never_connects_example =
    client_never_connects accept [] (accept_round accept (init_server (some 5) (new_server [])))
      refl
      (next _ _ (next _ _ (next _ _ start (init_step (some 5))) accept_step)
        (recv_step 7 none none _ refl))

abbrev rows : List ℕ
rows = 10 ∷ 11 ∷ []

-- The row behind the last one.
cell_at-rows_example :
    ((a : ℕ) × (cell_at (λ n. ok (number n)) rows 2 ≡ ok (number a)) × Stands rows 2 a)
    ⊎ ((cell_at (λ n. ok (number n)) rows 2 ≡ fault out_of_bounds) × (2 ≡ length rows))
    ⊎ ((cell_at (λ n. ok (number n)) rows 2 ≡ ok invalid) × (length rows < 2))
cell_at-rows_example = cell_at-rows (λ n. ok (number n)) rows 2
