-- ===== src/Sockets/Rounds.antt =====
-- Runs of the older socket server (j2534_OverIP/exj2534oipsocks.cpp): its functions and the rounds
-- of its threads in any order.
use j2534_oip_wrapper.Prelude.{ℕ, ◌≡◌, sym, subst, ap, ◌∙◌, refl, List, [], Option, none, some}
use j2534_oip_wrapper.Message.{Result, ok, WhenOk}
use j2534_oip_wrapper.Sockets.{
  connected_round, Server, new_server, init_server, close_client, close_server, reset_buffer,
  accept_round, recv_round,
}

-- One call, or one round of a thread that ends.
pub data Step (accept : Option ℕ → Option ℕ) (s : Server) : Server → Type 0 where
  init_step : (socket : Option ℕ) → Step accept s (init_server socket s)
  close_client_step : Step accept s (close_client s)
  close_server_step : Step accept s (close_server s)
  reset_step : Step accept s (reset_buffer s)
  accept_step : Step accept s (accept_round accept s)
  recv_step :
      (now : ℕ) (header payload : Option (List ℕ)) (s' : Server)
      → recv_round now header payload s ≡ ok s'
      → Step accept s s'

pub data Runs (accept : Option ℕ → Option ℕ) (s : Server) : Server → Type 0 where
  start : Runs accept s s
  next : (t u : Server) → Runs accept s t → Step accept t u → Runs accept s u

-- No client and no message.
pub record Idle (s : Server) : Type 0 where
  pub no_client : s.client_fd ≡ none
  pub no_msgs : s.recv_buffer ≡ []

recv_round-client :
    (now : ℕ) (header payload : Option (List ℕ)) (s : Server) (c : Option ℕ)
    → s.client_fd ≡ c
    → recv_round now header payload s ≡ elim c as (λ _. Result Server) [
      | none ↦ ok s
      | some fd ↦ connected_round now header payload s
    ]
unfolding recv_round
recv_round-client now header payload s c h =
    ap
      (λ fd. elim fd as (λ _. Result Server) [
        | none ↦ ok s
        | some fd ↦ connected_round now header payload s
      ])
      h

accept_round-none :
    (accept : Option ℕ → Option ℕ) (s : Server)
    → accept none ≡ none
    → s.client_fd ≡ none
    → accept_round accept s ≡ record s { client_fd = none }
unfolding accept_round
accept_round-none accept s refuses h =
    ap
      (λ answer. elim answer as (λ _. Server) [
        | none ↦ record s { client_fd = none }
        | some fd ↦ reset_buffer (record s { client_fd = some fd })
      ])
      (ap accept h ∙ refuses)

Step-Idle :
    (accept : Option ℕ → Option ℕ) (s s' : Server)
    → accept none ≡ none
    → Step accept s s'
    → Idle s
    → Idle s'
unfolding init_server close_client close_server reset_buffer
Step-Idle accept s _ refuses (init_step socket) h = record {
  no_client = h.no_client;
  no_msgs = h.no_msgs;
}
Step-Idle accept s _ refuses close_client_step h = record { no_client = refl; no_msgs = h.no_msgs }
Step-Idle accept s _ refuses close_server_step h = record {
  no_client = h.no_client;
  no_msgs = h.no_msgs;
}
Step-Idle accept s _ refuses reset_step h = record { no_client = h.no_client; no_msgs = refl }
Step-Idle accept s _ refuses accept_step h =
    subst Idle (sym (accept_round-none accept s refuses h.no_client))
      (record { no_client = refl; no_msgs = h.no_msgs })
Step-Idle accept s s' refuses (recv_step now header payload _ e) h =
    subst (λ r. WhenOk Idle r) (sym (recv_round-client now header payload s none h.no_client) ∙ e) h

Runs-Idle :
    (accept : Option ℕ → Option ℕ) (stack : List ℕ) (s : Server)
    → accept none ≡ none
    → Runs accept (new_server stack) s
    → Idle s
unfolding new_server
Runs-Idle accept stack _ refuses start = record { no_client = refl; no_msgs = refl }
Runs-Idle accept stack s refuses (next t _ runs step) =
    Step-Idle accept t s refuses step (Runs-Idle accept stack t refuses runs)

-- Whatever the functions of the server and the rounds of its threads do, in any order, no client is
-- ever connected and no message is received: the thread asks `accept` for the descriptor of the
-- client, which is -1 at first, and `accept` refuses that.
pub client_never_connects :
    (accept : Option ℕ → Option ℕ) (stack : List ℕ) (s : Server)
    → accept none ≡ none
    → Runs accept (new_server stack) s
    → (s.client_fd ≡ none) × (s.recv_buffer ≡ [])
client_never_connects accept stack s refuses runs =
    let idle = Runs-Idle accept stack s refuses runs in (idle.no_client, idle.no_msgs)
