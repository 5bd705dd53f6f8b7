-- ===== src/Cannelloni/Receive/Stopped.antt =====
-- The end of the receive thread: a `break` of startReceiveThread's loop is final.
use j2534_oip_wrapper.Prelude.{ℕ, ◌<◌, ◌≡◌, refl, List, [], ◌∷◌, length, true, false}
use j2534_oip_wrapper.Message.{ok}
use j2534_oip_wrapper.Cannelloni.Receive.{Channel, stopped, poll, polls}
use j2534_oip_wrapper.Cannelloni.Receive.Datagrams.{Accepted, filled, receive_refused}

-- A thread that has ended takes nothing from the socket.
pub polls_stopped :
    (version : ℕ) (ctx : Channel) (ds : List (List ℕ))
    → ctx.running ≡ false
    → polls version ctx ds ≡ ok ctx
unfolding polls poll
polls_stopped version ctx [] h = refl
polls_stopped version ctx (d ∷ ds) h = simp h (polls_stopped version ctx ds h)

-- One datagram that is refused ends reception for good: whatever arrives behind it, the queue is
-- what it was before it, and the thread has ended.
pub polls_refused :
    (version : ℕ) (ctx : Channel) (received : List ℕ) (more : List (List ℕ))
    → ctx.running ≡ true
    → ctx.stop_requested ≡ false
    → 0 < length received
    → ¬ Accepted version ctx received
    → polls version ctx (received ∷ more)
      ≡ ok (stopped (record ctx { rx_buffer = filled ctx received }))
unfolding polls poll
polls_refused version ctx received more runs goes some refused =
    simp (runs, goes, receive_refused version ctx received some refused)
      (polls_stopped version _ more refl)
