-- ===== src/Cannelloni/Receive.antt =====
-- A channel and its receive thread: ChannelContext of j2534_OverIP/j2534cannelloniclient.h, and
-- startReceiveThread of j2534_OverIP/j2534cannelloniclient.cpp, one round of whose loop is `poll`.
pub mod Bounds
pub mod Datagrams
pub mod Safety
pub mod Loopback
pub mod Stopped
use j2534_oip_wrapper.Prelude.{
  ℕ, ◌-◌, ◌*◌, ◌≡◌, List, [], ◌∷◌, ◌++◌, Bool, true, false, not, length, is_empty, drop, ltb, ◌==◌,
  if◌then◌else◌,
}
use j2534_oip_wrapper.Message.{PassThruMsg, Result, ok, fault, ◌>>=◌}
use j2534_oip_wrapper.Cannelloni.Packet.{header_size, frame_size, read_header, read_frames}

abbrev pub max_packet_size : ℕ
max_packet_size = 1500

-- sockaddr_in: port (in host order) and address.
pub record SockAddr : Type 0 where
  pub port : ℕ
  pub addr : ℕ

-- `running` says that the receive thread is in its loop; `rx_buffer` is the thread's array.
pub record Channel : Type 0 where
  pub sockfd : ℕ
  pub target_addr : SockAddr
  pub running : Bool
  pub stop_requested : Bool
  pub seq_no : ℕ
  pub msg_queue : List PassThruMsg
  pub rx_buffer : List ℕ

-- `break` leaves the thread's loop: the thread ends.
abbrev pub stopped : Channel → Channel
stopped ctx = record ctx { running = false }

-- What `recv` puts at the front of the buffer; the rest keeps what it held.
unfoldable pub fill_buffer : List ℕ → List ℕ → List ℕ
fill_buffer received buffer = received ++ drop (length received) buffer

-- The reaction to the bytes that `recv` returned; none stands for a result that is not positive.
unfoldable pub receive : ℕ → Channel → List ℕ → Result Channel
receive version ctx received =
    let buffer = fill_buffer received ctx.rx_buffer in
    let filled = record ctx { rx_buffer = buffer } in
    let pkt = read_header buffer in
    if is_empty received
    then ok ctx
    else if ltb (length received) header_size
    then ok (stopped filled)
    else if not (pkt.version == version)
    then ok (stopped filled)
    else if ltb (length received - header_size) (pkt.count * frame_size)
    then ok (stopped filled)
    else (read_frames buffer pkt.count header_size >>= λ msgs.
        ok (record filled { msg_queue = ctx.msg_queue ++ msgs }))

-- One round of the loop; no bytes also when `select` times out.
unfoldable pub poll : ℕ → Channel → List ℕ → Result Channel
poll version ctx received =
    if not ctx.running
    then ok ctx
    else if ctx.stop_requested
    then ok (stopped ctx)
    else receive version ctx received

-- A thread that runs and is not asked to stop reads.
pub poll_running :
    (version : ℕ) (ctx : Channel) (received : List ℕ)
    → ctx.running ≡ true
    → ctx.stop_requested ≡ false
    → poll version ctx received ≡ receive version ctx received
unfolding poll
poll_running version ctx received runs goes = simp (runs, goes)

-- Rounds in a row.
unfoldable pub polls : ℕ → Channel → List (List ℕ) → Result Channel
polls version ctx [] = ok ctx
polls version ctx (received ∷ more) = poll version ctx received >>= λ ctx'. polls version ctx' more
