-- ===== src/Cannelloni/Delivery.antt =====
-- A message from PassThruWriteMsgs of one client through the receive thread of another to its
-- PassThruReadMsgs (j2534_OverIP/j2534cannelloniclient.cpp).
use j2534_oip_wrapper.Prelude.{
  ℕ, ◌+◌, ◌%◌, ◌≡◌, ◌<◌, refl, ap, ◌∙◌, List, [], ◌∷◌, ◌++◌, Bool, true, false, some, take,
}
use j2534_oip_wrapper.Prelude.Bytes.{slice}
use j2534_oip_wrapper.Prelude.Assoc.{find, assign, find-assign_same}
use j2534_oip_wrapper.Message.{PassThruMsg, ok}
use j2534_oip_wrapper.Cannelloni.Packet.{packet_bytes, frame_can_id, rx_msg}
use j2534_oip_wrapper.Cannelloni.Receive.{Channel, poll}
use j2534_oip_wrapper.Cannelloni.Receive.Datagrams.{filled}
use j2534_oip_wrapper.Cannelloni.Receive.Loopback.{Sendable, loopback}
use j2534_oip_wrapper.Cannelloni.Client.{Client}
use j2534_oip_wrapper.Cannelloni.Client.Threads.{thread_round}
use j2534_oip_wrapper.Cannelloni.Client.ReadMsgs.{ReadDone, pass_thru_read_msgs}
use j2534_oip_wrapper.Cannelloni.Client.ReadMsgs.Order.{read_takes_oldest}
use j2534_oip_wrapper.Cannelloni.Client.WriteMsgs.{WriteDone, log_sent, pass_thru_write_msgs}
use j2534_oip_wrapper.Cannelloni.Client.WriteMsgs.Sequence.{Writable, write_sends_every}

-- A round on a channel of the map.
round :
    (c : Client) (port : ℕ) (received : List ℕ) (ctx ctx' : Channel)
    → find port c.channels ≡ some ctx
    → poll c.version ctx received ≡ ok ctx'
    → thread_round c port received ≡ ok (record c { channels = assign port ctx' c.channels })
unfolding thread_round
round c port received ctx ctx' found e = rw (found, thread_round, e) refl

-- An open channel whose thread runs and whose queue is empty.
pub record Listens (c : Client) (port : ℕ) (ctx : Channel) : Type 0 where
  pub found : find port c.channels ≡ some ctx
  pub runs : ctx.running ≡ true
  pub goes_on : ctx.stop_requested ≡ false
  pub no_message : ctx.msg_queue ≡ []

-- A message with 8 bytes of data that one client writes goes out as one packet, and where that
-- packet reaches the thread of another client of the same version, whose channel has no message
-- queued, the next read there with no timeout returns one message, with the identifier of the frame
-- and the same 8 bytes.
pub message_is_delivered :
    (a b : Client) (id port timeout wsa_error : ℕ) (m : PassThruMsg) (sends : ℕ → Bool)
    (elapsed : ℕ → ℕ) (from to : Channel)
    → find id a.channels ≡ some from
    → from.seq_no < 256
    → ((j : ℕ) → sends j ≡ true)
    → Writable m
    → Sendable m
    → m.data_size ≡ 12
    → b.version ≡ a.version
    → Listens b port to
    → (d : WriteDone) × (packet : List ℕ) × (b' : Client) × (r : ReadDone) × (pass_thru_write_msgs a
          id
          (m ∷ [])
          timeout
          sends
          wsa_error
        ≡ ok d)
      × (d.client.sent ≡ (from.sockfd, packet) ∷ a.sent)
      × (thread_round b port packet ≡ ok b')
      × (pass_thru_read_msgs b' port true 1 0 elapsed ≡ ok r)
      × (r.out ≡ rx_msg (frame_can_id m) 8 (slice 4 8 m.bytes) ∷ [])
unfolding log_sent
message_is_delivered a b id port timeout wsa_error m sends elapsed from to found byte s w whole size
      same l =
    let number : ℕ = (from.seq_no + 0) % 256 in
    let packet : List ℕ = packet_bytes a.version number m in
    let received : Channel = record to {
      rx_buffer = filled to packet;
      msg_queue = to.msg_queue ++ rx_msg (frame_can_id m) 8 (slice 4 8 m.bytes) ∷ [];
    } in
    let b' : Client = record b { channels = assign port received b.channels } in
    let (d, written, status, num, sent, next) =
      write_sends_every a id (m ∷ []) timeout wsa_error sends from found byte (w, tt) s in
    let (r, read, out, left) =
      read_takes_oldest b' port 1 elapsed received (find-assign_same port received b.channels) in
    (
      d,
      packet,
      b',
      r,
      written,
      sent,
      round b port packet to received l.found (
          ap (λ v. poll v to packet) same
          ∙ loopback a.version number to m whole size l.runs l.goes_on),
      read,
      out ∙ ap (λ q. take 1 (q ++ rx_msg (frame_can_id m) 8 (slice 4 8 m.bytes) ∷ [])) l.no_message,
    )
