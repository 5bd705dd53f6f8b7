-- ===== src/Examples/Transfer.antt =====
-- Examples of reading and writing messages.
use j2534_oip_wrapper.Prelude.{
  ℕ, ◌+◌, ◌%◌, ◌≡◌, ◌≤◌, ◌<◌, refl, arith, List, [], ◌∷◌, ◌++◌, true, some, length, ltb, lt→ltb,
}
use j2534_oip_wrapper.Prelude.Assoc.{find}
use j2534_oip_wrapper.Message.{PassThruMsg, ok, status_noerror, err_failed}
use j2534_oip_wrapper.Cannelloni.Packet.{is_invalid_msg, packet_bytes}
use j2534_oip_wrapper.Cannelloni.Client.{read_freed, Client, send_failed}
use j2534_oip_wrapper.Cannelloni.Client.ReadMsgs.{ReadDone, pass_thru_read_msgs}
use j2534_oip_wrapper.Cannelloni.Client.ReadMsgs.Order.{read_in_parts, read_in_order}
use j2534_oip_wrapper.Cannelloni.Client.WriteMsgs.{WriteDone, log_sent, pass_thru_write_msgs}
use j2534_oip_wrapper.Cannelloni.Client.WriteMsgs.Sequence.{
  Writable, numbered_packets, write_sends_every,
}
use j2534_oip_wrapper.Cannelloni.Client.WriteMsgs.Failures.{write_send_failure}
use j2534_oip_wrapper.Prelude.Bytes.{slice}
use j2534_oip_wrapper.Cannelloni.Packet.{frame_can_id, rx_msg}
use j2534_oip_wrapper.Cannelloni.Receive.{Channel}
use j2534_oip_wrapper.Cannelloni.Client.Threads.{thread_round}
use j2534_oip_wrapper.Cannelloni.Delivery.{Listens, message_is_delivered}
use j2534_oip_wrapper.Examples.{
  request-Sendable, empty_client, channel, busy_client, request, short_request,
}

found : find 20001 busy_client.channels ≡ some channel
unfolding find
found = refl

read_in_order_example :
    (d : ReadDone) × (rest : List PassThruMsg) × (pass_thru_read_msgs busy_client 20001 true 1 100
        (λ i. 30 + i)
      ≡ ok d)
    × (find 20001 d.client.channels ≡ some (record channel { msg_queue = rest }))
    × (d.out ++ rest ≡ request ∷ short_request ∷ [])
    × (length d.out ≤ 1)
    × (d.num_msgs ≡ length d.out)
    × (d.status ≡ status_noerror)
read_in_order_example = read_in_order busy_client 20001 1 100 (λ i. 30 + i) channel found

request-Writable : Writable request
unfolding is_invalid_msg
request-Writable = record { in_array = omega arith; is_can = refl }

short_request-Writable : Writable short_request
unfolding is_invalid_msg
short_request-Writable = record { in_array = omega arith; is_can = refl }

-- Two packets, numbered 255 and 0.
write_sends_every_example :
    (d : WriteDone) × (pass_thru_write_msgs busy_client 20001
        (request ∷ short_request ∷ [])
        0
        (λ i. true)
        0
      ≡ ok d)
    × (d.status ≡ status_noerror)
    × (d.num_msgs ≡ 2)
    × (d.client.sent ≡ log_sent 5 (numbered_packets 1 255 0 (request ∷ short_request ∷ [])) [])
    × (find 20001 d.client.channels ≡ some (record channel { seq_no = 1 }))
write_sends_every_example =
    write_sends_every busy_client 20001 (request ∷ short_request ∷ []) 0 0 (λ i. true) channel found
      (omega arith) (request-Writable, (short_request-Writable, tt)) (λ j. refl)

-- The first send succeeds, every later one fails.
only_first : (j : ℕ) → j < 1 → ltb j 1 ≡ true
only_first j h = lt→ltb j 1 h

write_send_failure_example :
    (d : WriteDone) × (pass_thru_write_msgs busy_client 20001
        (request ∷ request ∷ short_request ∷ [])
        0
        (λ i. ltb i 1)
        10054
      ≡ ok d)
    × (d.status ≡ err_failed)
    × (d.num_msgs ≡ 3)
    × (d.client.last_error ≡ send_failed 10054)
    × (d.client.last_error_long ≡ err_failed)
    × (find 20001 d.client.channels ≡ some (record channel { seq_no = 1 }))
    × (read_freed d.client ≡ true)
    × (d.client.sent
        ≡ log_sent 5
            (numbered_packets 1 255 0 (request ∷ [])
              ++ packet_bytes 1 ((255 + 1) % 256) request ∷ [])
            [])
write_send_failure_example =
    write_send_failure busy_client 20001 (request ∷ []) (short_request ∷ []) request 0 10054
      (λ i. ltb i 1) channel found (omega arith) (request-Writable, tt) request-Writable only_first
      refl

-- A client that listens on port 20000, with nothing received so far.
abbrev listening : Channel
listening = record channel { msg_queue = [] }

abbrev listener : Client
listener = record empty_client { channels = (20000, listening) ∷ [] }

listener-Listens : Listens listener 20000 listening
unfolding find
listener-Listens = record { found = refl; runs = refl; goes_on = refl; no_message = refl }

message_is_delivered_example :
    (d : WriteDone) × (packet : List ℕ) × (b' : Client) × (r : ReadDone) × (pass_thru_write_msgs
        busy_client 20001
        (request ∷ [])
        0
        (λ i. true)
        0
      ≡ ok d)
    × (d.client.sent ≡ (5, packet) ∷ [])
    × (thread_round listener 20000 packet ≡ ok b')
    × (pass_thru_read_msgs b' 20000 true 1 0 (λ i. i) ≡ ok r)
    × (r.out ≡ rx_msg (frame_can_id request) 8 (slice 4 8 request.bytes) ∷ [])
message_is_delivered_example =
    message_is_delivered busy_client listener 20001 20000 0 0 request (λ i. true) (λ i. i) channel
      listening found (omega arith) (λ j. refl) request-Writable request-Sendable refl refl
      listener-Listens

read_in_parts_example :
    (d d' whole : ReadDone) × (pass_thru_read_msgs busy_client 20001 true 1 0 (λ i. i) ≡ ok d)
    × (pass_thru_read_msgs d.client 20001 true 3 0 (λ i. i) ≡ ok d')
    × (pass_thru_read_msgs busy_client 20001 true (1 + 3) 0 (λ i. i) ≡ ok whole)
    × (d.out ++ d'.out ≡ whole.out)
read_in_parts_example = read_in_parts busy_client 20001 1 3 (λ i. i) channel found
