-- ===== src/Cannelloni/Client/WriteMsgs/Sequence.antt =====
-- The datagrams that PassThruWriteMsgs of j2534_OverIP/j2534cannelloniclient.cpp sends, and its
-- ends.
use native.Mathlib.Numerals.{unary_clauses}
use j2534_oip_wrapper.Prelude.{
  ℕ, suc, ◌+◌, ◌%◌, ◌≡◌, ◌≤◌, ◌<◌, refl, ap, ◌∙◌, arith, List, [], ◌∷◌, ◌++◌, Bool, true, false,
  some, length, le→ltb, if◌then◌else◌, All, ==_self,
}
use j2534_oip_wrapper.Prelude.Assoc.{find, assign, find-assign_same}
use j2534_oip_wrapper.Message.{PassThruMsg, data_capacity, ok, status_noerror, err_failed}
use j2534_oip_wrapper.Report.{Put}
use j2534_oip_wrapper.Cannelloni.Packet.{is_invalid_msg, packet_bytes}
use j2534_oip_wrapper.Cannelloni.Receive.{Channel}
use j2534_oip_wrapper.Cannelloni.Client.{Client, report}
use j2534_oip_wrapper.Cannelloni.Client.WriteMsgs.{
  WriteRun, WriteDone, all_written, write_loop, write_finish, log_sent, pass_thru_write_msgs,
}

-- A message that the loop neither refuses nor reads past the end of.
pub record Writable (m : PassThruMsg) : Type 0 where
  pub in_array : m.data_size ≤ data_capacity
  pub is_can : is_invalid_msg m ≡ false

-- The packets of messages with consecutive numbers, from the `i`-th on.
abbrev pub numbered_packets : ℕ → ℕ → ℕ → List PassThruMsg → List (List ℕ)
numbered_packets version seq i [] = []
numbered_packets version seq i (m ∷ ms) =
    packet_bytes version ((seq + i) % 256) m ∷ numbered_packets version seq (suc i) ms

-- The loop over messages that are writable, up to message `n` of a send that fails or to the end.
write_loop_whole :
    (version seq i : ℕ) (sends : ℕ → Bool) (ms : List PassThruMsg)
    → All Writable ms
    → ((j : ℕ) → sends j ≡ true)
    → write_loop version ((seq + i) % 256) sends i ms
      ≡ ok (record {
        seq_no = (seq + (i + length ms)) % 256;
        datagrams = numbered_packets version seq i ms;
        sent_msgs = length ms;
        end = all_written;
      })
unfolding write_loop
write_loop_whole version seq i sends [] w s = simp unary_clauses refl
write_loop_whole version seq i sends (m ∷ ms) w s =
    let next : ((seq + i) % 256 + 1) % 256 ≡ (seq + suc i) % 256 = omega arith in
    let shift : i + suc (length ms) ≡ suc i + length ms = omega arith in
    rw
      (
        le→ltb _ _ w.0.in_array,
        w.0.is_can,
        s i,
        next,
        write_loop_whole version seq (suc i) sends ms w.1 s,
        shift,
      )
      refl

write_loop_start :
    (version seq : ℕ) (sends : ℕ → Bool) (ms : List PassThruMsg)
    → seq < 256
    → All Writable ms
    → ((j : ℕ) → sends j ≡ true)
    → write_loop version seq sends 0 ms
      ≡ ok (record {
        seq_no = (seq + length ms) % 256;
        datagrams = numbered_packets version seq 0 ms;
        sent_msgs = length ms;
        end = all_written;
      })
write_loop_start version seq sends ms byte w s =
    let start : (seq + 0) % 256 ≡ seq = omega arith in
    let none_before : 0 + length ms ≡ length ms = omega arith in
    rw (start, none_before) at (write_loop_whole version seq 0 sends ms w s)

-- What the code behind the loop makes of a loop to the end.
finished :
    (c : Client) (puts : List Put) (ms : List PassThruMsg) (timeout wsa_error : ℕ) (seq : ℕ)
    (packets : List (List ℕ)) (n : ℕ)
    → (d : WriteDone) × (write_finish c puts ms timeout wsa_error
          (record { seq_no = seq; datagrams = packets; sent_msgs = n; end = all_written })
        ≡ ok d)
      × (d.status ≡ status_noerror)
      × (d.num_msgs ≡ n)
      × (d.client.sent ≡ c.sent)
      × (d.client.channels ≡ c.channels)
unfolding write_finish report
finished c puts ms timeout wsa_error seq packets n = (
  _,
  refl,
  ap (λ (b : Bool). if b then status_noerror else err_failed) (==_self n),
  refl,
  refl,
  refl,
)

-- The state that the code behind the loop starts from.
abbrev pub after_loop : Client → ℕ → Channel → ℕ → List (List ℕ) → Client
after_loop c id ctx seq packets = record c {
  channels = assign id (record ctx { seq_no = seq }) c.channels;
  sent = log_sent ctx.sockfd packets c.sent;
}

-- The function on a known channel.
pub writes :
    (c : Client) (id : ℕ) (ms : List PassThruMsg) (timeout wsa_error : ℕ) (sends : ℕ → Bool)
    (ctx : Channel) (run : WriteRun)
    → find id c.channels ≡ some ctx
    → write_loop c.version ctx.seq_no sends 0 ms ≡ ok run
    → (puts : List Put) × (pass_thru_write_msgs c id ms timeout sends wsa_error
        ≡ write_finish (after_loop c id ctx run.seq_no run.datagrams) puts ms timeout wsa_error run)
unfolding pass_thru_write_msgs
writes c id ms timeout wsa_error sends ctx run found loop =
    rw (found, loop, pass_thru_write_msgs) (_, refl)

-- On an open channel, when every message is a well-formed CAN message and every datagram is sent,
-- PassThruWriteMsgs returns STATUS_NOERROR and the number of messages, has sent one packet for
-- each in their order, with consecutive sequence numbers modulo 256 from the channel's on, and the
-- channel's number has moved on by as many.
pub write_sends_every :
    (c : Client) (id : ℕ) (ms : List PassThruMsg) (timeout wsa_error : ℕ) (sends : ℕ → Bool)
    (ctx : Channel)
    → find id c.channels ≡ some ctx
    → ctx.seq_no < 256
    → All Writable ms
    → ((j : ℕ) → sends j ≡ true)
    → (d : WriteDone) × (pass_thru_write_msgs c id ms timeout sends wsa_error ≡ ok d)
      × (d.status ≡ status_noerror)
      × (d.num_msgs ≡ length ms)
      × (d.client.sent ≡ log_sent ctx.sockfd (numbered_packets c.version ctx.seq_no 0 ms) c.sent)
      × (find id d.client.channels ≡ some (record ctx { seq_no = (ctx.seq_no + length ms) % 256 }))
write_sends_every c id ms timeout wsa_error sends ctx found byte w s =
    let (puts, e) =
      writes c id ms timeout wsa_error sends ctx _ found
        (write_loop_start c.version ctx.seq_no sends ms byte w s) in
    let (d, e', status, num, sent_, channels) =
      finished (after_loop c id ctx _ _) puts ms timeout wsa_error _ _ (length ms) in
    (d, e ∙ e', status, num, sent_, ap (find id) channels ∙ find-assign_same id _ c.channels)

-- The loop over writable messages that all go out, up to a message at which it ends otherwise.
pub write_loop_front :
    (version seq i : ℕ) (sends : ℕ → Bool) (front rest : List PassThruMsg) (run : WriteRun)
    → All Writable front
    → ((j : ℕ) → j < i + length front → sends j ≡ true)
    → write_loop version ((seq + (i + length front)) % 256) sends (i + length front) rest ≡ ok run
    → write_loop version ((seq + i) % 256) sends i (front ++ rest)
      ≡ ok (record run {
        datagrams = numbered_packets version seq i front ++ run.datagrams;
        sent_msgs = length front + run.sent_msgs;
      })
unfolding write_loop
write_loop_front version seq i sends [] rest run w s e =
    let here : i + 0 ≡ i = omega arith in
    let count : run.sent_msgs ≡ 0 + run.sent_msgs = omega arith in
    rw here at e ∙ ap (λ (n : ℕ). ok (record run { sent_msgs = n })) count
write_loop_front version seq i sends (m ∷ front) rest run w s e =
    let next : ((seq + i) % 256 + 1) % 256 ≡ (seq + suc i) % 256 = omega arith in
    let shift : i + suc (length front) ≡ suc i + length front = omega arith in
    let ih =
      write_loop_front version seq (suc i) sends front rest run w.1 (λ j h. s j (omega (arith, h)))
        (rw shift at e) in
    let count : suc (length front + run.sent_msgs) ≡ suc (length front) + run.sent_msgs =
      omega arith in
    rw (le→ltb _ _ w.0.in_array, w.0.is_can, s i (omega arith), next, ih)
      (ap
        (λ (n : ℕ). ok (record run {
          datagrams = numbered_packets version seq i (m ∷ front) ++ run.datagrams;
          sent_msgs = n;
        }))
        count)
