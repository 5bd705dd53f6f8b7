-- ===== src/Cannelloni/Client/WriteMsgs/Failures.antt =====
-- The ends of PassThruWriteMsgs of j2534_OverIP/j2534cannelloniclient.cpp before the last message.
use j2534_oip_wrapper.Prelude.{
  ℕ, ◌+◌, ◌%◌, ◌≡◌, ◌<◌, refl, sym, ==_self, subst, arith, List, [], ◌∷◌, ◌++◌, Bool, true, false,
  some, length, le→ltb, All,
}
use j2534_oip_wrapper.Prelude.Assoc.{find, find-assign}
use j2534_oip_wrapper.Message.{PassThruMsg, ok, err_failed}
use j2534_oip_wrapper.Cannelloni.Packet.{packet_bytes}
use j2534_oip_wrapper.Cannelloni.Receive.{Channel}
use j2534_oip_wrapper.Cannelloni.Client.{
  Client, send_failed, report, error_entry, error_text, read_freed,
}
use j2534_oip_wrapper.Cannelloni.Client.Freed.{reads_freed-failure}
use j2534_oip_wrapper.Report.{pass_thru_write_msgs as write_fn}
use j2534_oip_wrapper.Cannelloni.Client.WriteMsgs.{
  WriteRun, WriteDone, send_error, write_loop, write_finish, log_sent, pass_thru_write_msgs,
}
use j2534_oip_wrapper.Cannelloni.Client.WriteMsgs.Sequence.{
  Writable, numbered_packets, write_loop_front, writes,
}

-- The numbers of the first message and of the one behind `front`.
at_start :
    (version seq : ℕ) (sends : ℕ → Bool) (front rest : List PassThruMsg) (run : WriteRun)
    → seq < 256
    → All Writable front
    → ((j : ℕ) → j < length front → sends j ≡ true)
    → write_loop version ((seq + length front) % 256) sends (length front) rest ≡ ok run
    → write_loop version seq sends 0 (front ++ rest)
      ≡ ok (record run {
        datagrams = numbered_packets version seq 0 front ++ run.datagrams;
        sent_msgs = length front + run.sent_msgs;
      })
at_start version seq sends front rest run byte w s e =
    let start : (seq + 0) % 256 ≡ seq = omega arith in
    let none_before : 0 + length front ≡ length front = omega arith in
    rw start at (
      write_loop_front version seq 0 sends front rest run w (λ j h. s j (omega (arith, h)))
        (subst (λ n. write_loop version ((seq + n) % 256) sends n rest ≡ ok run) (sym none_before)
          e))

-- A datagram that is not sent, behind messages that all were: the function makes its report of a
-- text that has been freed. If that read does no harm it returns ERR_FAILED and records it, sends
-- nothing more, and leaves `*pNumMsgs` as the caller set it; the messages in front are sent, and the
-- sequence number of the channel has passed the failed one.
pub write_send_failure :
    (c : Client) (id : ℕ) (front rest : List PassThruMsg) (m : PassThruMsg) (timeout wsa_error : ℕ)
    (sends : ℕ → Bool) (ctx : Channel)
    → find id c.channels ≡ some ctx
    → ctx.seq_no < 256
    → All Writable front
    → Writable m
    → ((j : ℕ) → j < length front → sends j ≡ true)
    → sends (length front) ≡ false
    → (d : WriteDone) × (pass_thru_write_msgs c id (front ++ m ∷ rest) timeout sends wsa_error
        ≡ ok d)
      × (d.status ≡ err_failed)
      × (d.num_msgs ≡ length (front ++ m ∷ rest))
      × (d.client.last_error ≡ send_failed wsa_error)
      × (d.client.last_error_long ≡ err_failed)
      × (find id d.client.channels
          ≡ some (record ctx { seq_no = (ctx.seq_no + length front + 1) % 256 }))
      × (read_freed d.client ≡ true)
      × (d.client.sent
          ≡ log_sent ctx.sockfd
              (numbered_packets c.version ctx.seq_no 0 front
                ++ packet_bytes c.version ((ctx.seq_no + length front) % 256) m ∷ [])
              c.sent)
unfolding write_finish write_loop report read_freed error_entry
write_send_failure c id front rest m timeout wsa_error sends ctx found byte w good s fails =
    let (puts, e) =
      writes c id (front ++ m ∷ rest) timeout wsa_error sends ctx _ found
        (at_start c.version ctx.seq_no sends front (m ∷ rest) _ byte w s ends) in
    (
      _,
      e,
      refl,
      refl,
      refl,
      refl,
      rw
          (
            find-assign id id
                (record ctx { seq_no = ((ctx.seq_no + length front) % 256 + 1) % 256 }) c.channels,
            ==_self id,
            passed,
          )
          refl,
      reads_freed-failure puts write_fn (error_text (send_failed wsa_error)),
      refl,
    )
  where
    passed : ((ctx.seq_no + length front) % 256 + 1) % 256 ≡ (ctx.seq_no + length front + 1) % 256
    passed = omega arith

    ends :
        write_loop c.version ((ctx.seq_no + length front) % 256) sends (length front) (m ∷ rest)
        ≡ ok (record {
          seq_no = ((ctx.seq_no + length front) % 256 + 1) % 256;
          datagrams = packet_bytes c.version ((ctx.seq_no + length front) % 256) m ∷ [];
          sent_msgs = 0;
          end = send_error;
        })
    ends = rw (le→ltb _ _ good.in_array, good.is_can, fails) refl
