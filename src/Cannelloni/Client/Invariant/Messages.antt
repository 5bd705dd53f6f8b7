-- ===== src/Cannelloni/Client/Invariant/Messages.antt =====
-- PassThruReadMsgs, PassThruWriteMsgs and the receive threads keep the invariant of
-- J2534CannelloniClient.
use j2534_oip_wrapper.Prelude.{
  ℕ, suc, ◌+◌, ◌%◌, ◌<◌, refl, arith, List, [], ◌∷◌, Option-cases, inl, inr, Bool, Bool-cases, not,
  ◌&&◌, ltb, length,
}
use j2534_oip_wrapper.Prelude.Assoc.{find}
use j2534_oip_wrapper.Message.{PassThruMsg, data_capacity, WhenOk, WhenOk-bind}
use j2534_oip_wrapper.Report.{Put}
use j2534_oip_wrapper.Cannelloni.Packet.{is_invalid_msg}
use j2534_oip_wrapper.Cannelloni.Receive.{Channel}
use j2534_oip_wrapper.Cannelloni.Client.{Client, report}
use j2534_oip_wrapper.Cannelloni.Client.Valid.{
  ChannelIsValid, IsValid, PartsAreValid-update, PartsAreValid-find,
}
use j2534_oip_wrapper.Cannelloni.Client.ReadMsgs.{read_queue, read_finish, pass_thru_read_msgs}
use j2534_oip_wrapper.Cannelloni.Client.WriteMsgs.{
  WriteRun, WriteDone, WriteEnd, all_written, invalid_msg, send_error, write_loop, write_finish,
  pass_thru_write_msgs,
}

-- A channel whose queue or sequence number is replaced.
ChannelIsValid-queue :
    (port : ℕ) (ctx : Channel) (queue : List PassThruMsg)
    → ChannelIsValid port ctx
    → ChannelIsValid port (record ctx { msg_queue = queue })
ChannelIsValid-queue port ctx queue v = record {
  target = v.target;
  seq = v.seq;
  buffer_size = v.buffer_size;
  buffer_bytes = v.buffer_bytes;
}

ChannelIsValid-seq :
    (port : ℕ) (ctx : Channel) (seq : ℕ)
    → ChannelIsValid port ctx
    → seq < 256
    → ChannelIsValid port (record ctx { seq_no = seq })
ChannelIsValid-seq port ctx seq v h = record {
  target = v.target;
  seq = h;
  buffer_size = v.buffer_size;
  buffer_bytes = v.buffer_bytes;
}

pub pass_thru_read_msgs-IsValid :
    (c : Client) (channel_id : ℕ) (has_buffer : Bool) (num timeout : ℕ) (elapsed : ℕ → ℕ)
    → IsValid c
    → WhenOk
        (λ d. IsValid d.client)
        (pass_thru_read_msgs c channel_id has_buffer num timeout elapsed)
unfolding pass_thru_read_msgs read_finish report
pass_thru_read_msgs-IsValid c channel_id has_buffer num timeout elapsed v =
    elim (Option-cases (find channel_id c.channels)) [
      | inl absent ↦ rw (absent, pass_thru_read_msgs) v
      | inr (ctx, found) ↦
          elim (Bool-cases
            (not has_buffer && ltb 0 (length (read_queue timeout elapsed num ctx.msg_queue).0))) [
              | inl bad ↦ rw (found, bad, pass_thru_read_msgs) tt
              | inr good ↦
                  rw (found, good, pass_thru_read_msgs)
                    (PartsAreValid-update channel_id ctx _ v found refl (
                      ChannelIsValid-queue channel_id ctx _
                        (PartsAreValid-find channel_id ctx v found)))
            ]
    ]

pub write_loop-seq :
    (version seq : ℕ) (sends : ℕ → Bool) (i : ℕ) (ms : List PassThruMsg)
    → seq < 256
    → WhenOk (λ run. run.seq_no < 256) (write_loop version seq sends i ms)
unfolding write_loop
write_loop-seq version seq sends i [] h = h
write_loop-seq version seq sends i (m ∷ ms) h = elim (Bool-cases (ltb data_capacity m.data_size)) [
  | inl wide ↦ rw wide tt
  | inr fits ↦ elim (Bool-cases (is_invalid_msg m)) [
    | inl bad ↦ rw (fits, bad) h
    | inr good ↦ elim (Bool-cases (sends i)) [
      | inl sent_ ↦
          rw (fits, good, sent_)
            (WhenOk-bind (λ (run : WriteRun). run.seq_no < 256)
              (λ (run : WriteRun). run.seq_no < 256) _ _
              (write_loop-seq version ((seq + 1) % 256) sends (suc i) ms (omega arith))
              (λ run k. k))
      | inr failed ↦ rw (fits, good, failed) (omega arith)
    ]
  ]
]

write_finish-IsValid :
    (c : Client) (puts : List Put) (ms : List PassThruMsg) (timeout wsa_error : ℕ) (run : WriteRun)
    → IsValid c
    → WhenOk (λ d. IsValid d.client) (write_finish c puts ms timeout wsa_error run)
unfolding write_finish report
write_finish-IsValid c puts ms timeout wsa_error run v = by_end run.end
  where
    by_end :
        (e : WriteEnd)
        → WhenOk
            (λ d. IsValid d.client)
            (write_finish c puts ms timeout wsa_error (record run { end = e }))
    by_end all_written = v
    by_end invalid_msg = tt
    by_end send_error = v

pub pass_thru_write_msgs-IsValid :
    (c : Client) (channel_id : ℕ) (ms : List PassThruMsg) (timeout : ℕ) (sends : ℕ → Bool)
    (wsa_error : ℕ)
    → IsValid c
    → WhenOk (λ d. IsValid d.client) (pass_thru_write_msgs c channel_id ms timeout sends wsa_error)
unfolding pass_thru_write_msgs report
pass_thru_write_msgs-IsValid c channel_id ms timeout sends wsa_error v =
    elim (Option-cases (find channel_id c.channels)) [
      | inl absent ↦ rw (absent, pass_thru_write_msgs) v
      | inr (ctx, found) ↦
          rw (found, pass_thru_write_msgs)
            (WhenOk-bind (λ (run : WriteRun). run.seq_no < 256)
              (λ (d : WriteDone). IsValid d.client) _ _
              (write_loop-seq c.version ctx.seq_no sends 0 ms
                (PartsAreValid-find channel_id ctx v found).seq)
              (λ run h. write_finish-IsValid _ _ ms timeout wsa_error run (
                PartsAreValid-update channel_id ctx _ v found refl (
                  ChannelIsValid-seq channel_id ctx run.seq_no
                    (PartsAreValid-find channel_id ctx v found) h))))
    ]
