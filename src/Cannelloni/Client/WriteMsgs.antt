-- ===== src/Cannelloni/Client/WriteMsgs.antt =====
-- PassThruWriteMsgs of j2534_OverIP/j2534cannelloniclient.cpp.
pub mod Sequence
pub mod Failures
use j2534_oip_wrapper.Prelude.{
  ℕ, suc, ◌+◌, ◌%◌, List, [], ◌∷◌, ◌++◌, Bool, none, some, length, take, ltb, ◌==◌, if◌then◌else◌,
}
use j2534_oip_wrapper.Prelude.Assoc.{find, assign}
use j2534_oip_wrapper.Message.{
  PassThruMsg, data_capacity, Result, ok, fault, ◌>>=◌, out_of_bounds, use_after_free,
  status_noerror, err_invalid_channel_id, err_failed,
}
use j2534_oip_wrapper.Report.{
  Put, entry, int, msgs, fn_key, pass_thru_write_msgs as write_fn, func_name, param1, param2,
  param3, param4, rx_tx,
}
use j2534_oip_wrapper.Cannelloni.Packet.{is_invalid_msg, packet_bytes}
use j2534_oip_wrapper.Cannelloni.Receive.{Channel}
use j2534_oip_wrapper.Cannelloni.Client.{
  Client, LastError, invalid_channel_id, send_failed, report, error_entry,
}

-- How the loop over the messages ends.
pub data WriteEnd : Type 0 where
  all_written invalid_msg send_error : WriteEnd

-- What the loop leaves behind: the sequence number, the datagrams handed to `sendto`, oldest
-- first, the count of those that were sent, and how it ended.
pub record WriteRun : Type 0 where
  pub seq_no : ℕ
  pub datagrams : List (List ℕ)
  pub sent_msgs : ℕ
  pub end : WriteEnd

-- The loop, from message `i` on; `sends i` says that `sendto` takes the whole datagram. The dump
-- of a message reads `DataSize` bytes of its array before any test.
unfoldable pub write_loop : ℕ → ℕ → (ℕ → Bool) → ℕ → List PassThruMsg → Result WriteRun
write_loop version seq sends i [] =
    ok (record { seq_no = seq; datagrams = []; sent_msgs = 0; end = all_written })
write_loop version seq sends i (m ∷ ms) =
    let next_seq = (seq + 1) % 256 in
    let packet = packet_bytes version seq m in
    let more = write_loop version next_seq sends (suc i) ms in
    if ltb data_capacity m.data_size
    then fault out_of_bounds
    else if is_invalid_msg m
    then ok (record { seq_no = seq; datagrams = []; sent_msgs = 0; end = invalid_msg })
    else if sends i
    then (more >>= λ run.
        ok (record run { datagrams = packet ∷ run.datagrams; sent_msgs = suc run.sent_msgs }))
    else ok (record { seq_no = next_seq; datagrams = packet ∷ []; sent_msgs = 0; end = send_error })

-- The state, the status, and `*pNumMsgs`.
pub record WriteDone : Type 0 where
  pub client : Client
  pub status : ℕ
  pub num_msgs : ℕ

-- The datagrams of a run on top of a log that is newest first.
unfoldable pub log_sent : ℕ → List (List ℕ) → List (ℕ × List ℕ) → List (ℕ × List ℕ)
log_sent fd [] log = log
log_sent fd (d ∷ ds) log = log_sent fd ds ((fd, d) ∷ log)

-- The code behind the loop. An invalid message has freed the CBOR map, which is then written.
-- After a loop to the end the count is stored before it is compared.
unfoldable pub write_finish :
    Client → List Put → List PassThruMsg → ℕ → ℕ → WriteRun → Result WriteDone
write_finish c puts ms timeout wsa_error run = elim run.end [
  | all_written ↦
      let num_msgs = run.sent_msgs in
      let code = if run.sent_msgs == num_msgs then status_noerror else err_failed in
      ok (record {
        client =
            report (record c { last_error_long = code }) write_fn
              (puts
                ++ entry param2 (msgs num_msgs (take num_msgs ms))
                  ∷ entry param3 (int num_msgs)
                  ∷ entry param4 (int timeout)
                  ∷ []);
        status = code;
        num_msgs = num_msgs;
      })
  | invalid_msg ↦ fault use_after_free
  | send_error ↦ ok (record {
    client =
        report (record c { last_error = send_failed wsa_error; last_error_long = err_failed })
          write_fn (puts ++ error_entry write_fn (send_failed wsa_error) ∷ []);
    status = err_failed;
    num_msgs = length ms;
  })
]

-- `ms` are the `*pNumMsgs` messages behind `pMsg`.
unfoldable pub pass_thru_write_msgs :
    Client → ℕ → List PassThruMsg → ℕ → (ℕ → Bool) → ℕ → Result WriteDone
unfolding log_sent
pass_thru_write_msgs c channel_id ms timeout sends wsa_error =
    let puts =
      entry func_name (fn_key write_fn)
      ∷ entry param1 (int channel_id)
      ∷ entry param3 (int (length ms))
      ∷ entry param4 (int timeout)
      ∷ entry rx_tx (int 0)
      ∷ [] in
    elim (find channel_id c.channels) [
      | none ↦ ok (record {
        client =
            report
              (record c {
                last_error = invalid_channel_id;
                last_error_long = err_invalid_channel_id;
              })
              write_fn
              (puts ++ entry param2 (int 0) ∷ error_entry write_fn invalid_channel_id ∷ []);
        status = err_invalid_channel_id;
        num_msgs = length ms;
      })
      | some ctx ↦
          (write_loop c.version ctx.seq_no sends 0 ms >>= λ run.
          write_finish
            (record c {
              channels = assign channel_id (record ctx { seq_no = run.seq_no }) c.channels;
              sent = log_sent ctx.sockfd run.datagrams c.sent;
            })
            puts ms timeout wsa_error run)
    ]
