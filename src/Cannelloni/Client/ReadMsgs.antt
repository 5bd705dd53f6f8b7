-- ===== src/Cannelloni/Client/ReadMsgs.antt =====
-- PassThruReadMsgs and popParsedMsg of j2534_OverIP/j2534cannelloniclient.cpp.
pub mod Order
use j2534_oip_wrapper.Prelude.{
  ℕ, zero, suc, ◌+◌, List, [], ◌∷◌, ◌++◌, Bool, true, false, not, ◌&&◌, ◌||◌, Option, none, some,
  length, leb, ltb, ◌==◌, if◌then◌else◌,
}
use j2534_oip_wrapper.Prelude.Assoc.{find, assign}
use j2534_oip_wrapper.Message.{
  PassThruMsg, Result, ok, fault, null_pointer, status_noerror, err_invalid_channel_id,
  err_buffer_empty,
}
use j2534_oip_wrapper.Report.{
  Put, entry, int, msgs, fn_key, pass_thru_read_msgs as read_fn, func_name, param1, param2, param3,
  param4, rx_tx, retval_long,
}
use j2534_oip_wrapper.Cannelloni.Receive.{Channel}
use j2534_oip_wrapper.Cannelloni.Client.{Client, invalid_channel_id, report, error_entry}

-- popParsedMsg: the oldest message, if there is one, and what is left.
unfoldable pub pop_parsed_msg : List PassThruMsg → Option (PassThruMsg × List PassThruMsg)
pop_parsed_msg [] = none
pop_parsed_msg (m ∷ queue) = some (m, queue)

-- The loop with no timeout, with `n` messages still asked for: those read, and the queue.
unfoldable pub read_now : ℕ → List PassThruMsg → List PassThruMsg × List PassThruMsg
unfolding pop_parsed_msg
read_now zero queue = ([], queue)
read_now (suc n) queue = elim (pop_parsed_msg queue) [
  | none ↦ ([], queue)
  | some (m, left) ↦ let (read, rest) = read_now n left in (m ∷ read, rest)
]

-- The loop with a timeout. `elapsed i` are the milliseconds since the start in round `i`.
unfoldable pub read_until :
    ℕ → (ℕ → ℕ) → ℕ → ℕ → List PassThruMsg → List PassThruMsg × List PassThruMsg
unfolding pop_parsed_msg
read_until timeout elapsed i zero queue = ([], queue)
read_until timeout elapsed i (suc n) queue = elim (leb timeout (elapsed i)) [
  | true ↦ ([], queue)
  | false ↦ elim (pop_parsed_msg queue) [
    | none ↦ ([], queue)
    | some (m, left) ↦
        let (read, rest) = read_until timeout elapsed (suc i) n left in (m ∷ read, rest)
  ]
]

unfoldable pub read_queue : ℕ → (ℕ → ℕ) → ℕ → List PassThruMsg → List PassThruMsg × List PassThruMsg
read_queue timeout elapsed num queue =
    if timeout == 0 then read_now num queue else read_until timeout elapsed 0 num queue

-- What the function leaves behind: the state, its status, `*pNumMsgs`, and the messages written
-- through `pMsg`.
pub record ReadDone : Type 0 where
  pub client : Client
  pub status : ℕ
  pub num_msgs : ℕ
  pub out : List PassThruMsg

-- The end of the function, on the messages that the loop has read. `*pNumMsgs` is overwritten
-- before the test that reads it.
unfoldable pub read_finish : Client → List Put → List PassThruMsg → ReadDone
read_finish c puts read =
    let read_count = length read in
    let num_msgs = read_count in
    let code = if ltb 0 read_count || num_msgs == 0 then status_noerror else err_buffer_empty in
    record {
      client =
          report (record c { last_error_long = code }) read_fn
            (puts
              ++ entry param2 (msgs num_msgs read)
                ∷ entry rx_tx (int 1)
                ∷ entry retval_long (int status_noerror)
                ∷ []);
      status = code;
      num_msgs = num_msgs;
      out = read;
    }

-- The flag says that `pMsg` is not null. A null `pMsg` is skipped by the loop, and then read by
-- map_put_PASSTHRU_MSG if a message was read.
unfoldable pub pass_thru_read_msgs : Client → ℕ → Bool → ℕ → ℕ → (ℕ → ℕ) → Result ReadDone
pass_thru_read_msgs c channel_id has_buffer num timeout elapsed =
    let puts =
      entry func_name (fn_key read_fn)
      ∷ entry param1 (int channel_id)
      ∷ entry param3 (int num)
      ∷ entry param4 (int timeout)
      ∷ [] in
    elim (find channel_id c.channels) [
      | none ↦ ok (record {
        client =
            report
              (record c {
                last_error = invalid_channel_id;
                last_error_long = err_invalid_channel_id;
              })
              read_fn
              (puts
                ++ entry param2 (int 0)
                  ∷ entry rx_tx (int 0)
                  ∷ error_entry read_fn invalid_channel_id
                  ∷ []);
        status = err_invalid_channel_id;
        num_msgs = num;
        out = [];
      })
      | some ctx ↦
          let (read, rest) = read_queue timeout elapsed num ctx.msg_queue in
          let c' = record c {
            channels = assign channel_id (record ctx { msg_queue = rest }) c.channels;
          } in
          if not has_buffer && ltb 0 (length read)
          then fault null_pointer
          else ok (read_finish c' puts read)
    ]
