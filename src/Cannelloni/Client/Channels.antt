-- ===== src/Cannelloni/Client/Channels.antt =====
-- PassThruClose, PassThruConnect and PassThruDisconnect of
-- j2534_OverIP/j2534cannelloniclient.cpp.
use j2534_oip_wrapper.Prelude.{ℕ, [], ◌∷◌, ◌++◌, Option, none, some}
use j2534_oip_wrapper.Prelude.Assoc.{find, erase}
use j2534_oip_wrapper.Message.{status_noerror, err_invalid_device_id}
use j2534_oip_wrapper.Report.{
  entry, int, fn_key, pass_thru_close as close_fn, pass_thru_connect as connect_fn,
  pass_thru_disconnect as disconnect_fn, func_name, param1, param2, param3, param4, param5,
  retval_long,
}
use j2534_oip_wrapper.Cannelloni.Client.{
  Client, device_id_not_found, invalid_device_id, report, error_entry,
}
use j2534_oip_wrapper.Cannelloni.Client.Open.{close_socket}

-- The channel's thread is asked to stop and joined, after one byte to the loopback address has
-- woken it; then the socket is closed and the entry erased. The error path leaves `lastErrorLong`.
unfoldable pub pass_thru_close : Client → ℕ → Client × ℕ
pass_thru_close c device_id =
    let puts = entry func_name (fn_key close_fn) ∷ entry param1 (int device_id) ∷ [] in
    elim (find device_id c.channels) [
      | none ↦ (
        report (record c { last_error = device_id_not_found }) close_fn
            (puts ++ error_entry close_fn device_id_not_found ∷ []),
        err_invalid_device_id,
      )
      | some ctx ↦ (
        report
            (close_socket
              (record c {
                sent = (ctx.sockfd, 0 ∷ []) ∷ c.sent;
                channels = erase device_id c.channels;
              })
              ctx.sockfd)
            close_fn (puts ++ entry retval_long (int status_noerror) ∷ []),
        status_noerror,
      )
    ]

-- The last result is the channel that is written through `pChannelID`, if any.
unfoldable pub pass_thru_connect : Client → ℕ → ℕ → ℕ → ℕ → Client × ℕ × Option ℕ
pass_thru_connect c device_id protocol_id flags baudrate =
    let puts =
      entry func_name (fn_key connect_fn)
      ∷ entry param1 (int device_id)
      ∷ entry param2 (int protocol_id)
      ∷ entry param3 (int flags)
      ∷ entry param4 (int baudrate)
      ∷ entry param5 (int device_id)
      ∷ [] in
    elim (find device_id c.channels) [
      | none ↦ (
        report
            (record c { last_error = invalid_device_id; last_error_long = err_invalid_device_id })
            connect_fn (puts ++ error_entry connect_fn invalid_device_id ∷ []),
        err_invalid_device_id,
        none,
      )
      | some ctx ↦ (
        report (record c { last_error_long = status_noerror }) connect_fn
            (puts ++ entry retval_long (int status_noerror) ∷ []),
        status_noerror,
        some device_id,
      )
    ]

-- The report goes out under the label of PassThruConnect.
unfoldable pub pass_thru_disconnect : Client → ℕ → Client × ℕ
pass_thru_disconnect c channel_id = (
  report c connect_fn (
      entry func_name (fn_key disconnect_fn)
      ∷ entry param1 (int channel_id)
      ∷ entry retval_long (int status_noerror)
      ∷ []),
  status_noerror,
)
