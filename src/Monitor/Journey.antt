-- ===== src/Monitor/Journey.antt =====
-- A call of the wrapped DLL, from J2534DllWrapper (j2534_OverIP/j2534dllwrapper.cpp) through the pipe
-- to the page that the monitoring application shows (j2534_OverIP_App/exj2534wrapper.cpp).
use j2534_oip_wrapper.Prelude.{
  ℕ, ◌≡◌, refl, ap, ◌∙◌, ◌≤◌, List, [], ◌∷◌, Option, some, length, take, All,
}
use j2534_oip_wrapper.Message.{PassThruMsg, ok, ◌>>=◌}
use j2534_oip_wrapper.Report
use j2534_oip_wrapper.Report.{Fn, Report}
use j2534_oip_wrapper.Interface.{Implementation}
use j2534_oip_wrapper.Cbor.{Cbor}
use j2534_oip_wrapper.Cbor.Encode.{cbor_to_data}
use j2534_oip_wrapper.DllWrapper.{Wrapper, Notice, call_report, procedure, send}
use j2534_oip_wrapper.DllWrapper.Methods.{methods}
use j2534_oip_wrapper.DllWrapper.Notices.{encode_notice, notice_message}
use j2534_oip_wrapper.DllWrapper.Readable.{FitsMsg}
use j2534_oip_wrapper.Pipe.Envelope.{PipeMessage}
use j2534_oip_wrapper.Pipe.Reassembly.{stream}
use j2534_oip_wrapper.Monitor.Rows.{read_puts, read_report_shown}
use j2534_oip_wrapper.Monitor.Views.{Qt, Application}
use j2534_oip_wrapper.Monitor.Server.{dispatch, process_data}
use j2534_oip_wrapper.Monitor.Arrival.{Passable, wire, dispatch_all, messages_arrive}
use j2534_oip_wrapper.Monitor.Pages.{read_page, process_wrapper-read}

-- The notice of a read that has left messages.
abbrev pub read_notice : (channel_id timeout num n retval : ℕ) → List PassThruMsg → Notice
read_notice channel_id timeout num n retval read = call_report (record {
  label = Report.pass_thru_read_msgs;
  puts = read_puts channel_id timeout num n retval read;
})

module _ (encoder : Cbor → Option (List ℕ)) (function_text : Fn → List ℕ) where
  -- The message of that notice.
  abbrev pub read_message :
      (process_path : List ℕ) (sent_at channel_id timeout num n retval : ℕ)
      → List PassThruMsg
      → PipeMessage
  read_message process_path sent_at channel_id timeout num n retval read =
      notice_message encoder function_text process_path sent_at
        (read_notice channel_id timeout num n retval read)

module _ (encoder : Cbor → Option (List ℕ)) (qt : Qt) (function_text : Fn → List ℕ) where
  -- Qt reads the map of a notice as cn-cbor has encoded it.
  abbrev pub Reads : Notice → Type 0
  Reads notice =
      qt.from_cbor (cbor_to_data encoder (encode_notice function_text notice))
      ≡ encode_notice function_text notice

  dispatch-read :
      (now : ℕ) (process_path : List ℕ) (sent_at channel_id timeout num n retval : ℕ)
      (ms : List PassThruMsg) (app : Application)
      → n ≤ length ms
      → All FitsMsg ms
      → Reads (read_notice channel_id timeout num n retval (take n ms))
      → dispatch_all qt now
          (read_message encoder function_text process_path sent_at channel_id timeout num n retval
              (take n ms)
            ∷ [])
          app
        ≡ ok (record app {
          wrapper =
              read_page now
                (read_message encoder function_text process_path sent_at channel_id timeout num n
                  retval
                  (take n ms))
                (take n ms)
                app.wrapper;
        })
  unfolding dispatch notice_message encode_notice
  dispatch-read now process_path sent_at channel_id timeout num n retval ms app h k reads =
      ap (λ r. (r >>= λ w. ok (record app { wrapper = w })) >>= λ a. ok a)
        (process_wrapper-read qt now function_text channel_id timeout num n retval ms
          (read_message encoder function_text process_path sent_at channel_id timeout num n retval
            (take n ms))
          app.wrapper h k refl reads)

  -- When the function PassThruReadMsgs of the wrapped DLL leaves `n` messages in its array, the wrapper
  -- returns what the DLL returned and sends one report; and when the report can be passed on, however
  -- its bytes are cut into chunks, the application puts one new element on the page of the wrapper and
  -- appends exactly these `n` messages, in their order, to the rows of that page: their fields, the
  -- bytes that DataSize counts, and zeros behind them. The other pages stay as they are, and nothing
  -- is left in the buffer of the connection. The array has at least `n` messages, none with more
  -- bytes than its data has room for.
  pub read_reaches_page :
      {S : Type 0} (dll : Implementation S) (w : Wrapper S) (process_path : List ℕ)
      (sent_at now channel_id timeout num n retval : ℕ) (buffer : Option (List PassThruMsg))
      (ms : List PassThruMsg) (s : S) (app : Application) (chunks : List (List ℕ))
      → w.functions Report.pass_thru_read_msgs ≡ procedure
      → dll Report.pass_thru_read_msgs (channel_id, buffer, some num, timeout) w.dll
        ≡ ok (retval, (channel_id, some ms, some n, timeout), s)
      → n ≤ length ms
      → All FitsMsg ms
      → Passable encoder qt (
          read_message encoder function_text process_path sent_at channel_id timeout num n retval
            (take n ms))
      → Reads (read_notice channel_id timeout num n retval (take n ms))
      → stream chunks
        ≡ wire encoder qt (
            read_message encoder function_text process_path sent_at channel_id timeout num n retval
              (take n ms)
            ∷ [])
      → (methods dll Report.pass_thru_read_msgs (channel_id, buffer, some num, timeout) w
          ≡ ok (
            retval,
            (channel_id, some ms, some n, timeout),
            record w {
              dll = s;
              sent = read_notice channel_id timeout num n retval (take n ms) ∷ w.sent;
            },
          ))
        × (process_data qt now (record { size = 0; buffer = [] }) chunks app
            ≡ some (
              record { size = 0; buffer = [] },
              ok (record app {
                wrapper =
                    read_page now
                      (read_message encoder function_text process_path sent_at channel_id timeout
                        num n retval
                        (take n ms))
                      (take n ms)
                      app.wrapper;
              }),
            ))
  unfolding send
  read_reaches_page dll w process_path sent_at now channel_id timeout num n retval buffer ms s app
        chunks p d h k passable reads same =
      let sent =
        read_message encoder function_text process_path sent_at channel_id timeout num n retval
          (take n ms) in
      let wrapped =
        read_report_shown dll w function_text channel_id timeout num n retval buffer ms [] s p d h
          k in
      (
        wrapped.0,
        messages_arrive encoder qt now app (sent ∷ []) chunks (passable, tt) same
            ∙ ap (λ r. some (record { size = 0; buffer = [] }, r))
                (dispatch-read now process_path sent_at channel_id timeout num n retval ms app h k
                  reads),
      )
