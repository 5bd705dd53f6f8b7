-- ===== src/DllWrapper.antt =====
-- J2534DllWrapper of j2534_OverIP/j2534dllwrapper.{h,cpp}: its state, loadDll, and the template
-- that every one of its methods follows. A method puts its arguments into a report, calls the
-- function of the wrapped DLL if there is one, puts what came back, and sends the report.
pub mod Device
pub mod Messages
pub mod Queries
pub mod Extra
pub mod Methods
pub mod Notices
pub mod Readable
pub mod Reports
pub mod Transparent
pub mod Failures
use j2534_oip_wrapper.Prelude.{
  ℕ, List, [], ◌∷◌, ◌++◌, Bool, true, false, Option, none, some, map, if◌then◌else◌,
}
use j2534_oip_wrapper.Message.{
  Fault, Result, ok, fault, ◌>>=◌, uninitialised, use_after_free, invalid_free, err_not_supported,
}
use j2534_oip_wrapper.Report
use j2534_oip_wrapper.Report.{
  Fn, Put, Report, entry, int, not_found_in_dll, error, retval_long, reads_freed,
}
use j2534_oip_wrapper.Interface.{Args, Answer, Implementation, Text}

-- A member `m_PassThru…`: it has no initialiser, GetProcAddress gives null or a function, and
-- FreeLibrary takes the code behind the pointer away.
pub data Pointer : Type 0 where
  indeterminate null procedure freed : Pointer

-- A message to the pipe: that of the constructor, with the address of the object; the report of a
-- method; or that of loadDll with the path and, for each function that was looked up, whether it
-- was found.
pub data Notice : Type 0 where
  connected : ℕ → Notice
  call_report : Report → Notice
  wrapped_functions : Text → List (Fn × Bool) → Notice

-- `dll` is the state behind the functions of the wrapped DLL; `sent` the messages to the pipe,
-- newest first; `damage` is the undefined behaviour of loadDll, if it has run. What is modelled
-- behind it is what the code does if it does not show.
pub record Wrapper (S : Type 0) : Type 0 where
  pub dll : S
  pub damage : Option Fault
  pub functions : Fn → Pointer
  pub sent : List Notice

-- `new J2534DllWrapper()` at an address: the members are left as they are.
unfoldable pub new_wrapper : {S : Type 0} → ℕ → S → Wrapper S
new_wrapper this dll = record {
  dll = dll;
  damage = none;
  functions = λ f. indeterminate;
  sent = connected this ∷ [];
}

-- The functions that loadDll looks up, in its order.
abbrev pub loaded_functions : List Fn
loaded_functions =
    Report.pass_thru_open ∷ Report.pass_thru_close ∷ Report.pass_thru_connect
    ∷ Report.pass_thru_disconnect ∷ Report.pass_thru_read_msgs ∷ Report.pass_thru_write_msgs
    ∷ Report.pass_thru_start_periodic_msg ∷ Report.pass_thru_stop_periodic_msg
    ∷ Report.pass_thru_start_msg_filter ∷ Report.pass_thru_stop_msg_filter
    ∷ Report.pass_thru_set_programming_voltage ∷ Report.pass_thru_read_version
    ∷ Report.pass_thru_get_last_error ∷ Report.pass_thru_ioctl ∷ Report.pass_thru_load_firmware
    ∷ Report.pass_thru_recover_firmware ∷ Report.pass_thru_read_ip_setup
    ∷ Report.pass_thru_write_ip_setup ∷ Report.pass_thru_read_pc_setup
    ∷ Report.pass_thru_get_pointer ∷ Report.pass_thru_get_next_car_daq
    ∷ Report.pass_thru_ex_configure_wifi ∷ Report.pass_thru_ex_device_watchdog
    ∷ Report.pass_thru_ex_download_cyphered_flash_data ∷ Report.pass_thru_ex_erase_flash
    ∷ Report.pass_thru_ex_initiate_cyphered_flash_download ∷ Report.pass_thru_ex_read_flash
    ∷ Report.pass_thru_ex_reset_flash ∷ Report.pass_thru_ex_run_self_test
    ∷ Report.pass_thru_ex_write_flash ∷ Report.pass_thru_queue_msgs
    ∷ Report.pass_thru_scan_for_devices ∷ Report.pass_thru_get_next_device ∷ Report.pass_thru_select
    ∷ []

-- loadFunction: what GetProcAddress gives for an exported name or for another.
unfoldable pub load_function : Bool → Pointer
load_function found = if found then procedure else null

-- The assignments of loadDll to the members; there is none to m_PassThruReadDetails.
unfoldable pub assign_functions : (Fn → Bool) → (Fn → Pointer) → Fn → Pointer
assign_functions exported old Report.pass_thru_read_details = old Report.pass_thru_read_details
assign_functions exported old f = load_function (exported f)

-- `loads` says that LoadLibraryW succeeds, `exported` for which names GetProcAddress does. At the
-- end the function frees the map of the functions, which is part of the map of the message, and then
-- the map of the message; cn-cbor forbids the first. Without a DLL the text under KEY_Error has been
-- freed when the message is made.
unfoldable pub load_dll :
    {S : Type 0} → (loads : Bool) → (exported : Fn → Bool) → Text → Wrapper S → Wrapper S × Bool
load_dll loads exported path w =
    if loads
    then (
      record w {
        damage = some invalid_free;
        functions = assign_functions exported w.functions;
        sent = wrapped_functions path (map (λ f. (f, exported f)) loaded_functions) ∷ w.sent;
      },
      loads,
    )
    else (record w { damage = some use_after_free }, loads)

unfoldable pub free_pointer : Pointer → Pointer
free_pointer procedure = freed
free_pointer p = p

-- `unloadDll` resets the handle, with FreeLibrary as its deleter; the members stay as they are.
unfoldable pub unload_dll : {S : Type 0} → Wrapper S → Wrapper S
unfolding free_pointer
unload_dll w = record w { functions = λ f. free_pointer (w.functions f) }

-- What one method puts: the label of its message, the entries before the test of its function
-- pointer, those for a function that is missing (before the error), and those after a call, with
-- the returned status and the arguments as the call has left them.
pub record Wrapping (f : Fn) : Type 0 where
  pub label : Fn
  pub before : Args f → Result (List Put)
  pub missing : List Put
  pub after : ℕ → Args f → Result (List Put)

-- The entries after the call of most methods.
abbrev pub only_retval : {A : Type 0} → ℕ → A → Result (List Put)
only_retval retval out = ok (entry retval_long (int retval) ∷ [])

-- The methods whose reports have texts that are freed when the report is made, also after a call.
unfoldable pub is_stale : Fn → Bool
is_stale Report.pass_thru_read_version = true
is_stale Report.pass_thru_get_last_error = true
is_stale f = false

module _ {S : Type 0} (dll : Implementation S) where
  -- The message of a method.
  unfoldable pub send : Wrapper S → Fn → List Put → Wrapper S
  send w label puts = record w {
    sent = call_report (record { label = label; puts = puts }) ∷ w.sent;
  }

  -- The test of the function pointer, and the two branches. The text for a function that is missing
  -- is freed when the report is made.
  unfoldable pub forward :
      (f : Fn) → Wrapping f → List Put → Args f → Wrapper S → Result (Answer (Wrapper S) f)
  forward f m puts args w = elim (w.functions f) [
    | indeterminate ↦ fault uninitialised
    | freed ↦ fault use_after_free
    | null ↦
        let all = puts ++ m.missing ++ entry error (not_found_in_dll f) ∷ [] in
        if reads_freed all
        then fault use_after_free
        else ok (err_not_supported, args, send w m.label all)
    | procedure ↦ dll f args w.dll >>= λ a. m.after a.0 a.1 >>= λ more.
        if is_stale f
        then fault use_after_free
        else ok (a.0, a.1, send (record w { dll = a.2 }) m.label (puts ++ more))
  ]

  unfoldable pub wrapped :
      (f : Fn) → Wrapping f → Args f → Wrapper S → Result (Answer (Wrapper S) f)
  wrapped f m args w = m.before args >>= λ puts. forward f m puts args w
