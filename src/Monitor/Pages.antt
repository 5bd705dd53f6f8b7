-- ===== src/Monitor/Pages.antt =====
-- The pages of the monitoring application after a message.
use Prim.Native.String.{String}
use j2534_oip_wrapper.Prelude.{
  ℕ, ◌≡◌, ◌≢◌, refl, ap, ◌∙◌, ◌≤◌, arith, List, [], ◌∷◌, ◌++◌, map, Bool, true, false, some, length,
  take, All, ◌==◌, if◌then◌else◌,
}
use j2534_oip_wrapper.Message.{PassThruMsg, Result, ok, ◌>>=◌}
use j2534_oip_wrapper.Report.{Fn}
use j2534_oip_wrapper.Cbor.{Cbor, cbor_map, value_of, same_key, to_map, to_bool}
use j2534_oip_wrapper.Cbor.Encode.{
  fn_name, fn_number, key_number, encode_puts, encode_value, encode_functions, encode_loaded,
}
use j2534_oip_wrapper.DllWrapper.{Wrapper, Notice, wrapped_functions, loaded_functions, load_dll}
use j2534_oip_wrapper.DllWrapper.Notices.{encode_notice}
use j2534_oip_wrapper.DllWrapper.Readable.{FitsMsg}
use j2534_oip_wrapper.Pipe.Envelope.{PipeMessage}
use j2534_oip_wrapper.Monitor.{at_key}
use j2534_oip_wrapper.Monitor.Rows.{shown, read_puts, read_puts-shown}
use j2534_oip_wrapper.Monitor.Views.{
  Qt, Element, Application, WrapperPage, process_wrapper, process_msgs, process_read, function_key,
  has_key, process_functions, is_load_dll, stamped, new_element, add_element, get_dll_funcs,
  funcs_list, same,
}
use j2534_oip_wrapper.Monitor.Server.{dispatch}

-- A message changes no other page than that of its type: 2 for the wrapper, 3 for the emulator, 4
-- for the Cannelloni client.
pub dispatch_changes_one_page :
    (qt : Qt) (now : ℕ) (m : PipeMessage) (app app' : Application)
    → dispatch qt now m app ≡ ok app'
    → (m.msg_type ≢ 2 → app'.wrapper ≡ app.wrapper)
      × (m.msg_type ≢ 3 → app'.emulator ≡ app.emulator)
      × (m.msg_type ≢ 4 → app'.cannelloni ≡ app.cannelloni)
unfolding dispatch
dispatch_changes_one_page qt now m app app' h = ground (arith, h)

-- The functions among those that were looked up which are exported, or are not.
abbrev pub names_where : (Fn → Bool) → Bool → List Fn → List String
names_where exported found [] = []
names_where exported found (f ∷ fs) =
    let rest = names_where exported found fs in
    if same (exported f) found then fn_name f ∷ rest else rest

funcs_list-encode :
    (exported : Fn → Bool) (found : Bool) (fs : List Fn)
    → funcs_list found (encode_functions (map (λ f. (f, exported f)) fs))
      ≡ names_where exported found fs
unfolding funcs_list encode_functions to_bool
funcs_list-encode exported found [] = refl
funcs_list-encode exported found (f ∷ fs) = rw (funcs_list-encode exported found fs) refl

-- The message that loadDll sends when it has loaded a DLL.
abbrev pub load_notice : (Fn → Bool) → List ℕ → Notice
load_notice exported path = wrapped_functions path (map (λ f. (f, exported f)) loaded_functions)

module _ (now : ℕ) where
  -- The page of the wrapper after a message of PassThruReadMsgs.
  abbrev pub read_page : PipeMessage → List PassThruMsg → WrapperPage → WrapperPage
  read_page m read w = record w {
    page = record (add_element (new_element (stamped now m)) w.page) {
      read_msgs = w.page.read_msgs ++ map shown read;
    };
  }

  -- The page of the wrapper after that message.
  abbrev loaded_element : PipeMessage → Element
  loaded_element m = record (new_element (stamped now m)) { has_error = false }

  abbrev loaded_page : PipeMessage → WrapperPage → WrapperPage
  loaded_page m w = record {
    page = add_element (loaded_element m) w.page;
    loaded_funcs = some (loaded_element m);
  }

module _ (qt : Qt) (now : ℕ) (function_text : Fn → List ℕ) where
  stamped_payload : (m : PipeMessage) → (stamped now m).payload ≡ m.payload
  unfolding stamped
  stamped_payload m = ground arith

  stamped_data_type : (m : PipeMessage) → (stamped now m).data_type ≡ m.data_type
  unfolding stamped
  stamped_data_type m = ground arith

  stamped-report :
      (report : Cbor) (m : PipeMessage)
      → qt.from_cbor m.payload ≡ report
      → qt.from_cbor (stamped now m).payload ≡ report
  stamped-report report m d = ap (λ b. qt.from_cbor b) (stamped_payload m) ∙ d

  process_wrapper-functions :
      (report : Cbor) (m : PipeMessage) (w : WrapperPage)
      → m.data_type ≡ 2
      → qt.from_cbor m.payload ≡ report
      → process_wrapper qt now m w ≡ process_functions now report (stamped now m) w
  unfolding process_wrapper
  process_wrapper-functions report m w t d =
      let kept : Result WrapperPage =
        ok (record w { page = add_element (new_element (stamped now m)) w.page }) in
      ap
        (λ n.
          if n == 2
          then process_functions now (qt.from_cbor (stamped now m).payload) (stamped now m) w
          else kept)
        (stamped_data_type m ∙ t)
      ∙ ap (λ r. process_functions now r (stamped now m) w) (stamped-report report m d)

  pub process_wrapper-read :
      (channel_id timeout num n retval : ℕ) (ms : List PassThruMsg) (m : PipeMessage)
      (w : WrapperPage)
      → n ≤ length ms
      → All FitsMsg ms
      → m.data_type ≡ 2
      → qt.from_cbor m.payload
        ≡ cbor_map
            (encode_puts function_text (read_puts channel_id timeout num n retval (take n ms)))
      → process_wrapper qt now m w ≡ ok (read_page now m (take n ms) w)
  unfolding process_functions encode_puts encode_value function_key at_key value_of same_key to_map
      key_number is_load_dll process_msgs fn_number process_read
  process_wrapper-read channel_id timeout num n retval ms m w h k t d =
      process_wrapper-functions _ m w t d
      ∙ ap
          (λ r.
            (r >>= λ rows.
            ok (record (add_element (new_element (stamped now m)) w.page) { read_msgs = rows }))
            >>= λ p. ok (record w { page = p }))
          (read_puts-shown function_text channel_id timeout num n retval ms w.page.read_msgs h k)

  process_functions-load :
      (exported : Fn → Bool) (path : List ℕ) (m : PipeMessage) (w : WrapperPage)
      → process_functions now
          (encode_notice function_text (load_notice exported path))
          (stamped now m)
          w
        ≡ ok (loaded_page now m w)
  unfolding process_functions encode_notice encode_loaded function_key at_key value_of same_key
      to_map key_number has_key is_load_dll
  process_functions-load exported path m w = refl

  get_dll_funcs-load :
      (exported : Fn → Bool) (path : List ℕ) (m : PipeMessage) (w : WrapperPage) (found : Bool)
      → qt.from_cbor m.payload ≡ encode_notice function_text (load_notice exported path)
      → get_dll_funcs qt (loaded_page now m w) found ≡ names_where exported found loaded_functions
  unfolding get_dll_funcs encode_notice encode_loaded at_key value_of same_key to_map key_number
      funcs_list
  get_dll_funcs-load exported path m w found d =
      rw (stamped-report _ m d, get_dll_funcs) (funcs_list-encode exported found loaded_functions)

  -- When loadDll has loaded a DLL, its message makes the page of the wrapper list the functions that
  -- were looked up: as loaded those that the DLL exports, as not loaded the others, in the order of
  -- loadDll; and the new element is not marked as an error.
  pub loaded_functions_shown :
      {S : Type 0} (exported : Fn → Bool) (path : List ℕ) (dll : Wrapper S) (m : PipeMessage)
      (w : WrapperPage)
      → m.data_type ≡ 2
      → qt.from_cbor m.payload ≡ encode_notice function_text (load_notice exported path)
      → (w' : WrapperPage) × ((load_dll true exported path dll).0.sent
          ≡ load_notice exported path ∷ dll.sent)
        × (process_wrapper qt now m w ≡ ok w')
        × (get_dll_funcs qt w' true ≡ names_where exported true loaded_functions)
        × (get_dll_funcs qt w' false ≡ names_where exported false loaded_functions)
        × (map (λ (e : Element). e.has_error) w'.page.elements
            ≡ false ∷ map (λ (e : Element). e.has_error) w.page.elements)
  unfolding add_element load_dll
  loaded_functions_shown exported path dll m w t d = (
    loaded_page now m w,
    refl,
    process_wrapper-functions _ m w t d ∙ process_functions-load exported path m w,
    get_dll_funcs-load exported path m w true d,
    get_dll_funcs-load exported path m w false d,
    refl,
  )
