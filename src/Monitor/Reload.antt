-- ===== src/Monitor/Reload.antt =====
-- What loadFromJSON makes of the file that exportToJSON wrote (j2534_OverIP_App/exj2534wrapper.cpp).
use mathlib.Core.List.{reverse_aux}
use j2534_oip_wrapper.Prelude.{
  ℕ, ◌%◌, ◌^◌, ◌<◌, ◌≡◌, ◌≢◌, refl, ap, ◌∙◌, arith, List, [], ◌∷◌, Option, none, map, All, Bool,
  true, false, ◌==◌, if◌then◌else◌,
}
use j2534_oip_wrapper.Message.{ok, ◌>>=◌}
use j2534_oip_wrapper.Cbor.{Cbor, to_map}
use j2534_oip_wrapper.Pipe.Envelope.{PipeMessage}
use j2534_oip_wrapper.Monitor.Views.{
  Qt, Element, WrapperPage, process_wrapper, process_functions, process_msgs, function_key,
  is_load_dll, stamped, new_element, add_element,
}
use j2534_oip_wrapper.Monitor.History.{
  Json, json_message, export_to_json, loaded_message, load_messages, load_from_json, load_wrapper,
}

module _ {J : Type 0} (qt : Qt) (json : Json J) where
  -- The map of a message after the way through QJsonValue.
  abbrev pub reloaded_payload : PipeMessage → List ℕ
  reloaded_payload m =
      json.to_cbor (json.from_json_value (json.to_json_value (qt.from_cbor m.payload)))

  abbrev pub reloaded : Element → Element
  reloaded e = new_element (record (e.msg) { payload = reloaded_payload e.msg })

  -- A message with a time stamp, whose numbers fit their members, and whose map has no number as key
  -- when it comes back: the keys of a QJsonObject are texts.
  pub record Exported (e : Element) : Type 0 where
    pub id_fits : e.msg.id < 2 ^ 32
    pub msg_type_fits : e.msg.msg_type < 2 ^ 32
    pub data_type_fits : e.msg.data_type < 2 ^ 32
    pub has_time : e.msg.timestamp ≢ 0
    pub keyless : function_key (to_map (qt.from_cbor (reloaded_payload e.msg))) ≡ none

  loaded_message-json :
      (e : Element)
      → Exported e
      → loaded_message qt json (json_message qt json e.msg)
        ≡ record (e.msg) { payload = reloaded_payload e.msg }
  unfolding loaded_message json_message
  loaded_message-json e x =
      let i : e.msg.id % 2 ^ 32 ≡ e.msg.id = omega (arith, x.id_fits) in
      let t : e.msg.msg_type % 2 ^ 32 ≡ e.msg.msg_type = omega (arith, x.msg_type_fits) in
      let d : e.msg.data_type % 2 ^ 32 ≡ e.msg.data_type = omega (arith, x.data_type_fits) in
      rw (i, t, d) refl

  stamped_time : (now : ℕ) (m : PipeMessage) → m.timestamp ≢ 0 → stamped now m ≡ m
  unfolding stamped
  stamped_time now m h = ground arith

  abbrev added : PipeMessage → WrapperPage → WrapperPage
  added m w = record w { page = add_element (new_element m) w.page }

  process_functions-keyless :
      (now : ℕ) (report : Cbor) (m : PipeMessage) (w : WrapperPage)
      → function_key (to_map report) ≡ none
      → process_functions now report m w ≡ ok (added m w)
  unfolding process_functions process_msgs is_load_dll
  process_functions-keyless now report m w k =
      rw (k, process_functions, is_load_dll, process_msgs) refl

  either : {A : Type 0} (b : Bool) {x y : A} → x ≡ y → (if b then x else y) ≡ y
  either true e = e
  either false e = refl

  process-keyless :
      (now : ℕ) (m : PipeMessage) (w : WrapperPage)
      → m.timestamp ≢ 0
      → function_key (to_map (qt.from_cbor m.payload)) ≡ none
      → process_wrapper qt now m w ≡ ok (added m w)
  unfolding process_wrapper
  process-keyless now m w h k =
      rw (stamped_time now m h, process_wrapper)
        (either (m.data_type == 2) (process_functions-keyless now (qt.from_cbor m.payload) m w k))

  load_messages-reverse :
      (now : ℕ) (es : List Element) (w : WrapperPage)
      → All Exported es
      → load_messages qt json
          (process_wrapper qt now)
          (map (λ (e : Element). json_message qt json e.msg) es)
          w
        ≡ ok (record w {
          page = record (w.page) { elements = reverse_aux (map reloaded es) w.page.elements };
        })
  unfolding load_messages add_element
  load_messages-reverse now [] w h = refl
  load_messages-reverse now (e ∷ es) w (x, xs) =
      let m : PipeMessage = record (e.msg) { payload = reloaded_payload e.msg } in
      ap
        (λ n. process_wrapper qt now n w >>= λ w'.
          load_messages qt json (process_wrapper qt now)
            (map (λ (e : Element). json_message qt json e.msg) es) w')
        (loaded_message-json e x)
      ∙ ap
          (λ r. r >>= λ w'.
            load_messages qt json (process_wrapper qt now)
              (map (λ (e : Element). json_message qt json e.msg) es) w')
          (process-keyless now m w x.has_time x.keyless)
      ∙ load_messages-reverse now es (added m w) xs

  -- Loading the file to which elements were exported, when its text is read as it was written, puts
  -- their messages on the page of the wrapper in the reverse order, the oldest in front, and shows
  -- nothing else of them: the rows of received and of sent messages and the functions stay as they
  -- are. Each message has a time stamp and numbers that fit their members, and its map comes back from
  -- QJsonValue without a number as key.
  pub reload_reverses :
      (now : ℕ) (es : List Element) (old : Option (List ℕ)) (w : WrapperPage)
      → All Exported es
      → json.from_json (json.to_json (map (λ (e : Element). json_message qt json e.msg) es))
        ≡ map (λ (e : Element). json_message qt json e.msg) es
      → load_wrapper qt json now (export_to_json qt json true es old) w
        ≡ ok (record w {
          page = record (w.page) { elements = reverse_aux (map reloaded es) w.page.elements };
        })
  unfolding load_wrapper load_from_json export_to_json
  reload_reverses now es old w h same =
      ap (λ os. load_messages qt json (process_wrapper qt now) os w) same
      ∙ load_messages-reverse now es w h
