-- ===== src/Monitor/Views.antt =====
-- What the monitoring application keeps and how a message changes it: the lists behind its pages,
-- ExJ2534Wrapper, ExJ2534Emulator, ExJ2534Cannelloni and ExJ2534WriteMsgsList
-- (j2534_OverIP_App/exj2534*.cpp). The timers with which an element is added fire in the order in
-- which they were started, before the next message is looked at.
use Prim.Native.String.{String}
use j2534_oip_wrapper.Prelude.{
  ℕ, ◌/◌, ◌%◌, ◌^◌, List, [], ◌∷◌, ◌++◌, Bool, true, false, not, Option, none, some, codes, ◌==◌,
  if◌then◌else◌,
}
use j2534_oip_wrapper.Message.{PassThruMsg, Result, ok, ◌>>=◌}
use j2534_oip_wrapper.Report.{func_name, param1, param2, error}
use j2534_oip_wrapper.Report
use j2534_oip_wrapper.Cbor.{
  Cbor, Pairs, integer, number, name, no_pairs, pair, same_key, to_map, to_integer, to_string,
  to_bool,
}
use j2534_oip_wrapper.Cbor.Encode.{key_number, fn_number}
use j2534_oip_wrapper.Pipe.Envelope.{PipeMessage}
use j2534_oip_wrapper.Monitor.{at_key, process_read_report}

-- What the application calls Qt for: QCborValue::fromCbor, QString::number of the signed 32-bit
-- integer with a word, QString::number with base 16, and QDateTime::toString with a format.
pub record Qt : Type 0 where
  pub from_cbor : List ℕ → Cbor
  pub number_text : ℕ → List ℕ
  pub hex_text : ℕ → List ℕ
  pub time_text : String → ℕ → List ℕ

-- TimestampedObject.
pub record Element : Type 0 where
  pub timestamp : ℕ
  pub msg : PipeMessage
  pub text : List ℕ
  pub has_error : Bool

-- A page: `p_objs`, the list of the received messages, and that of the sent ones.
pub record Page : Type 0 where
  pub elements : List Element
  pub read_msgs : List PassThruMsg
  pub write_msgs : List Element

-- ExJ2534Wrapper has a pointer to the element of the last loadDll, too.
pub record WrapperPage : Type 0 where
  pub page : Page
  pub loaded_funcs : Option Element

pub record Application : Type 0 where
  pub wrapper : WrapperPage
  pub emulator : Page
  pub cannelloni : Page

-- The constructors.
abbrev pub new_page : Page
new_page = record { elements = []; read_msgs = []; write_msgs = [] }

unfoldable pub new_application : Application
new_application = record {
  wrapper = record { page = new_page; loaded_funcs = none };
  emulator = new_page;
  cannelloni = new_page;
}

-- `if(msg.timestamp == 0)msg.timestamp = …`.
unfoldable pub stamped : ℕ → PipeMessage → PipeMessage
stamped now m = if m.timestamp == 0 then record m { timestamp = now } else m

abbrev pub new_element : PipeMessage → Element
new_element m = record { timestamp = m.timestamp; msg = m; text = []; has_error = false }

-- `addElement` of the pages: in front.
unfoldable pub add_element : Element → Page → Page
add_element e p = record p { elements = e ∷ p.elements }

-- The `toInteger(-1)` that the switches look at, `none` for another value.
unfoldable pub function_key : Pairs → Option ℕ
unfolding at_key
function_key ps = elim (at_key func_name ps) [ integer n ↦ some n | v ↦ none ]

unfoldable pub has_key : ℕ → Pairs → Bool
unfolding same_key
has_key key no_pairs = false
has_key key (pair k v ps) =
    let rest = has_key key ps in if same_key k (number key) then true else rest

-- The list of sent messages: its element gets the time stamp 0, and is put behind the others. `now`
-- is in milliseconds.
unfoldable pub process_write : ℕ → PipeMessage → Page → Page
unfolding stamped
process_write now m p = record p {
  write_msgs =
      p.write_msgs
      ++ record { timestamp = 0; msg = stamped (now / 1000) m; text = []; has_error = false } ∷ [];
}

unfoldable pub process_read : Cbor → Page → Result Page
unfolding process_read_report
process_read report p =
    process_read_report report p.read_msgs >>= λ rows. ok (record p { read_msgs = rows })

-- The cases of KEY_PassThruReadMsgs and KEY_PassThruWriteMsgs, which every page has.
unfoldable pub process_msgs : ℕ → Option ℕ → Cbor → PipeMessage → Page → Result Page
unfolding process_read process_write
process_msgs now none report m p = ok p
process_msgs now (some key) report m p =
    if key == fn_number Report.pass_thru_read_msgs
    then process_read report p
    else if key == fn_number Report.pass_thru_write_msgs
    then ok (process_write now m p)
    else ok p

-- The switch of ExJ2534Wrapper::processPipeMessage. The report of loadDll is remembered, and its
-- element marked if there is an error.
unfoldable pub is_load_dll : Option ℕ → Bool
is_load_dll none = false
is_load_dll (some key) = key == 1

unfoldable pub process_functions : ℕ → Cbor → PipeMessage → WrapperPage → Result WrapperPage
unfolding add_element function_key process_msgs is_load_dll has_key to_map
process_functions now report m w =
    let key = function_key (to_map report) in
    let marked = record (new_element m) {
      has_error = has_key (key_number error) (to_map report);
    } in
    if is_load_dll key
    then ok (record { page = add_element marked w.page; loaded_funcs = some marked })
    else (process_msgs now key report m (add_element (new_element m) w.page) >>= λ p.
        ok (record w { page = p }))

module _ (qt : Qt) (now : ℕ) where
  -- ExJ2534Emulator::processPipeMessage, with a time in seconds.
  unfoldable pub process_emulator : PipeMessage → Page → Result Page
  unfolding stamped add_element function_key process_msgs to_map
  process_emulator msg p =
      let m = stamped (now / 1000) msg in
      let report = qt.from_cbor m.payload in
      let p' = add_element (new_element m) p in
      if m.data_type == 2
      then process_msgs now (function_key (to_map report)) report m p'
      else ok p'

  -- ExJ2534Wrapper::processPipeMessage.
  unfoldable pub process_wrapper : PipeMessage → WrapperPage → Result WrapperPage
  unfolding stamped add_element process_functions
  process_wrapper msg w =
      let m = stamped now msg in
      if m.data_type == 2
      then process_functions now (qt.from_cbor m.payload) m w
      else ok (record w { page = add_element (new_element m) w.page })

  -- The text of the element for PassThruOpen.
  unfoldable pub open_text : Pairs → List ℕ
  unfolding at_key to_string to_integer
  open_text ps =
      codes "pName = "
      ++ to_string (at_key param1 ps)
      ++ codes " pDeviceID = "
      ++ qt.number_text (to_integer 0 (at_key param2 ps) % 2 ^ 32)

  -- The switch of ExJ2534Cannelloni::processPipeMessage: reports of reading and writing are no
  -- elements of the page.
  unfoldable pub process_key : Option ℕ → Cbor → PipeMessage → Page → Result Page
  unfolding add_element process_read process_write open_text to_map
  process_key none report m p = ok (add_element (new_element m) p)
  process_key (some key) report m p =
      if key == fn_number Report.pass_thru_open
      then ok (add_element (record (new_element m) { text = open_text (to_map report) }) p)
      else if key == fn_number Report.pass_thru_read_msgs
      then process_read report p
      else if key == fn_number Report.pass_thru_write_msgs
      then ok (process_write now m p)
      else ok (add_element (new_element m) p)

  unfoldable pub process_cannelloni : PipeMessage → Page → Result Page
  unfolding stamped add_element function_key process_key to_map
  process_cannelloni msg p =
      let m = stamped now msg in
      let report = qt.from_cbor m.payload in
      if m.data_type == 2
      then process_key (function_key (to_map report)) report m p
      else ok (add_element (new_element m) p)

abbrev pub same : Bool → Bool → Bool
same true b = b
same false b = not b

-- `getDllFuncs`: the keys of the map under KEY_Param2 of the last loadDll whose value is the one that
-- is asked for. A key that is no text is shown as the empty text.
unfoldable pub funcs_list : Bool → Pairs → List String
unfolding to_bool
funcs_list loaded no_pairs = []
funcs_list loaded (pair (number n) v ps) =
    let rest = funcs_list loaded ps in if same (to_bool v) loaded then "" ∷ rest else rest
funcs_list loaded (pair (name s) v ps) =
    let rest = funcs_list loaded ps in if same (to_bool v) loaded then s ∷ rest else rest

unfoldable pub get_dll_funcs : Qt → WrapperPage → Bool → List String
unfolding funcs_list at_key to_map
get_dll_funcs qt w loaded = elim w.loaded_funcs [
  | none ↦ []
  | some e ↦ funcs_list loaded (to_map (at_key param2 (to_map (qt.from_cbor e.msg.payload))))
]
