-- ===== src/Global.antt =====
-- The choice of the implementation, and the exported functions: j2534_OverIP/j2534global.{h,cpp},
-- DllMain and the registry functions of j2534_OverIP/main.cpp, and the functions that
-- j2534_OverIP/j2534.cpp exports.
pub mod Dispatch
pub mod Client
use j2534_oip_wrapper.Prelude.{
  ℕ, List, [], ◌∷◌, Bool, true, false, ◌&&◌, Option, none, some, codes, ◌==◌, if◌then◌else◌,
}
use j2534_oip_wrapper.Message.{Result, ok, fault, ◌>>=◌}
use j2534_oip_wrapper.Report.{Fn}
use j2534_oip_wrapper.Interface.{Args, Answer, Implementation, Text}
use j2534_oip_wrapper.DllWrapper.{Wrapper, new_wrapper, load_dll}
use j2534_oip_wrapper.DllWrapper.Methods
use j2534_oip_wrapper.Emulator.{Emulator, new_emulator}
use j2534_oip_wrapper.Emulator.Methods as EmulatorMethods
use j2534_oip_wrapper.SimpleLogger.{Log, log_and_refuse}

-- std::string's equality.
unfoldable pub text_eq : Text → Text → Bool
text_eq [] [] = true
text_eq (c ∷ cs) (d ∷ ds) = (c == d) && text_eq cs ds
text_eq s t = false

-- A registry key that a function tries to open: `none` if it cannot be opened, and else what
-- RegQueryValueEx reads from it, `none` if the value is missing.
abbrev pub RegistryKey : Type 0
RegistryKey = Option (Option Text)

-- The value of a key that is open; "" if there is none.
unfoldable pub registry_value : Option Text → Text
registry_value none = []
registry_value (some value) = value

-- getClassNameFromRegistry and getWrappedDllFromRegistry: the key of version 04.04, and, if that
-- cannot be opened, the one of 05.00.
unfoldable pub from_registry : RegistryKey → RegistryKey → Text
unfolding registry_value
from_registry (some value) key_0500 = registry_value value
from_registry none (some value) = registry_value value
from_registry none none = []

-- An object behind an ExJ2534WrapperInterface pointer: one of the four classes. `D` is the state
-- of the DLL that a wrapper wraps, `C` that of a J2534CannelloniClient.
pub data Object (D C : Type 0) : Type 0 where
  simple_logger : Log → Object D C
  dll_wrapper : Wrapper D → Object D C
  emulator : Emulator → Object D C
  cannelloni : C → Object D C

-- `factory` holds the generators by key, the one that was registered last first; a generator is
-- given by the new object that it returns. `interface` is `_global_j2534_interface`.
pub record Global (D C : Type 0) : Type 0 where
  pub factory : List (Text × Object D C)
  pub interface : Option (Object D C)

unfoldable pub new_global : {D C : Type 0} → Global D C
new_global = record { factory = []; interface = none }

unfoldable pub register_generator : {D C : Type 0} → Text → Object D C → Global D C → Global D C
register_generator key object g = record g { factory = (key, object) ∷ g.factory }

unfoldable pub create : {D C : Type 0} → Text → List (Text × Object D C) → Option (Object D C)
create key [] = none
create key ((k, object) ∷ rest) =
    let found = create key rest in if text_eq k key then some object else found

unfoldable pub get_interface : {D C : Type 0} → Global D C → Object D C × Global D C
get_interface g = elim g.interface [
  | some object ↦ (object, g)
  | none ↦ (simple_logger [], record g { interface = some (simple_logger []) })
]

-- The two keys and, behind each value, what the environment answers: the class and the path of the
-- DLL in the registry, the addresses of the new objects, whether LoadLibrary succeeds and for which
-- names GetProcAddress does, and the initial state of the DLL and of the Cannelloni client.
pub record Process (D C : Type 0) : Type 0 where
  pub class_0404 : RegistryKey
  pub class_0500 : RegistryKey
  pub path_0404 : RegistryKey
  pub path_0500 : RegistryKey
  pub wrapper_address : ℕ
  pub emulator_address : ℕ
  pub loads : Bool
  pub exported : Fn → Bool
  pub dll : D
  pub cannelloni_client : C

-- The class that the registry selects.
unfoldable pub selected_class : {D C : Type 0} → Process D C → Text
unfolding from_registry
selected_class p = from_registry p.class_0404 p.class_0500

unfoldable pub register_all : {D C : Type 0} → Process D C → Global D C → Global D C
unfolding register_generator new_wrapper new_emulator
register_all p g = register_generator (codes "J2534Cannelloni") (cannelloni p.cannelloni_client) (
    register_generator (codes "J2534Emulator") (emulator (new_emulator p.emulator_address)) (
      register_generator (codes "J2534DllWrapper")
        (dll_wrapper (new_wrapper p.wrapper_address p.dll))
        (register_generator (codes "ExJ2534SimpleLogger") (simple_logger []) g)))

-- loadDll on a new object of the class J2534DllWrapper.
unfoldable pub load_wrapped : {D C : Type 0} → Process D C → Object D C → Object D C
unfolding from_registry load_dll
load_wrapped p (dll_wrapper w) =
    dll_wrapper (load_dll p.loads p.exported (from_registry p.path_0404 p.path_0500) w).0
load_wrapped p object = object

-- `setInterface` of the object that was made, unless it is null.
unfoldable pub select_interface :
    {D C : Type 0} → Process D C → Text → Option (Object D C) → Global D C → Global D C
unfolding load_wrapped
select_interface p name none g = g
select_interface p name (some object) g =
    if text_eq name (codes "J2534DllWrapper")
    then record g { interface = some (load_wrapped p object) }
    else record g { interface = some object }

-- The test of the class name, and its two branches; without a name the default stays.
unfoldable pub select_class : {D C : Type 0} → Process D C → Text → Global D C → Global D C
unfolding create select_interface
select_class p [] g = g
select_class p (c ∷ cs) g = select_interface p (c ∷ cs) (create (c ∷ cs) g.factory) g

-- The reasons for which the system calls DllMain.
pub data Reason : Type 0 where
  process_attach thread_attach process_detach thread_detach : Reason

-- DllMain. The interface is asked for, to print its name, after an attachment.
unfoldable pub dll_main : {D C : Type 0} → Process D C → Reason → Global D C → Global D C
unfolding get_interface register_all select_class selected_class
dll_main p process_attach g =
    (get_interface (select_class p (selected_class p) (register_all p g))).1
dll_main p thread_attach g = (get_interface g).1
dll_main p process_detach g = g
dll_main p thread_detach g = g

module _ {D C : Type 0} (dll : Implementation D) (client : Implementation C) where
  -- A call of a virtual method.
  unfoldable pub virtual_call : Implementation (Object D C)
  virtual_call f args (simple_logger log) =
      log_and_refuse f args log >>= λ a. ok (a.0, a.1, simple_logger a.2)
  virtual_call f args (dll_wrapper w) =
      Methods.methods dll f args w >>= λ a. ok (a.0, a.1, dll_wrapper a.2)
  virtual_call f args (emulator e) =
      EmulatorMethods.methods f args e >>= λ a. ok (a.0, a.1, emulator a.2)
  virtual_call f args (cannelloni c) = client f args c >>= λ a. ok (a.0, a.1, cannelloni a.2)

  -- The exported functions: `return J2534Global::obj()->getInterface()->PassThru…(…)`.
  unfoldable pub exported_call : Implementation (Global D C)
  unfolding virtual_call get_interface
  exported_call f args g =
      let chosen = get_interface g in
      virtual_call f args chosen.0 >>= λ a.
      ok (a.0, a.1, record (chosen.1) { interface = some a.2 })
