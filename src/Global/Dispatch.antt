-- ===== src/Global/Dispatch.antt =====
-- Which implementation answers a call of an exported function.
use j2534_oip_wrapper.Prelude.{
  ◌≡◌, refl, ap, ◌∙◌, List, [], ◌∷◌, map, Bool, false, Option, none, some, codes,
}
use j2534_oip_wrapper.Message.{Result, ok, fault, ◌>>=◌, err_not_supported}
use j2534_oip_wrapper.Report.{Fn}
use j2534_oip_wrapper.Interface.{Args, Answer, Implementation, Call, Reply, Text, run}
use j2534_oip_wrapper.Interface.Runs.{in_answer, in_run, run-hold}
use j2534_oip_wrapper.SimpleLogger.{Log, log_and_refuse}
use j2534_oip_wrapper.DllWrapper.{Wrapper, Pointer, assign_functions}
use j2534_oip_wrapper.DllWrapper.Methods
use j2534_oip_wrapper.DllWrapper.Transparent.{Forwardable, seen, run-seen, assign_functions-Bound}
use j2534_oip_wrapper.Global.{
  Object, simple_logger, dll_wrapper, Global, Process, process_attach, dll_main, new_global,
  selected_class, select_class, create, get_interface, register_all, register_generator, text_eq,
  virtual_call, exported_call,
}

-- A name for which no generator is registered.
abbrev pub IsUnregistered : Text → Type 0
IsUnregistered name =
    (text_eq (codes "J2534Cannelloni") name ≡ false)
    × (text_eq (codes "J2534Emulator") name ≡ false)
    × (text_eq (codes "J2534DllWrapper") name ≡ false)
    × (text_eq (codes "ExJ2534SimpleLogger") name ≡ false)

-- The state of the wrapped DLL, if the interface is a wrapper.
abbrev pub wrapped_dll : {D C : Type 0} → Option (Object D C) → Option D
wrapped_dll (some (dll_wrapper w)) = some w.dll
wrapped_dll interface = none

module _ {D C : Type 0} (dll : Implementation D) (client : Implementation C) where
  -- An object behind the interface pointer.
  hold : List (Text × Object D C) → Object D C → Global D C
  hold factory object = record { factory = factory; interface = some object }

  wrapper_step :
      (factory : List (Text × Object D C)) (f : Fn) (args : Args f) (w : Wrapper D)
      → exported_call dll client f args (hold factory (dll_wrapper w))
        ≡ in_answer f (λ w'. hold factory (dll_wrapper w')) (Methods.methods dll f args w)
  unfolding exported_call virtual_call get_interface hold
  wrapper_step factory f args w = by_result (Methods.methods dll f args w)
    where
      as_object : Answer (Wrapper D) f → Result (Answer (Object D C) f)
      as_object a = ok (a.0, a.1, dll_wrapper a.2)

      as_global : Answer (Object D C) f → Result (Answer (Global D C) f)
      as_global a = ok (a.0, a.1, hold factory a.2)

      by_result :
          (r : Result (Answer (Wrapper D) f))
          → (r >>= as_object >>= as_global) ≡ in_answer f (λ w'. hold factory (dll_wrapper w')) r
      by_result (ok a) = refl
      by_result (fault e) = refl

  -- The replies of a run, and the state of the wrapped DLL after it.
  abbrev pub seen_dll : Result (List Reply × Global D C) → Result (List Reply × Option D)
  seen_dll (ok r) = ok (r.0, wrapped_dll r.1.interface)
  seen_dll (fault e) = fault e

  seen-hold :
      (factory : List (Text × Object D C)) (r : Result (List Reply × Wrapper D))
      → seen_dll (in_run (λ w. hold factory (dll_wrapper w)) r) ≡ in_run (λ d. some d) (seen dll r)
  unfolding hold
  seen-hold factory (ok r) = refl
  seen-hold factory (fault e) = refl

  -- Where the interface is a wrapper whose function pointers were assigned as loadDll assigns them, a
  -- sequence of calls of the exported functions gets the replies that the wrapped DLL itself gives to
  -- these calls, and leaves it in the state that it would be in. The calls are such that each function
  -- is exported by the DLL and looked up, its arguments are readable, it is neither PassThruReadVersion
  -- nor PassThruGetLastError, whose reports are made of freed texts, and what the DLL leaves behind the
  -- pointers can be reported.
  pub exports_reach_dll :
      (factory : List (Text × Object D C)) (exported : Fn → Bool) (old : Fn → Pointer)
      (w : Wrapper D) (calls : List Call)
      → Forwardable dll exported calls w.dll
      → seen_dll (
          run (exported_call dll client) calls (record {
            factory = factory;
            interface = some (dll_wrapper (record w { functions = assign_functions exported old }));
          }))
        ≡ in_run (λ d. some d) (run dll calls w.dll)
  unfolding hold
  exports_reach_dll factory exported old w calls h =
      let w' : Wrapper D = record w { functions = assign_functions exported old } in
      ap seen_dll (
        run-hold (Methods.methods dll) (exported_call dll client)
          (λ v. hold factory (dll_wrapper v)) (wrapper_step factory) calls w')
      ∙ seen-hold factory (run (Methods.methods dll) calls w')
      ∙ ap (in_run (λ d. some d))
          (run-seen dll exported calls w' (assign_functions-Bound exported old) h)

  attached_logger :
      (p : Process D C)
      → IsUnregistered (selected_class p)
      → dll_main p process_attach new_global
        ≡ hold (register_all p new_global).factory (simple_logger [])
  unfolding dll_main new_global get_interface hold register_all register_generator
  attached_logger p u = by_name (selected_class p) u
    where
      by_name :
          (name : Text)
          → IsUnregistered name
          → (get_interface (select_class p name (register_all p new_global))).1
            ≡ hold (register_all p new_global).factory (simple_logger [])
      by_name [] u = refl
      by_name (k ∷ ks) u = rw (u.0, u.1, u.2, u.3, create) refl

  logger_step :
      (factory : List (Text × Object D C)) (f : Fn) (args : Args f) (log : Log)
      → exported_call dll client f args (hold factory (simple_logger log))
        ≡ in_answer f (λ log'. hold factory (simple_logger log')) (log_and_refuse f args log)
  unfolding exported_call virtual_call get_interface hold log_and_refuse
  logger_step factory f args log = refl

  -- What a caller gets who is refused: the arguments stay as they are.
  abbrev pub refusal : Call → Reply
  refusal c = record { fn = c.fn; status = err_not_supported; args = c.args }

  logger_run :
      (calls : List Call) (log : Log)
      → (log' : Log) × (run log_and_refuse calls log ≡ ok (map refusal calls, log'))
  unfolding run log_and_refuse
  logger_run [] log = (log, refl)
  logger_run (c ∷ cs) log = let (log', q) = logger_run cs (c.fn ∷ log) in (log', rw q refl)

  -- When the registry selects no class, or one that is not registered, every call of an exported
  -- function after DllMain's attachment is answered with ERR_NOT_SUPPORTED and leaves its
  -- arguments as they are.
  pub unknown_class_refused :
      (p : Process D C) (calls : List Call)
      → IsUnregistered (selected_class p)
      → (g : Global D C) × (run
            (exported_call dll client)
            calls
            (dll_main p process_attach new_global)
          ≡ ok (map refusal calls, g))
  unknown_class_refused p calls u =
      let factory = (register_all p new_global).factory in
      let (log, q) = logger_run calls [] in
      let held =
        run-hold log_and_refuse (exported_call dll client)
          (λ log'. hold factory (simple_logger log')) (logger_step factory) calls [] in
      (
        hold factory (simple_logger log),
        ap (run (exported_call dll client) calls) (attached_logger p u)
            ∙ held
            ∙ ap (in_run (λ log'. hold factory (simple_logger log'))) q,
      )
