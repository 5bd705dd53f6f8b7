-- ===== src/Global/Client.antt =====
-- The exported functions (j2534_OverIP/j2534.cpp) when DllMain (j2534_OverIP/main.cpp) has chosen the
-- Cannelloni client.
use j2534_oip_wrapper.Prelude.{◌≡◌, refl, ap, ◌∙◌, List, Option, none, some, codes}
use j2534_oip_wrapper.Message.{Result, ok, fault, ◌>>=◌}
use j2534_oip_wrapper.Report.{Fn}
use j2534_oip_wrapper.Interface.{Args, Answer, Implementation, Call, Reply, Text, run}
use j2534_oip_wrapper.Interface.Runs.{in_answer, in_run, run-hold}
use j2534_oip_wrapper.Global.{
  Object, cannelloni, Global, Process, process_attach, dll_main, new_global, selected_class,
  select_class, select_interface, create, get_interface, register_all, register_generator,
  load_wrapped, text_eq, virtual_call, exported_call,
}

-- The state of the Cannelloni client, if it is the interface.
abbrev pub chosen_client : {D C : Type 0} → Option (Object D C) → Option C
chosen_client (some (cannelloni c)) = some c
chosen_client interface = none

module _ {D C : Type 0} (dll : Implementation D) (client : Implementation C) where
  held : List (Text × Object D C) → C → Global D C
  held factory c = record { factory = factory; interface = some (cannelloni c) }

  attached_client :
      (p : Process D C)
      → selected_class p ≡ codes "J2534Cannelloni"
      → dll_main p process_attach new_global
        ≡ held (register_all p new_global).factory p.cannelloni_client
  unfolding dll_main select_class select_interface load_wrapped create register_all
      register_generator new_global get_interface text_eq held
  attached_client p e =
      ap (λ name. (get_interface (select_class p name (register_all p new_global))).1) e

  client_step :
      (factory : List (Text × Object D C)) (f : Fn) (args : Args f) (c : C)
      → exported_call dll client f args (held factory c)
        ≡ in_answer f (held factory) (client f args c)
  unfolding exported_call virtual_call get_interface held
  client_step factory f args c = by_result (client f args c)
    where
      as_object : Answer C f → Result (Answer (Object D C) f)
      as_object a = ok (a.0, a.1, cannelloni a.2)

      as_global : Answer (Object D C) f → Result (Answer (Global D C) f)
      as_global a = ok (a.0, a.1, record { factory = factory; interface = some a.2 })

      by_result :
          (r : Result (Answer C f)) → (r >>= as_object >>= as_global) ≡ in_answer f (held factory) r
      by_result (ok a) = refl
      by_result (fault e) = refl

  -- The replies of a run, and the state of the client after it.
  abbrev pub seen_client : Result (List Reply × Global D C) → Result (List Reply × Option C)
  seen_client (ok r) = ok (r.0, chosen_client r.1.interface)
  seen_client (fault e) = fault e

  seen-held :
      (factory : List (Text × Object D C)) (r : Result (List Reply × C))
      → seen_client (in_run (held factory) r) ≡ in_run (λ c. some c) r
  unfolding held
  seen-held factory (ok r) = refl
  seen-held factory (fault e) = refl

  -- When the registry selects the class J2534Cannelloni, any sequence of calls of the exported
  -- functions after DllMain's attachment gets the replies that the client itself gives to these calls,
  -- ends in undefined behaviour just when they do, and leaves the client in the state that it would be
  -- in.
  pub exports_reach_client :
      (p : Process D C) (calls : List Call)
      → selected_class p ≡ codes "J2534Cannelloni"
      → seen_client (run (exported_call dll client) calls (dll_main p process_attach new_global))
        ≡ in_run (λ c. some c) (run client calls p.cannelloni_client)
  exports_reach_client p calls e =
      let factory = (register_all p new_global).factory in
      ap (λ g. seen_client (run (exported_call dll client) calls g)) (attached_client p e)
      ∙ ap seen_client (
          run-hold client (exported_call dll client) (held factory) (client_step factory) calls
            p.cannelloni_client)
      ∙ seen-held factory (run client calls p.cannelloni_client)
