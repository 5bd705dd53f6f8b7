-- ===== src/Examples/Exported.antt =====
-- Examples of the exported functions on the Cannelloni client.
use j2534_oip_wrapper.Prelude.{
  ℕ, zero, suc, ◌*◌, ◌<◌, subst, ◌≡◌, refl, List, [], ◌∷◌, true, Option, arith, none, some, codes,
}
use j2534_oip_wrapper.Report
use j2534_oip_wrapper.Report.{Fn}
use j2534_oip_wrapper.Interface.{Call, Reply, run}
use j2534_oip_wrapper.Interface.Runs.{in_run}
use j2534_oip_wrapper.Emulator.{Emulator}
use j2534_oip_wrapper.Emulator.Methods as EmulatorMethods
use j2534_oip_wrapper.Cannelloni.Calls.{Moment, Session, receive_all}
use j2534_oip_wrapper.Cannelloni.Client.Valid.{IsValid}
use j2534_oip_wrapper.Cannelloni.Client.Threads.{Datagram}
use j2534_oip_wrapper.Cannelloni.Runs.{
  Surroundings, Surrounded, later-Surrounded, HoldsValid, exported_calls_keep_client,
}
use j2534_oip_wrapper.Prelude.Assoc.{Fresh}
use j2534_oip_wrapper.Cannelloni.Client.{Client}
use j2534_oip_wrapper.Cannelloni.System.{initial, initial-IsValid}
use j2534_oip_wrapper.Message.{Result, WhenOk}
use j2534_oip_wrapper.Cannelloni.Methods as ClientMethods
use j2534_oip_wrapper.Global.{
  Process, process_attach, dll_main, new_global, exported_call, selected_class, from_registry,
  registry_value,
}
use j2534_oip_wrapper.Global.Client.{seen_client, exports_reach_client}
use j2534_oip_wrapper.Examples.{empty_client, working}
use j2534_oip_wrapper.Examples.Implementations.{new_dll, blank_msg, open_call}

-- The surroundings of a call with no socket to open and no datagram.
abbrev quiet : Moment
quiet = record {
  received = [];
  open_env = record working { socket = none };
  elapsed = λ i. 10 * i;
  sends = λ i. true;
  wsa_error = 0;
  select_env = record { elapsed = λ i. 10 * i; snapshot = λ i. [] };
  name_alloc = true;
  addr_alloc = true;
}

abbrev bridge_packet : List ℕ
bridge_packet = 1 ∷ 0 ∷ 0 ∷ 1 ∷ 0 ∷ 0xe8 ∷ 7 ∷ 0 ∷ 0 ∷ 2 ∷ 1 ∷ 12 ∷ 0 ∷ 0 ∷ 0 ∷ 0 ∷ 0 ∷ 0 ∷ []

abbrev busy : Moment
busy = record quiet { received = (20000, bridge_packet) ∷ [] }

abbrev opening : Moment
opening = record quiet { open_env = working }

-- Only the first call opens a socket, and before the third one the bridge sends a packet.
abbrev moment : ℕ → Moment
moment zero = opening
moment (suc zero) = quiet
moment (suc (suc zero)) = busy
moment (suc (suc (suc i))) = quiet

abbrev new_session : Session
new_session = record { client = empty_client; moments = moment; calls = 0 }

abbrev client_process : Process Emulator Session
client_process = record {
  class_0404 = none;
  class_0500 = some (some (codes "J2534Cannelloni"));
  path_0404 = none;
  path_0500 = none;
  wrapper_address = 0x100;
  emulator_address = 0x200;
  loads = true;
  exported = λ f. true;
  dll = new_dll;
  cannelloni_client = new_session;
}

abbrev later_calls : List Call
later_calls =
    (record { fn = Report.pass_thru_connect; args = (20000, 5, 0, 500_000, some 0) })
    ∷ (record {
      fn = Report.pass_thru_read_msgs;
      args = (20000, some (blank_msg ∷ []), some 1, 100);
    })
    ∷ (record { fn = Report.pass_thru_close; args = 20000 })
    ∷ []

abbrev client_calls : List Call
client_calls = open_call ∷ later_calls

exports_reach_client_example :
    seen_client EmulatorMethods.methods ClientMethods.methods (
      run
        (exported_call EmulatorMethods.methods ClientMethods.methods)
        client_calls
        (dll_main client_process process_attach new_global))
    ≡ in_run (λ c. some c) (run ClientMethods.methods client_calls new_session)
unfolding selected_class from_registry registry_value
exports_reach_client_example =
    exports_reach_client EmulatorMethods.methods ClientMethods.methods client_process client_calls
      refl

-- The packet fits the buffer, and only the first call opens a socket.
bridge_packet-Datagram : Datagram bridge_packet
bridge_packet-Datagram = record { at_most = omega arith; all_bytes = ground arith }

new_session-IsValid : IsValid new_session.client
unfolding initial
new_session-IsValid = initial-IsValid none 20000 true

quiet-Surroundings : (c : Client) → Surroundings quiet c
quiet-Surroundings c = record { datagrams = tt; fresh = λ c' r fd s. absurd cc }

busy-Surroundings : (c : Client) → Surroundings busy c
busy-Surroundings c = record {
  datagrams = (bridge_packet-Datagram, tt);
  fresh = λ c' r fd s. absurd cc;
}

moment-Surroundings : (i : ℕ) (c : Client) → 0 < i → Surroundings (moment i) c
moment-Surroundings zero c later = absurd (omega arith)
moment-Surroundings (suc zero) c later = quiet-Surroundings c
moment-Surroundings (suc (suc zero)) c later = busy-Surroundings c
moment-Surroundings (suc (suc (suc i))) c later = quiet-Surroundings c

opening-Surroundings : Surroundings opening empty_client
unfolding receive_all
opening-Surroundings = record {
  datagrams = tt;
  fresh = λ c' r fd s.
      subst (λ (x : Result Client). WhenOk (λ (y : Client). Fresh fd y.sockets) x) r tt;
}

client_calls-Surrounded : Surrounded client_calls new_session
client_calls-Surrounded = (
  opening-Surroundings,
  later-Surrounded later_calls open_call.fn open_call.args new_session moment-Surroundings,
)

exported_calls_keep_client_example :
    WhenOk
      (λ (q : List Reply × Option Session). HoldsValid q.1)
      (seen_client EmulatorMethods.methods ClientMethods.methods (
        run
          (exported_call EmulatorMethods.methods ClientMethods.methods)
          client_calls
          (dll_main client_process process_attach new_global)))
unfolding selected_class from_registry registry_value
exported_calls_keep_client_example =
    exported_calls_keep_client EmulatorMethods.methods client_process client_calls refl
      new_session-IsValid client_calls-Surrounded
