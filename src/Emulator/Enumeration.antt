-- ===== src/Emulator/Enumeration.antt =====
-- The enumeration of J2534Emulator: PassThruGetNextCarDAQ and its global counter.
use j2534_oip_wrapper.Prelude.{
  ℕ, zero, suc, replicate, codes, ◌≡◌, refl, ap, ◌∙◌, ◌∷◌, false, Option, none, some, ◌==◌,
}
use j2534_oip_wrapper.Message.{ok, status_noerror}
use j2534_oip_wrapper.Report
use j2534_oip_wrapper.Report.{Fn}
use j2534_oip_wrapper.Interface.{Text, Call, Reply, run}
use j2534_oip_wrapper.Interface.Runs.{with_reply, run-ok}
use j2534_oip_wrapper.Emulator
use j2534_oip_wrapper.Emulator.{Emulator, called, method_name, write_first, flow_control_msg}
use j2534_oip_wrapper.Emulator.Methods
use j2534_oip_wrapper.Emulator.Methods.{methods, ioctl_effect, first_device_info}

-- A call of PassThruGetNextCarDAQ with three pointers.
abbrev pub next_car_daq : Option Text → ℕ → Option Text → Call
next_car_daq name version addr = record {
  fn = Report.pass_thru_get_next_car_daq;
  args = (some name, some version, some addr);
}

-- What the calls after the first one leave in `*name`, `*version` and `*addr`.
abbrev pub no_car_daq : ℕ → Option Text → Reply
no_car_daq version addr = record {
  fn = Report.pass_thru_get_next_car_daq;
  status = status_noerror;
  args = (some none, some version, some addr);
}

-- The method once the counter is past zero.
later_call :
    (name addr : Option Text) (version : ℕ) (e : Emulator)
    → (e.dev_counter == 0) ≡ false
    → methods Report.pass_thru_get_next_car_daq (some name, some version, some addr) e
      ≡ ok (
        status_noerror,
        (some none, some version, some addr),
        Emulator.send
            (Emulator.send e (called Report.pass_thru_get_next_car_daq))
            (method_name Report.pass_thru_get_next_car_daq),
      )
unfolding methods Methods.pass_thru_get_next_car_daq
later_call name addr version e h = rw h refl

later_calls :
    (n : ℕ) (name addr : Option Text) (version : ℕ) (e : Emulator)
    → (e.dev_counter == 0) ≡ false
    → (e' : Emulator) × (run methods (replicate n (next_car_daq name version addr)) e
        ≡ ok (replicate n (no_car_daq version addr), e'))
unfolding run replicate Emulator.send with_reply
later_calls zero name addr version e h = (e, refl)
later_calls (suc n) name addr version e h =
    let c : Call = next_car_daq name version addr in
    let e1 : Emulator =
      Emulator.send (Emulator.send e (called Report.pass_thru_get_next_car_daq))
        (method_name Report.pass_thru_get_next_car_daq) in
    let (e', q) = later_calls n name addr version e1 h in
    let one = run-ok methods c (replicate n c) e _ (later_call name addr version e h) in
    (e', one ∙ ap (with_reply (no_car_daq version addr)) q)

-- Calls of PassThruGetNextCarDAQ on a new emulator, each with the same non-null pointers, list one
-- device: the first call gives its name and address, every later one a null name. No call writes
-- the version.
pub enumerates_once :
    (this n version : ℕ) (name addr : Option Text)
    → (e : Emulator) × (run methods
          (replicate (suc n) (next_car_daq name version addr))
          (Emulator.new_emulator this)
        ≡ ok (
          record {
            fn = Report.pass_thru_get_next_car_daq;
            status = status_noerror;
            args =
                (some (some (codes "XDev1")), some version, some (some (codes "192.168.155.100")));
          }
              ∷ replicate n (no_car_daq version addr),
          e,
        ))
unfolding run replicate methods Methods.pass_thru_get_next_car_daq Emulator.send
    Emulator.new_emulator with_reply
enumerates_once this n version name addr =
    let e1 : Emulator = record {
      dev_counter = 1;
      sent =
          method_name Report.pass_thru_get_next_car_daq
          ∷ called Report.pass_thru_get_next_car_daq
          ∷ (Emulator.new_emulator this).sent;
    } in
    let (e, q) = later_calls n name addr version e1 refl in (e, rw q refl)
