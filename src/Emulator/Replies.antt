-- ===== src/Emulator/Replies.antt =====
-- What a caller of J2534Emulator gets.
use j2534_oip_wrapper.Prelude.{
  ℕ, ◌≡◌, refl, ap, ◌∙◌, List, [], ◌∷◌, Option, none, some, All, ◌==◌, Bool-cases, inl, inr, map,
  if◌then◌else◌,
}
use mathlib.Core.Path.{ap₂}
use j2534_oip_wrapper.Message.{PassThruMsg, Result, ok, fault, ◌>>=◌, status_noerror}
use j2534_oip_wrapper.Report
use j2534_oip_wrapper.Report.{Fn}
use j2534_oip_wrapper.Interface.{Args, Answer, Call, Reply, run, deref, fetch_msgs}
use j2534_oip_wrapper.Interface.Runs.{with_reply, run-ok}
use j2534_oip_wrapper.Cannelloni.Client.Ioctl.{
  IoctlMemory, SParam, read_vbatt, get_device_info, serial_number,
}
use j2534_oip_wrapper.DllWrapper.Readable.{
  NonNull, HasMsgs, Ends, Ends-bind, deref-Ends, fetch_msgs-Ends,
}
use j2534_oip_wrapper.Emulator
use j2534_oip_wrapper.Emulator.{Emulator, called, method_name, write_first, flow_control_msg}
use j2534_oip_wrapper.Emulator.Methods
use j2534_oip_wrapper.Emulator.Methods.{methods, ioctl_effect, first_device_info}

abbrev pub NonEmpty : {A : Type 0} → Option (List A) → Type 0
NonEmpty none = ⊥
NonEmpty (some []) = ⊥
NonEmpty (some (a ∷ rest)) = Unit

-- The memory that the branch of PassThruIoctl reads or writes.
abbrev pub UsableMemory : ℕ → IoctlMemory → Type 0
UsableMemory ioctl_id mem =
    if ioctl_id == read_vbatt
    then NonNull mem.output_word
    else if ioctl_id == get_device_info
    then NonEmpty mem.output_params
    else Unit

-- Arguments that a method can read and write through.
abbrev pub Usable : (f : Fn) → Args f → Type 0
Usable Report.pass_thru_open args = NonNull args.1
Usable Report.pass_thru_connect args = NonNull args.4
Usable Report.pass_thru_read_msgs args = NonNull args.2 × NonEmpty args.1
Usable Report.pass_thru_queue_msgs args = HasMsgs args.2 args.1
Usable Report.pass_thru_write_msgs args = HasMsgs args.2 args.1
Usable Report.pass_thru_read_version args = NonNull args.1 × NonNull args.2 × NonNull args.3
Usable Report.pass_thru_ioctl args = UsableMemory args.1 args.2
Usable f args = Unit

-- A method that ends with STATUS_NOERROR.
abbrev Succeeds : (f : Fn) → Result (Answer Emulator f) → Type 0
Succeeds f (ok a) = a.0 ≡ status_noerror
Succeeds f (fault e) = ⊥

Succeeds-bind :
    {A : Type 0} (f : Fn) (r : Result A) (k : A → Result (Answer Emulator f))
    → Ends r
    → ((a : A) → Succeeds f (k a))
    → Succeeds f (r >>= k)
Succeeds-bind f (ok a) k h s = s a
Succeeds-bind f (fault e) k h s = absurd h

write_first-Ends :
    (m : PassThruMsg) (p : Option (List PassThruMsg)) → NonEmpty p → Ends (write_first m p)
unfolding write_first
write_first-Ends m none h = absurd h
write_first-Ends m (some []) h = absurd h
write_first-Ends m (some (old ∷ ms)) h = tt

first_device_info-Ends : (p : Option (List SParam)) → NonEmpty p → Ends (first_device_info p)
unfolding first_device_info
first_device_info-Ends none h = absurd h
first_device_info-Ends (some []) h = absurd h
first_device_info-Ends (some (p ∷ ps)) h = elim (Bool-cases (p.parameter == serial_number)) [
  | inl e ↦ rw e tt
  | inr e ↦ rw e tt
]

ioctl_effect-Ends :
    (ioctl_id : ℕ) (mem : IoctlMemory)
    → UsableMemory ioctl_id mem
    → Ends (ioctl_effect ioctl_id mem)
unfolding ioctl_effect
ioctl_effect-Ends ioctl_id mem h = elim (Bool-cases (ioctl_id == read_vbatt)) [
  | inl e ↦
      rw e (Ends-bind (deref mem.output_word) _ (deref-Ends mem.output_word (rw e at h)) λ a. tt)
  | inr e ↦ elim (Bool-cases (ioctl_id == get_device_info)) [
    | inl d ↦
        rw (e, d)
          (Ends-bind (first_device_info mem.output_params) _
            (first_device_info-Ends mem.output_params (rw (e, d) at h)) λ a. tt)
    | inr d ↦ rw (e, d) tt
  ]
]

fetch-Succeeds :
    (f : Fn) (count : Option ℕ) (p : Option (List PassThruMsg))
    (k : ℕ → List PassThruMsg → Result (Answer Emulator f))
    → HasMsgs count p
    → ((n : ℕ) (ms : List PassThruMsg) → Succeeds f (k n ms))
    → Succeeds f (deref count >>= λ n. fetch_msgs n p >>= λ ms. k n ms)
unfolding deref
fetch-Succeeds f none p k h s = absurd h
fetch-Succeeds f (some n) p k h s =
    Succeeds-bind f (fetch_msgs n p) (k n) (fetch_msgs-Ends n p h) (s n)

method-Succeeds :
    (f : Fn) (args : Args f) (e : Emulator) → Usable f args → Succeeds f (methods f args e)
unfolding methods Emulator.pass_thru_open Emulator.pass_thru_close Emulator.pass_thru_connect
    Emulator.pass_thru_disconnect Emulator.pass_thru_read_msgs Emulator.pass_thru_queue_msgs
    Emulator.pass_thru_write_msgs Methods.only_called Methods.pass_thru_read_version
    Methods.pass_thru_get_last_error Methods.pass_thru_ioctl Methods.pass_thru_get_next_car_daq
method-Succeeds Report.pass_thru_open args e h =
    Succeeds-bind Report.pass_thru_open (deref args.1) _ (deref-Ends args.1 h) λ a. refl
method-Succeeds Report.pass_thru_connect args e h =
    Succeeds-bind Report.pass_thru_connect (deref args.4) _ (deref-Ends args.4 h) λ a. refl
method-Succeeds Report.pass_thru_read_msgs args e h =
    Succeeds-bind Report.pass_thru_read_msgs (deref args.2) _ (deref-Ends args.2 h.0) λ n.
      Succeeds-bind Report.pass_thru_read_msgs (write_first flow_control_msg args.1) _
        (write_first-Ends flow_control_msg args.1 h.1) λ ms. refl
method-Succeeds Report.pass_thru_queue_msgs args e h =
    fetch-Succeeds Report.pass_thru_queue_msgs args.2 args.1 _ h λ n ms. refl
method-Succeeds Report.pass_thru_write_msgs args e h =
    fetch-Succeeds Report.pass_thru_write_msgs args.2 args.1 _ h λ n ms. refl
method-Succeeds Report.pass_thru_read_version args e h =
    Succeeds-bind Report.pass_thru_read_version (deref args.3) _ (deref-Ends args.3 h.2) λ a.
      Succeeds-bind Report.pass_thru_read_version (deref args.2) _ (deref-Ends args.2 h.1) λ b.
        Succeeds-bind Report.pass_thru_read_version (deref args.1) _ (deref-Ends args.1 h.0)
          λ c. refl
method-Succeeds Report.pass_thru_ioctl args e h =
    Succeeds-bind Report.pass_thru_ioctl (ioctl_effect args.1 args.2) _
      (ioctl_effect-Ends args.1 args.2 h) λ mem. refl
method-Succeeds Report.pass_thru_get_next_car_daq (none, version, addr) e h = refl
method-Succeeds Report.pass_thru_get_next_car_daq (some name, none, addr) e h = refl
method-Succeeds Report.pass_thru_get_next_car_daq (some name, some version, none) e h = refl
method-Succeeds Report.pass_thru_get_next_car_daq (some name, some version, some addr) e h =
    elim (Bool-cases (e.dev_counter == 0)) [ inl d ↦ rw d refl | inr d ↦ rw d refl ]
method-Succeeds f args e h = refl

Succeeds-value :
    (f : Fn) (r : Result (Answer Emulator f))
    → Succeeds f r
    → (a : Answer Emulator f) × (r ≡ ok a) × (a.0 ≡ status_noerror)
Succeeds-value f (ok a) h = (a, refl, h)
Succeeds-value f (fault e) h = absurd h

-- Every sequence of calls whose arguments can be used ends, and each call is answered with
-- STATUS_NOERROR.
pub run_succeeds :
    (calls : List Call) (e : Emulator)
    → All (λ (c : Call). Usable c.fn c.args) calls
    → (replies : List Reply) × (e' : Emulator) × (run methods calls e ≡ ok (replies, e'))
      × (map {B = Fn × ℕ} (λ (r : Reply). (r.fn, r.status)) replies
          ≡ map {B = Fn × ℕ} (λ (c : Call). (c.fn, status_noerror)) calls)
unfolding run with_reply
run_succeeds [] e h = ([], e, refl, refl)
run_succeeds (c ∷ cs) e h =
    let (a, m, z) =
      Succeeds-value c.fn (methods c.fn c.args e) (method-Succeeds c.fn c.args e h.0) in
    let (replies, e', q, s) = run_succeeds cs a.2 h.1 in
    (
      record { fn = c.fn; status = a.0; args = a.1 } ∷ replies,
      e',
      run-ok methods c cs e a m
          ∙ ap (with_reply (record { fn = c.fn; status = a.0; args = a.1 })) q,
      ap₂ ◌∷◌ (pair c.fn z) s,
    )
  where
    pair : (f : Fn) {m n : ℕ} → m ≡ n → ◌≡◌ {A = Fn × ℕ} (f, m) (f, n)
    pair f e = ap (λ (k : ℕ). (f, k)) e
