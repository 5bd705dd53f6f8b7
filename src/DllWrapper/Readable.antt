-- ===== src/DllWrapper/Readable.antt =====
-- Arguments that the reports of J2534DllWrapper can be made of: the pointers that a method reads
-- for its report are not null, and an array has the messages that its count says.
use j2534_oip_wrapper.Prelude.{
  ℕ, ◌≡◌, refl, ◌≤◌, List, [], ◌∷◌, true, Option, none, some, length, take, le→leb, All, All-take,
}
use j2534_oip_wrapper.Message.{PassThruMsg, data_capacity, Result, ok, fault, ◌>>=◌}
use j2534_oip_wrapper.Report
use j2534_oip_wrapper.Report.{Fn, Value}
use j2534_oip_wrapper.Interface.{Args, Text, deref, all_fit, fetch_msgs, msgs_value}
use j2534_oip_wrapper.DllWrapper.Messages.{msg_value}

abbrev pub NonNull : {A : Type 0} → Option A → Type 0
NonNull none = ⊥
NonNull (some a) = Unit

abbrev pub FitsMsg : PassThruMsg → Type 0
FitsMsg m = m.data_size ≤ data_capacity

abbrev pub HasMsg : Option PassThruMsg → Type 0
HasMsg none = ⊥
HasMsg (some m) = FitsMsg m

-- The count, and the array.
abbrev pub HasMsgs : Option ℕ → Option (List PassThruMsg) → Type 0
HasMsgs none p = ⊥
HasMsgs (some count) none = count ≡ 0
HasMsgs (some count) (some ms) = (count ≤ length ms) × All FitsMsg ms

-- What a method reads before it looks for the function of the DLL.
abbrev pub Readable : (f : Fn) → Args f → Type 0
Readable Report.pass_thru_open args = NonNull args.1
Readable Report.pass_thru_connect args = NonNull args.4
Readable Report.pass_thru_get_last_error description = NonNull description
Readable Report.pass_thru_read_msgs args = NonNull args.2
Readable Report.pass_thru_write_msgs args = HasMsgs args.2 args.1
Readable Report.pass_thru_queue_msgs args = HasMsgs args.2 args.1
Readable Report.pass_thru_start_periodic_msg args = HasMsg args.1 × NonNull args.2
Readable Report.pass_thru_start_msg_filter args =
    HasMsg args.2 × HasMsg args.3 × HasMsg args.4 × NonNull args.5
Readable Report.pass_thru_read_version args = NonNull args.1 × NonNull args.2 × NonNull args.3
Readable Report.pass_thru_read_ip_setup args =
    NonNull args.1 × NonNull args.2 × NonNull args.3 × NonNull args.4 × NonNull args.5
Readable Report.pass_thru_write_ip_setup args =
    NonNull args.1 × NonNull args.2 × NonNull args.3 × NonNull args.4 × NonNull args.5
Readable Report.pass_thru_read_pc_setup args = NonNull args.0 × NonNull args.1
Readable Report.pass_thru_get_next_car_daq args = NonNull args.1
Readable Report.pass_thru_scan_for_devices count = NonNull count
Readable Report.pass_thru_read_details name = NonNull name
Readable f args = Unit

abbrev pub NonNullText : Option (Option Text) → Type 0
NonNullText none = ⊥
NonNullText (some p) = NonNull p

-- The texts of PassThruGetNextCarDAQ, if the caller asked for the name.
abbrev pub HasTexts : Option (Option Text) → Option (Option Text) → Type 0
HasTexts none addr = Unit
HasTexts (some name) addr = NonNull name × NonNullText addr

-- What a method reads when the function of the DLL has returned.
abbrev pub Reportable : (f : Fn) → Args f → Type 0
Reportable Report.pass_thru_get_last_error description = NonNull description
Reportable Report.pass_thru_read_msgs out = HasMsgs out.2 out.1
Reportable Report.pass_thru_read_version out = NonNull out.1 × NonNull out.2 × NonNull out.3
Reportable Report.pass_thru_read_ip_setup out =
    NonNull out.1 × NonNull out.2 × NonNull out.3 × NonNull out.4 × NonNull out.5
Reportable Report.pass_thru_read_pc_setup out = NonNull out.0 × NonNull out.1
Reportable Report.pass_thru_get_next_car_daq out = NonNull out.1 × HasTexts out.0 out.2
Reportable Report.pass_thru_scan_for_devices count = NonNull count
Reportable Report.pass_thru_read_details name = NonNull name
Reportable f out = Unit

abbrev pub Ends : {A : Type 0} → Result A → Type 0
Ends (ok a) = Unit
Ends (fault e) = ⊥

pub Ends-value : {A : Type 0} (r : Result A) → Ends r → (a : A) × (r ≡ ok a)
Ends-value (ok a) h = (a, refl)
Ends-value (fault e) h = absurd h

pub Ends-bind :
    {A B : Type 0} (r : Result A) (f : A → Result B)
    → Ends r
    → ((a : A) → Ends (f a))
    → Ends (r >>= f)
Ends-bind (ok a) f h k = k a
Ends-bind (fault e) f h k = absurd h

pub deref-Ends : {A : Type 0} (p : Option A) → NonNull p → Ends (deref p)
unfolding deref
deref-Ends none h = absurd h
deref-Ends (some a) h = tt

all_fit-true : (ms : List PassThruMsg) → All FitsMsg ms → all_fit ms ≡ true
unfolding all_fit
all_fit-true [] h = refl
all_fit-true (m ∷ ms) h = rw (le→leb m.data_size data_capacity h.0) (all_fit-true ms h.1)

pub fetch_msgs_lem :
    (n : ℕ) (ms : List PassThruMsg)
    → n ≤ length ms
    → All FitsMsg ms
    → fetch_msgs n (some ms) ≡ ok (take n ms)
unfolding fetch_msgs
fetch_msgs_lem n ms h k =
    rw (le→leb n (length ms) h, all_fit-true (take n ms) (All-take FitsMsg n ms k)) refl

pub fetch_msgs-Ends :
    (n : ℕ) (p : Option (List PassThruMsg)) → HasMsgs (some n) p → Ends (fetch_msgs n p)
fetch_msgs-Ends n none h = rw h (unfold fetch_msgs in tt)
fetch_msgs-Ends n (some ms) h = rw (fetch_msgs_lem n ms h.0 h.1) tt

value_of_msgs-Ends :
    (n : ℕ) (p : Option (List PassThruMsg)) → HasMsgs (some n) p → Ends (msgs_value n p)
unfolding msgs_value
value_of_msgs-Ends n p h = Ends-bind (fetch_msgs n p) _ (fetch_msgs-Ends n p h) λ ms. tt

pub msgs_value-Ends :
    {B : Type 0} (count : Option ℕ) (p : Option (List PassThruMsg)) (k : ℕ → Value → Result B)
    → HasMsgs count p
    → ((n : ℕ) (v : Value) → Ends (k n v))
    → Ends (deref count >>= λ n. msgs_value n p >>= λ v. k n v)
unfolding deref
msgs_value-Ends none p k h e = absurd h
msgs_value-Ends (some n) p k h e = Ends-bind (msgs_value n p) (k n) (value_of_msgs-Ends n p h) (e n)

pub msg_value-Ends : (p : Option PassThruMsg) → HasMsg p → Ends (msg_value p)
unfolding msg_value msgs_value fetch_msgs all_fit
msg_value-Ends none h = absurd h
msg_value-Ends (some m) h = rw (le→leb m.data_size data_capacity h) tt
