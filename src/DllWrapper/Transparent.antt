-- ===== src/DllWrapper/Transparent.antt =====
-- The wrapped DLL as the caller of J2534DllWrapper sees it.
use j2534_oip_wrapper.Prelude.{
  ◌≡◌, refl, sym, ap, ◌∙◌, inl, inr, List, [], ◌∷◌, ◌++◌, Bool, true, false,
}
use j2534_oip_wrapper.Message.{Result, ok, fault, Fault, WhenOk}
use j2534_oip_wrapper.Report
use j2534_oip_wrapper.Report.{Fn, Put}
use j2534_oip_wrapper.Interface.{Args, Answer, Implementation, Call, Reply, run}
use j2534_oip_wrapper.Interface.Runs.{with_reply, run-ok, run-fault, Result-cases}
use j2534_oip_wrapper.DllWrapper.{
  Wrapper, Pointer, procedure, assign_functions, load_function, send, forward, wrapped, is_stale,
}
use j2534_oip_wrapper.DllWrapper.Methods.{wrapping, methods}
use j2534_oip_wrapper.DllWrapper.Readable.{Readable, Reportable, Ends-value}
use j2534_oip_wrapper.DllWrapper.Reports.{before-Ends, after-Ends}

-- A function that loadDll looks up.
abbrev pub IsLookedUp : Fn → Type 0
IsLookedUp Report.pass_thru_read_details = ⊥
IsLookedUp f = Unit

abbrev pub Bound : (Fn → Bool) → (Fn → Pointer) → Type 0
Bound exported functions = (f : Fn) → IsLookedUp f → exported f ≡ true → functions f ≡ procedure

-- After loadDll the pointer of every function that is looked up and exported is set.
pub assign_functions-Bound :
    (exported : Fn → Bool) (old : Fn → Pointer) → Bound exported (assign_functions exported old)
unfolding assign_functions load_function
assign_functions-Bound exported old Report.pass_thru_read_details l e = absurd l
assign_functions-Bound exported old f l e = rw e refl

module _ {S : Type 0} (dll : Implementation S) where
  -- Calls that a report can be made of, on a DLL in a state: each function is exported and looked
  -- up, its arguments are readable, its report has no freed texts, and what the DLL leaves behind the
  -- pointers can be reported.
  abbrev pub Forwardable : (Fn → Bool) → List Call → S → Type 0
  Forwardable exported [] s = Unit
  Forwardable exported (c ∷ cs) s =
      IsLookedUp c.fn
      × (exported c.fn ≡ true)
      × Readable c.fn c.args
      × (is_stale c.fn ≡ false)
      × WhenOk (λ (a : Answer S c.fn). Reportable c.fn a.1 × Forwardable exported cs a.2)
          (dll c.fn c.args s)

  -- The replies, and the state of the DLL behind the wrapper.
  abbrev pub seen : Result (List Reply × Wrapper S) → Result (List Reply × S)
  seen (ok r) = ok (r.0, r.1.dll)
  seen (fault e) = fault e

  -- The branches of a method, by its function pointer and the run of the DLL.
  module _ (f : Fn) (args : Args f) (w : Wrapper S) (puts : List Put) where
    pub forward-procedure :
        (a : Answer S f) (more : List Put)
        → w.functions f ≡ procedure
        → is_stale f ≡ false
        → dll f args w.dll ≡ ok a
        → (wrapping f).after a.0 a.1 ≡ ok more
        → forward dll f (wrapping f) puts args w
          ≡ ok (a.0, a.1, send dll (record w { dll = a.2 }) (wrapping f).label (puts ++ more))
    unfolding forward
    forward-procedure a more p fresh d e = rw (p, forward) (rw (d, e, fresh) refl)

    forward-fault :
        (e : Fault)
        → w.functions f ≡ procedure
        → dll f args w.dll ≡ fault e
        → forward dll f (wrapping f) puts args w ≡ fault e
    unfolding forward
    forward-fault e p d = rw (p, forward) (rw d refl)

  pub methods-before :
      (f : Fn) (args : Args f) (w : Wrapper S) (puts : List Put)
      → (wrapping f).before args ≡ ok puts
      → methods dll f args w ≡ forward dll f (wrapping f) puts args w
  unfolding methods wrapped
  methods-before f args w puts b = rw b refl

  -- A call of a function whose pointer is set is the call of the DLL, and a report.
  forwarded :
      (f : Fn) (args : Args f) (w : Wrapper S) (a : Answer S f)
      → w.functions f ≡ procedure
      → is_stale f ≡ false
      → Readable f args
      → dll f args w.dll ≡ ok a
      → Reportable f a.1
      → (puts : List Put) × (methods dll f args w
          ≡ ok (a.0, a.1, send dll (record w { dll = a.2 }) (wrapping f).label puts))
  forwarded f args w a p fresh h d g =
      let (puts, b) = Ends-value ((wrapping f).before args) (before-Ends f args h) in
      let (more, e) = Ends-value ((wrapping f).after a.0 a.1) (after-Ends f a.0 a.1 g) in
      (
        puts ++ more,
        methods-before f args w puts b ∙ forward-procedure f args w puts a more p fresh d e,
      )

  forwarded-fault :
      (f : Fn) (args : Args f) (w : Wrapper S) (e : Fault)
      → w.functions f ≡ procedure
      → Readable f args
      → dll f args w.dll ≡ fault e
      → methods dll f args w ≡ fault e
  forwarded-fault f args w e p h d =
      let (puts, b) = Ends-value ((wrapping f).before args) (before-Ends f args h) in
      methods-before f args w puts b ∙ forward-fault f args w puts e p d

  seen-with_reply :
      (r : Reply) (rest : Result (List Reply × Wrapper S))
      → seen (with_reply r rest) ≡ with_reply r (seen rest)
  unfolding with_reply
  seen-with_reply r (ok q) = refl
  seen-with_reply r (fault e) = refl

  -- Through a wrapper whose pointers are set, calls that can be forwarded get the replies of the
  -- DLL itself, and leave it in the state that it would be in.
  pub run-seen :
      (exported : Fn → Bool) (calls : List Call) (w : Wrapper S)
      → Bound exported w.functions
      → Forwardable exported calls w.dll
      → seen (run (methods dll) calls w) ≡ run dll calls w.dll
  unfolding run send
  run-seen exported [] w b h = refl
  run-seen exported (c ∷ cs) w b h = elim (Result-cases (dll c.fn c.args w.dll)) [
    | inl (a, d) ↦
        let k = (rw d at h).4 in
        let (puts, m) = forwarded c.fn c.args w a (b c.fn h.0 h.1) h.3 h.2 d k.0 in
        let w' : Wrapper S = send dll (record w { dll = a.2 }) (wrapping c.fn).label puts in
        let r : Reply = record { fn = c.fn; status = a.0; args = a.1 } in
        ap seen (run-ok (methods dll) c cs w (a.0, a.1, w') m)
        ∙ seen-with_reply r (run (methods dll) cs w')
        ∙ ap (with_reply r) (run-seen exported cs w' b k.1)
        ∙ sym (run-ok dll c cs w.dll a d)
    | inr (e, d) ↦
        ap seen (
          run-fault (methods dll) c cs w e (forwarded-fault c.fn c.args w e (b c.fn h.0 h.1) h.2 d))
        ∙ sym (run-fault dll c cs w.dll e d)
  ]
