-- ===== src/Interface/Runs.antt =====
-- Runs of calls on an object, one call at a time.
use j2534_oip_wrapper.Prelude.{◌≡◌, refl, sym, ap, ◌∙◌, ◌⊎◌, inl, inr, List, [], ◌∷◌}
use j2534_oip_wrapper.Message.{Result, ok, fault, ◌>>=◌, Fault}
use j2534_oip_wrapper.Interface.{Args, Answer, Implementation, Call, Reply, run}
use j2534_oip_wrapper.Report.{Fn}

-- The rest of a run, after its first reply.
unfoldable pub with_reply : {T : Type 0} → Reply → Result (List Reply × T) → Result (List Reply × T)
with_reply r rest = rest >>= λ q. ok (r ∷ q.0, q.1)

module _ {T : Type 0} (methods : Implementation T) (c : Call) (cs : List Call) (t : T) where
  pub run-ok :
      (a : Answer T c.fn)
      → methods c.fn c.args t ≡ ok a
      → run methods (c ∷ cs) t
        ≡ with_reply (record { fn = c.fn; status = a.0; args = a.1 }) (run methods cs a.2)
  unfolding run with_reply
  run-ok a e = rw e refl

  pub run-fault : (e : Fault) → methods c.fn c.args t ≡ fault e → run methods (c ∷ cs) t ≡ fault e
  unfolding run
  run-fault e d = rw d refl

pub Result-cases :
    {A : Type 0} (r : Result A) → ((a : A) × (r ≡ ok a)) ⊎ ((e : Fault) × (r ≡ fault e))
Result-cases (ok a) = inl (a, refl)
Result-cases (fault e) = inr (e, refl)

-- The state in an answer or at the end of a run, seen from an object that holds it.
abbrev pub in_answer : {S T : Type 0} (f : Fn) → (S → T) → Result (Answer S f) → Result (Answer T f)
in_answer f hold (ok a) = ok (a.0, a.1, hold a.2)
in_answer f hold (fault e) = fault e

abbrev pub in_run : {S T : Type 0} → (S → T) → Result (List Reply × S) → Result (List Reply × T)
in_run hold (ok r) = ok (r.0, hold r.1)
in_run hold (fault e) = fault e

in_run-with_reply :
    {S T : Type 0} (hold : S → T) (r : Reply) (rest : Result (List Reply × S))
    → in_run hold (with_reply r rest) ≡ with_reply r (in_run hold rest)
unfolding with_reply
in_run-with_reply hold r (ok q) = refl
in_run-with_reply hold r (fault e) = refl

-- If each method of an object calls that of the object it holds, so does each run.
pub run-hold :
    {S T : Type 0} (inner : Implementation S) (outer : Implementation T) (hold : S → T)
    → ((f : Fn) (args : Args f) (s : S) → outer f args (hold s) ≡ in_answer f hold (inner f args s))
    → (calls : List Call) (s : S) → run outer calls (hold s) ≡ in_run hold (run inner calls s)
unfolding run
run-hold inner outer hold step [] s = refl
run-hold inner outer hold step (c ∷ cs) s = elim (Result-cases (inner c.fn c.args s)) [
  | inl (a, d) ↦
      let r : Reply = record { fn = c.fn; status = a.0; args = a.1 } in
      run-ok outer c cs (hold s) (a.0, a.1, hold a.2)
        (step c.fn c.args s ∙ ap (in_answer c.fn hold) d)
      ∙ ap (with_reply r) (run-hold inner outer hold step cs a.2)
      ∙ sym (in_run-with_reply hold r (run inner cs a.2))
      ∙ sym (ap (in_run hold) (run-ok inner c cs s a d))
  | inr (e, d) ↦
      run-fault outer c cs (hold s) e (step c.fn c.args s ∙ ap (in_answer c.fn hold) d)
      ∙ sym (ap (in_run hold) (run-fault inner c cs s e d))
]
