-- ===== src/Cannelloni/Runs.antt =====
-- Sequences of calls of J2534CannelloniClient through the interface of the implementations
-- (j2534_OverIP/j2534cannelloniclient.cpp), and of the exported functions (j2534_OverIP/j2534.cpp).
use j2534_oip_wrapper.Prelude.{
  ℕ, suc, ◌<◌, arith, ◌≡◌, refl, sym, subst, List, [], ◌∷◌, All, Option, none, some, codes, inl,
  inr, Bool-cases,
}
use j2534_oip_wrapper.Message.{Result, ok, fault, ◌>>=◌, WhenOk, WhenOk-bind}
use j2534_oip_wrapper.Report.{Fn}
use j2534_oip_wrapper.Interface.{Args, Answer, Call, Reply, Implementation, run}
use j2534_oip_wrapper.Interface.Runs.{Result-cases, run-ok, run-fault, with_reply, in_run}
use j2534_oip_wrapper.Cannelloni.Client.{Client, read_freed}
use j2534_oip_wrapper.Cannelloni.Client.Valid.{IsValid}
use j2534_oip_wrapper.Cannelloni.Client.Invariant.{FreshSocket}
use j2534_oip_wrapper.Cannelloni.Client.Threads.{Datagram}
use j2534_oip_wrapper.Cannelloni.Calls.{Moment, Session, receive_all}
use j2534_oip_wrapper.Cannelloni.Methods.{call_client, call_session, answer_session, methods}
use j2534_oip_wrapper.Cannelloni.Sessions.{receive_all-IsValid, Keeps, call_client-Keeps, anything}
use j2534_oip_wrapper.Global.{
  Process, process_attach, dll_main, new_global, selected_class, exported_call,
}
use j2534_oip_wrapper.Global.Client.{seen_client, exports_reach_client}

-- Before a call, the threads' datagrams fit their buffers, and a new socket is not an open one.
pub record Surroundings (now : Moment) (c : Client) : Type 0 where
  pub datagrams : All (λ (r : ℕ × List ℕ). Datagram r.1) now.received
  pub fresh : (c' : Client) → receive_all now.received c ≡ ok c' → FreshSocket c' now.open_env

-- The same of every state that the client is in when a call of the sequence begins.
abbrev pub Surrounded : List Call → Session → Type 0
Surrounded [] s = Unit
Surrounded (call ∷ calls) s =
    Surroundings (s.moments s.calls) s.client
    × WhenOk (λ (a : Answer Session call.fn). Surrounded calls a.2) (methods call.fn call.args s)

-- A call uses up one moment.
abbrev Next : (f : Fn) → Session → Answer Session f → Type 0
Next f s a = (a.2.moments ≡ s.moments) × (a.2.calls ≡ suc s.calls)

answer_session-Next :
    (s : Session) (f : Fn) (a : Answer Client f) → WhenOk (Next f s) (answer_session s f a)
unfolding answer_session
answer_session-Next s f a = elim (Bool-cases (read_freed a.2)) [
  | inl freed ↦ rw (freed, answer_session) tt
  | inr sound ↦ rw (sound, answer_session) (refl, refl)
]

methods-Next : (f : Fn) (args : Args f) (s : Session) → WhenOk (Next f s) (methods f args s)
unfolding methods call_session
methods-Next f args s =
    let now = s.moments s.calls in
    WhenOk-bind {0, 0, 0, 0} (λ (c : Client). Unit) (Next f s) (receive_all now.received s.client)
      (call_session s f args) (anything (receive_all now.received s.client))
      λ c u.
        WhenOk-bind {0, 0, 0, 0} (λ (a : Answer Client f). Unit) (Next f s)
          (call_client now f args c) (answer_session s f) (anything (call_client now f args c))
          λ a w. answer_session-Next s f a

-- Surroundings that suit every state, after a call.
pub later-Surrounded :
    (calls : List Call) (f : Fn) (args : Args f) (s : Session)
    → ((i : ℕ) (c : Client) → s.calls < i → Surroundings (s.moments i) c)
    → WhenOk (λ (a : Answer Session f). Surrounded calls a.2) (methods f args s)
later-Surrounded [] f args s h = anything (methods f args s)
later-Surrounded (call ∷ calls) f args s h = elim (Result-cases (methods f args s)) [
  | inl (a, e) ↦
      let (same, next) = subst (WhenOk (Next f s)) e (methods-Next f args s) in
      let at : (i : ℕ) (c : Client) → s.calls < i → Surroundings (a.2.moments i) c =
        λ i c later. rw same (h i c later) in
      subst (WhenOk (λ (b : Answer Session f). Surrounded (call ∷ calls) b.2)) (sym e) (
        at a.2.calls a.2.client (omega (arith, next)),
        later-Surrounded calls call.fn call.args a.2
            λ i c later. at i c (omega (arith, next, later)),
      )
  | inr (x, e) ↦ subst (WhenOk (λ (b : Answer Session f). Surrounded (call ∷ calls) b.2)) (sym e) tt
]

-- What follows a part that may end in a fault.
behind :
    {A B : Type 0} (P : B → Type 0) (r : Result A) (f : A → Result B)
    → ((a : A) → r ≡ ok a → WhenOk P (f a))
    → WhenOk P (r >>= f)
behind P (ok a) f h = h a refl
behind P (fault e) f h = tt

answer_session-IsValid :
    (s : Session) (f : Fn) (a : Answer Client f)
    → IsValid a.2
    → WhenOk (λ (b : Answer Session f). IsValid b.2.client) (answer_session s f a)
unfolding answer_session
answer_session-IsValid s f a v = elim (Bool-cases (read_freed a.2)) [
  | inl freed ↦ rw (freed, answer_session) tt
  | inr sound ↦ rw (sound, answer_session) v
]

call_session-IsValid :
    (s : Session) (f : Fn) (args : Args f) (c : Client)
    → Keeps f (call_client (s.moments s.calls) f args c)
    → WhenOk (λ (a : Answer Session f). IsValid a.2.client) (call_session s f args c)
unfolding call_session
call_session-IsValid s f args c v =
    WhenOk-bind (λ (a : Answer Client f). IsValid a.2)
      (λ (a : Answer Session f). IsValid a.2.client) (call_client (s.moments s.calls) f args c)
      (answer_session s f) v λ a w. answer_session-IsValid s f a w

methods-IsValid :
    (f : Fn) (args : Args f) (s : Session)
    → IsValid s.client
    → Surroundings (s.moments s.calls) s.client
    → WhenOk (λ (a : Answer Session f). IsValid a.2.client) (methods f args s)
unfolding methods
methods-IsValid f args s v h =
    let now = s.moments s.calls in
    behind (λ (a : Answer Session f). IsValid a.2.client) (receive_all now.received s.client)
      (call_session s f args)
      λ c e. call_session-IsValid s f args c (
        call_client-Keeps now c
          (subst (WhenOk IsValid) e (receive_all-IsValid now.received s.client v h.datagrams))
          (h.fresh c e) f args)

-- The client is valid at the end of a run.
abbrev ValidEnd : Result (List Reply × Session) → Type 0
ValidEnd r = WhenOk (λ (q : List Reply × Session). IsValid q.1.client) r

with_reply-ValidEnd :
    (r : Reply) (rest : Result (List Reply × Session))
    → ValidEnd rest
    → ValidEnd (with_reply r rest)
unfolding with_reply
with_reply-ValidEnd r (ok q) v = v
with_reply-ValidEnd r (fault e) v = tt

run-ValidEnd :
    (calls : List Call) (s : Session)
    → IsValid s.client
    → Surrounded calls s
    → ValidEnd (run methods calls s)
unfolding run
run-ValidEnd [] s v h = v
run-ValidEnd (call ∷ calls) s v (now, later) = elim (Result-cases (methods call.fn call.args s)) [
  | inl (a, e) ↦
      let r : Reply = record { fn = call.fn; status = a.0; args = a.1 } in
      subst ValidEnd (sym (run-ok methods call calls s a e)) (
        with_reply-ValidEnd r (run methods calls a.2) (
          run-ValidEnd calls a.2
            (subst (WhenOk (λ (b : Answer Session call.fn). IsValid b.2.client)) e
              (methods-IsValid call.fn call.args s v now))
            (subst (WhenOk (λ (b : Answer Session call.fn). Surrounded calls b.2)) e later)))
  | inr (x, e) ↦ subst ValidEnd (sym (run-fault methods call calls s x e)) tt
]

-- The process holds a Cannelloni client, and it is valid.
abbrev pub HoldsValid : Option Session → Type 0
HoldsValid none = ⊥
HoldsValid (some s) = IsValid s.client

in_run-HoldsValid :
    (r : Result (List Reply × Session))
    → ValidEnd r
    → WhenOk (λ (q : List Reply × Option Session). HoldsValid q.1) (in_run (λ s. some s) r)
in_run-HoldsValid (ok q) v = v
in_run-HoldsValid (fault e) v = tt

-- When the registry selects the class J2534Cannelloni and the client is valid, any sequence of calls
-- of the exported functions after DllMain's attachment that does not end in undefined behaviour or
-- in a wait without end leaves the process with a valid client: with at most three channels on distinct ports, and with
-- the sockets of these channels as its only open ones. Before each call the threads may have got any
-- datagrams that fit their buffers, and a socket that the call opens is not one that is open.
pub exported_calls_keep_client :
    {D : Type 0} (dll : Implementation D) (p : Process D Session) (calls : List Call)
    → selected_class p ≡ codes "J2534Cannelloni"
    → IsValid p.cannelloni_client.client
    → Surrounded calls p.cannelloni_client
    → WhenOk
        (λ (q : List Reply × Option Session). HoldsValid q.1)
        (seen_client dll methods
          (run (exported_call dll methods) calls (dll_main p process_attach new_global)))
exported_calls_keep_client dll p calls e v h =
    subst (WhenOk (λ (q : List Reply × Option Session). HoldsValid q.1))
      (sym (exports_reach_client dll methods p calls e))
      (in_run-HoldsValid (run methods calls p.cannelloni_client)
        (run-ValidEnd calls p.cannelloni_client v h))
