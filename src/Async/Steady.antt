-- ===== src/Async/Steady.antt =====
-- The command object while its callbacks run: what each of their parts leaves as it was.
use mathlib.Core.Path.{subst}
use cpp_hiredis_cluster.Base.{
  ℕ, Bool, true, false, List, [], ◌∷◌, Option, none, some, ◌≡◌, sym, ap, ◌∙◌, inl, inr, Bool-cases,
  if◌then◌else◌,
}
use cpp_hiredis_cluster.Text.{Text}
use cpp_hiredis_cluster.Effect.Exception.{Exception, is_cluster_exception}
use cpp_hiredis_cluster.Effect.Reply.{Reply}
use cpp_hiredis_cluster.Effect.Monad.{
  Outcome, ok, throw, fault, blocked, Conn, Event, opened, closed, received, freed, created,
  destroyed, submitted, answered, World, Action, after,
}
use cpp_hiredis_cluster.Container.Types.{HostConnection}
use cpp_hiredis_cluster.Container.Interface.{ConnectionContainer}
use cpp_hiredis_cluster.Process.{ProcessState}
use cpp_hiredis_cluster.Cluster.{Cluster, create_new_connection}
use cpp_hiredis_cluster.Async.{
  Decision, redirect, finish, asking, retried, AsyncCalls, AsyncState, on_cluster, submit_on,
  report, call_error_cb, on_error, guarded, is_retry, consult, caught,
}

-- What happened to command objects: the log without connections and replies.
abbrev pub trace : List Event → List Event
trace [] = []
trace (opened c ∷ log) = trace log
trace (closed c ∷ log) = trace log
trace (received a ∷ log) = trace log
trace (freed a ∷ log) = trace log
trace (created ∷ log) = created ∷ trace log
trace (destroyed ∷ log) = destroyed ∷ trace log
trace (submitted c ∷ log) = submitted c ∷ trace log
trace (answered ∷ log) = answered ∷ trace log

-- The user's function for replies is called, if there is one.
abbrev pub reported : Bool → List Event → List Event
reported true l = answered ∷ l
reported false l = l

-- A call on the cluster that returns or throws, and does nothing to command objects.
abbrev pub Quiet : {S E A : Type 0} → (A → Type 0) → List Event → Outcome A × S × World E → Type 0
Quiet P l (ok x, s, w) = P x × (trace w.log ≡ l)
Quiet P l (throw x, s, w) = trace w.log ≡ l
Quiet P l (fault, s, w) = ⊥
Quiet P l (blocked, s, w) = ⊥

-- `createNewConnection` throws or returns a connection, never a null pointer.
abbrev pub Connects : {E : Type 0} → ConnectionContainer E → Type 0
Connects c =
    (host port : Text) (cl : Cluster c.State) (w : World _)
    → Quiet (λ (hcon : HostConnection). (con : Conn) × (hcon.1 ≡ some con)) (trace w.log)
        (create_new_connection c host port cl w)

abbrev pub IsQuiet : {S E : Type 0} → (ℕ → Action S E (Unit {0})) → Type 0
IsQuiet {S} {E} f =
    (fn : ℕ) (s : S) (w : World E) → Quiet (λ (_ : Unit {0}). Unit {0}) (trace w.log) (f fn s w)

-- `l` is the trace before the callback; the command has the user's functions `b` and `u`.
module _ {S E : Type 0} (b : Bool) (u : Option ℕ) where
  abbrev pub Steady : List Event → AsyncState S → World E → Type 0
  Steady l st w =
      (trace w.log ≡ l)
      × (st.command.alive ≡ true)
      × (st.command.has_callback ≡ b)
      × (st.command.user_error_cb ≡ u)

  -- A normal return establishes `P`; a throw leaves the command as it was.
  abbrev pub Ran :
      {A : Type 0}
      → List Event
      → (A → AsyncState S → World E → Type 0)
      → Outcome A × AsyncState S × World E
      → Type 0
  Ran l P (ok x, st, w) = P x st w
  Ran l P (throw x, st, w) = Steady l st w
  Ran l P (fault, st, w) = ⊥
  Ran l P (blocked, st, w) = ⊥

  pub Ran-after :
      {A B : Type 0} (l : List Event) (P : A → AsyncState S → World E → Type 0)
      (Q : B → AsyncState S → World E → Type 0) (f : A → Action (AsyncState S) E B)
      (t : Outcome A × AsyncState S × World E)
      → Ran l P t
      → ((x : A) (st : AsyncState S) (w : World E) → P x st w → Ran l Q (f x st w))
      → Ran l Q (after f t)
  Ran-after l P Q f (ok x, st, w) p k = k x st w p
  Ran-after l P Q f (throw x, st, w) p k = p
  Ran-after l P Q f (fault, st, w) p k = p
  Ran-after l P Q f (blocked, st, w) p k = p

  -- A request that is accepted is the one new event.
  abbrev pub Submitted : List Event → Bool → AsyncState S → World E → Type 0
  Submitted l true st w = (con : Conn) × Steady (submitted con ∷ l) st w
  Submitted l false st w = Steady l st w

  -- A decision of the callbacks: to wait, for the one request that is sent; to finish; or to try
  -- again, which only a function of the user asks for.
  abbrev pub Chosen : List Event → Decision → AsyncState S → World E → Type 0
  Chosen l redirect st w = (con : Conn) × Steady (submitted con ∷ l) st w
  Chosen l asking st w = (con : Conn) × Steady (submitted con ∷ l) st w
  Chosen l finish st w = Steady l st w
  Chosen l retried st w = Steady l st w × (fn : ℕ) × (u ≡ some fn)

  placed-Ran :
      {A : Type 0} (l : List Event) (P : A → Type 0) (st : AsyncState S)
      (t : Outcome A × Cluster S × World E)
      → (st.command.alive ≡ true) × (st.command.has_callback ≡ b) × (st.command.user_error_cb ≡ u)
      → Quiet P l t
      → Ran l (λ x st w. P x × Steady l st w) (t.0, record st { cluster = t.1 }, t.2)
  placed-Ran l P st (ok x, cl, w) same (p, q) = (p, (q, same.0, same.1, same.2))
  placed-Ran l P st (throw x, cl, w) same q = (q, same.0, same.1, same.2)
  placed-Ran l P st (fault, cl, w) same q = q
  placed-Ran l P st (blocked, cl, w) same q = q

  pub on_cluster-Ran :
      {A : Type 0} (l : List Event) (P : A → Type 0) (m : Action (Cluster S) E A)
      (st : AsyncState S) (w : World E)
      → Steady l st w
      → Quiet P (trace w.log) (m st.cluster w)
      → Ran l (λ x st w. P x × Steady l st w) (on_cluster m st w)
  unfolding on_cluster
  on_cluster-Ran l P m st w s q =
      placed-Ran l P st (m st.cluster w) (s.1, s.2, s.3)
        (subst (λ k. Quiet P k (m st.cluster w)) s.0 q)

  module _ (a : AsyncCalls E) where
    accepted-Submitted :
        (l : List Event) (con : Conn) (taken : Bool) (e : E) (st : AsyncState S) (w : World E)
        → Steady l st w
        → Submitted l taken st
            (record { outside = e; log = if taken then submitted con ∷ w.log else w.log })
    accepted-Submitted l con true e st w s = (con, (ap (λ k. submitted con ∷ k) s.0, s.1, s.2, s.3))
    accepted-Submitted l con false e st w s = s

    pub submit_on-Ran :
        (l : List Event) (con : Conn) (text : Text) (st : AsyncState S) (w : World E)
        → Steady l st w
        → Ran l (Submitted l) (submit_on a con text st w)
    unfolding submit_on
    submit_on-Ran l con text st w s =
        accepted-Submitted l con (a.submit con text w.outside).0 (a.submit con text w.outside).1 st
          w s

    -- `catch`: the user's function decides between another try and the end.
    consult-Ran :
        (l : List Event) (cb : Option ℕ) (x : Exception) (state : ProcessState) (st : AsyncState S)
        (w : World E)
        → u ≡ cb
        → Steady l st w
        → Ran l (Chosen l) (consult a cb x state st w)
    unfolding consult call_error_cb
    consult-Ran l none x state st w e s = s
    consult-Ran l (some fn) x state st w e s =
        elim (Bool-cases (is_retry (a.user_error fn x state w.outside).0)) [
          | inl again ↦ rw again (s, fn, e)
          | inr last ↦ rw last s
        ]

    caught-Ran :
        (l : List Event) (state : ProcessState) (t : Outcome Decision × AsyncState S × World E)
        → Ran l (Chosen l) t
        → Ran l (Chosen l) (caught a state t)
    unfolding caught on_error
    caught-Ran l state (ok d, st, w) r = r
    caught-Ran l state (throw x, st, w) r = elim (Bool-cases (is_cluster_exception x)) [
      | inl ours ↦ rw ours (consult-Ran l st.command.user_error_cb x state st w (sym r.3) r)
      | inr other ↦ rw other r
    ]
    caught-Ran l state (fault, st, w) r = r
    caught-Ran l state (blocked, st, w) r = r

    pub guarded-Ran :
        (l : List Event) (state : ProcessState) (m : Action (AsyncState S) E Decision)
        (st : AsyncState S) (w : World E)
        → Ran l (Chosen l) (m st w)
        → Ran l (Chosen l) (guarded a state m st w)
    unfolding guarded
    guarded-Ran l state m st w r = caught-Ran l state (m st w) r

    reporting-Ran :
        (l : List Event) (value : Reply) (called : Bool) (st : AsyncState S) (w : World E)
        → called ≡ b
        → Steady l st w
        → Ran l
            (λ (_ : Unit {0}). Steady (reported b l))
            (if called
              then (
                ok tt,
                st,
                record { outside = a.user_reply value w.outside; log = answered ∷ w.log },
              )
              else (ok tt, st, w))
    reporting-Ran l value true st w e s =
        (ap (λ k. answered ∷ k) s.0 ∙ ap (λ k. reported k l) e, s.1, s.2, s.3)
    reporting-Ran l value false st w e s = (s.0 ∙ ap (λ k. reported k l) e, s.1, s.2, s.3)

    -- The user's function for replies, where there is one, is called once.
    pub report-Ran :
        (l : List Event) (value : Reply) (st : AsyncState S) (w : World E)
        → Steady l st w
        → Ran l (λ (_ : Unit {0}). Steady (reported b l)) (report a value st w)
    unfolding report
    report-Ran l value st w s = reporting-Ran l value st.command.has_callback st w s.2 s
