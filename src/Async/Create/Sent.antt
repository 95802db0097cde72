-- ===== src/Async/Create/Sent.antt =====
-- What is left of a new command: sent and alive, deleted, or lost.
use cpp_hiredis_cluster.Base.{
  ℕ, Bool, true, false, List, ◌∷◌, Option, none, ◌≡◌, refl, ap, ◌⊎◌, inl, inr, if◌then◌else◌, [],
}
use cpp_hiredis_cluster.Text.{Text}
use cpp_hiredis_cluster.Effect.Exception.{disconnected}
use cpp_hiredis_cluster.Effect.Monad.{
  Outcome, ok, throw, fault, blocked, Conn, Event, created, destroyed, submitted, Hiredis, World,
  Action, after,
}
use cpp_hiredis_cluster.Container.Types.{SlotConnection}
use cpp_hiredis_cluster.Container.Interface.{ConnectionContainer}
use cpp_hiredis_cluster.Cluster.{Cluster, get_connection}
use cpp_hiredis_cluster.Async.{
  AsyncCalls, AsyncCommand, AsyncState, on_cluster, submit_pointer, process_hiredis_command,
  destroy,
}
use cpp_hiredis_cluster.Async.Steady.{
  trace, Quiet, Steady, Ran, Ran-after, Submitted, on_cluster-Ran, submit_on-Ran,
}
use cpp_hiredis_cluster.Async.Create.{create, process, command}

-- A new command on a cluster: if the call returns, the object is alive with one request; if it
-- throws, the object is deleted, or it is alive without a request.
abbrev pub Made : {S E : Type 0} → List Event → Outcome (Unit {0}) × AsyncState S × World E → Type 0
Made l (ok done, st, w) =
    (con : Conn) × (trace w.log ≡ submitted con ∷ created ∷ l) × (st.command.alive ≡ true)
Made l (throw x, st, w) =
    ((x ≡ disconnected []) × (trace w.log ≡ destroyed ∷ created ∷ l) × (st.command.alive ≡ false))
    ⊎ ((trace w.log ≡ created ∷ l) × (st.command.alive ≡ true))
Made l (fault, st, w) = ⊥
Made l (blocked, st, w) = ⊥

module _ {E : Type 0} (h : Hiredis E) (a : AsyncCalls E) (c : ConnectionContainer E)
    (user_moved : ℕ → Action (Cluster c.State) E (Unit {0})) where
  abbrev pub fresh : Bool → Text → Text → AsyncCommand
  fresh has_callback key cmd = record {
    has_callback = has_callback;
    user_error_cb = none;
    con = none;
    key = key;
    cmd = cmd;
    alive = true;
  }

  sent : Bool → Action (AsyncState c.State) E (Unit {0})
  sent taken =
      if taken
      then (λ st w. (ok tt, st, w))
      else (λ st w. after (λ _ st w. (throw (disconnected []), st, w)) (destroy a st w))

  refused-Made :
      (l : List Event) (e : E) (alive : Bool) (st : AsyncState c.State) (w : World E)
      → alive ≡ true
      → trace w.log ≡ created ∷ l
      → Made l (
          after
            (λ (_ : Unit {0}) st w. (throw (disconnected []), st, w))
            (if alive
              then (
                ok tt,
                record st { command = record st.command { alive = false } },
                record { outside = e; log = destroyed ∷ w.log },
              )
              else (fault, st, w)))
  refused-Made l e true st w t s = inl (refl, ap (λ k. destroyed ∷ k) s, refl)
  refused-Made l e false st w t s = cc

  sent-Made :
      (b : Bool) (u : Option ℕ) (l : List Event) (taken : Bool) (st : AsyncState c.State)
      (w : World E)
      → Submitted b u (created ∷ l) taken st w
      → Made l (sent taken st w)
  unfolding sent destroy
  sent-Made b u l true st w s = (s.0, s.1.0, s.1.1)
  sent-Made b u l false st w s = refused-Made l _ st.command.alive st w s.1 s.0

  after-Made :
      (b : Bool) (u : Option ℕ) (l : List Event) (t : Outcome Bool × AsyncState c.State × World E)
      → Ran b u (created ∷ l) (Submitted b u (created ∷ l)) t
      → Made l (after sent t)
  after-Made b u l (ok taken, st, w) r = sent-Made b u l taken st w r
  after-Made b u l (throw x, st, w) r = inr (r.0, r.1)
  after-Made b u l (fault, st, w) r = r
  after-Made b u l (blocked, st, w) r = r

  -- `Command` with a cluster whose `getConnection` returns or throws does either, too. If it
  -- returns, the new object is alive and has one request. If it throws, then the request was
  -- refused, the exception is `DisconnectedException` and the object is deleted, or the object is
  -- alive without a request.
  pub command-Made :
      (has_callback : Bool) (key cmd : Text) (st : AsyncState c.State) (w : World E)
      → ((cl : Cluster c.State) (w : World E)
          → Quiet (λ (con : SlotConnection). Unit {0}) (trace w.log) (get_connection c key cl w))
      → Made (trace w.log) (command h a c user_moved true has_callback key cmd st w)
  unfolding command create process sent process_hiredis_command submit_pointer
  command-Made has_callback key cmd st w quiet =
      let b = has_callback in
      let l = trace w.log in
      after-Made b none l _ (
        Ran-after b none (created ∷ l) (λ con st w. Unit {0} × Steady b none (created ∷ l) st w)
          (Submitted b none (created ∷ l)) _
          (on_cluster (get_connection c key) (record st { command = fresh has_callback key cmd })
            (record w { log = created ∷ w.log }))
          (on_cluster-Ran b none (created ∷ l) (λ _. Unit {0}) (get_connection c key) _ _
            (refl, refl, refl, refl) (quiet st.cluster _))
          (λ con st w s. submit_on-Ran b none a (created ∷ l) con.1 st.command.cmd st w s.1))
