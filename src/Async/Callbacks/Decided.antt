-- ===== src/Async/Callbacks/Decided.antt =====
-- What the `try` blocks of the reply callbacks decide, and what they have sent by then.
use cpp_hiredis_cluster.Base.{
  ℕ, Bool, true, false, List, [], ◌∷◌, Option, none, some, ◌≡◌, refl, inl, inr,
}
use cpp_hiredis_cluster.Text.{Text, codes}
use cpp_hiredis_cluster.Effect.Exception.{Exception, asking_failed, moved_failed}
use cpp_hiredis_cluster.Effect.Reply.{RedisReply}
use cpp_hiredis_cluster.Effect.Monad.{
  Outcome, ok, throw, fault, blocked, Conn, Event, submitted, Hiredis, World, Action, after,
}
use cpp_hiredis_cluster.Container.Types.{HostConnection}
use cpp_hiredis_cluster.Container.Interface.{ConnectionContainer}
use cpp_hiredis_cluster.Process.{
  ProcessState, Processed, ask, moved, ready, clusterdown, failed, check_critical,
}
use cpp_hiredis_cluster.Process.Critical.{check_critical_borrowed}
use cpp_hiredis_cluster.Process.Redirect.{FitsSize, process_result-total}
use cpp_hiredis_cluster.Cluster.{Cluster, create_new_connection, set_moved, call_user}
use cpp_hiredis_cluster.Async.{
  Decision, redirect, asking, AsyncCalls, AsyncState, on_cluster, submit_on, submit_pointer,
  process_hiredis_command, guarded, connect_missing, ensure_connection,
}
use cpp_hiredis_cluster.Async.Steady.{
  trace, Quiet, Connects, IsQuiet, Steady, Ran, Ran-after, Submitted, Chosen, on_cluster-Ran,
  submit_on-Ran, guarded-Ran,
}
use cpp_hiredis_cluster.Async.Callbacks.{
  require, follow_ask, follow_moved, dispatch, result_of, classify, judge, is_status_ok, resend,
  read_asking,
}

module _ {E : Type 0} (h : Hiredis E) (a : AsyncCalls E) (c : ConnectionContainer E)
    (user_moved : ℕ → Action (Cluster c.State) E (Unit {0})) (connects : Connects c)
    (user_quiet : IsQuiet user_moved) (b : Bool) (u : Option ℕ) (l : List Event) where
  -- The command has a connection of its own.
  abbrev Linked : Unit {0} → AsyncState c.State → World E → Type 0
  Linked done st w = (con : Conn) × (st.command.con ≡ some con) × Steady b u l st w

  call_user-Quiet :
      (fn : Option ℕ) (cl : Cluster c.State) (w : World E)
      → Quiet (λ (_ : Unit {0}). Unit {0}) (trace w.log) (call_user c user_moved fn cl w)
  unfolding call_user
  call_user-Quiet none cl w = (tt, refl)
  call_user-Quiet (some fn) cl w = user_quiet fn cl w

  set_moved-Quiet :
      (cl : Cluster c.State) (w : World E)
      → Quiet (λ (_ : Unit {0}). Unit {0}) (trace w.log) (set_moved c user_moved cl w)
  unfolding set_moved
  set_moved-Quiet cl w = call_user-Quiet cl.user_moved_fn (record cl { moved = true }) w

  connect_missing-Ran :
      (con : Option Conn) (host port : Text) (st : AsyncState c.State) (w : World E)
      → st.command.con ≡ con
      → Steady b u l st w
      → Ran b u l Linked (connect_missing c con host port st w)
  unfolding connect_missing
  connect_missing-Ran (some con) host port st w e s = (con, e, s)
  connect_missing-Ran none host port st w e s =
      Ran-after b u l (λ hcon st w. ((con : Conn) × (hcon.1 ≡ some con)) × Steady b u l st w) Linked
        _ (on_cluster (create_new_connection c host port) st w)
        (on_cluster-Ran b u l (λ (hcon : HostConnection). (con : Conn) × (hcon.1 ≡ some con))
          (create_new_connection c host port) st w s (connects host port st.cluster w))
        (λ hcon st w p. (p.0.0, p.0.1, p.1))

  ok-Ran :
      (d : Decision) (st : AsyncState c.State) (w : World E)
      → Chosen b u l d st w
      → Ran b u l (Chosen b u l) (ok d, st, w)
  ok-Ran d st w k = k

  require-Ran :
      (x : Exception) (d : Decision)
      → ((st : AsyncState c.State) (w : World E) (k : Conn)
          → Steady b u (submitted k ∷ l) st w
          → Chosen b u l d st w)
      → (taken : Bool) (st : AsyncState c.State) (w : World E) → Submitted b u l taken st w
      → Ran b u l (Chosen b u l) (require h a c user_moved taken x d st w)
  unfolding require
  require-Ran x d k true st w s = ok-Ran d st w (k st w s.0 s.1)
  require-Ran x d k false st w s = s

  -- A request on the command's connection, and the decision that its success stands for.
  sent-Ran :
      (con : Option Conn) (n : Conn) (text : Text) (x : Exception) (d : Decision)
      (st : AsyncState c.State) (w : World E)
      → con ≡ some n
      → ((st : AsyncState c.State) (w : World E) (k : Conn)
          → Steady b u (submitted k ∷ l) st w
          → Chosen b u l d st w)
      → Steady b u l st w
      → Ran b u l
          (Chosen b u l)
          (after (λ taken. require h a c user_moved taken x d) (submit_pointer a con text st w))
  unfolding submit_pointer require
  sent-Ran none n text x d st w e k s = cc
  sent-Ran (some con) n text x d st w e k s =
      Ran-after b u l (Submitted b u l) (Chosen b u l) (λ taken. require h a c user_moved taken x d)
        (submit_on a con text st w) (submit_on-Ran b u a l con text st w s) (require-Ran x d k)

  follow_ask-Ran :
      (p : Processed) (st : AsyncState c.State) (w : World E)
      → Steady b u l st w
      → Ran b u l (Chosen b u l) (follow_ask h a c user_moved p st w)
  unfolding follow_ask ensure_connection
  follow_ask-Ran p st w s =
      Ran-after b u l Linked (Chosen b u l) _ (ensure_connection c p.host p.port st w)
        (connect_missing-Ran st.command.con p.host p.port st w refl s)
        (λ done st w q.
          sent-Ran st.command.con q.0 (codes "ASKING") asking_failed asking st w q.1
            (λ st w k r. (k, r)) q.2)

  follow_moved-Ran :
      (p : Processed) (st : AsyncState c.State) (w : World E)
      → Steady b u l st w
      → Ran b u l (Chosen b u l) (follow_moved h a c user_moved p st w)
  unfolding follow_moved ensure_connection process_hiredis_command
  follow_moved-Ran p st w s =
      Ran-after b u l (λ (_ : Unit {0}) st w. Unit {0} × Steady b u l st w) (Chosen b u l) _
        (on_cluster (set_moved c user_moved) st w)
        (on_cluster-Ran b u l (λ _. Unit {0}) (set_moved c user_moved) st w s
          (set_moved-Quiet st.cluster w))
        (λ done st w r.
          Ran-after b u l Linked (Chosen b u l) _ (ensure_connection c p.host p.port st w)
            (connect_missing-Ran st.command.con p.host p.port st w refl r.1)
            (λ done st w q.
              sent-Ran st.command.con q.0 st.command.cmd moved_failed redirect st w q.1
                (λ st w k r. (k, r)) q.2))

  dispatch-Ran :
      (state : ProcessState) (p : Processed) (st : AsyncState c.State) (w : World E)
      → Steady b u l st w
      → Ran b u l (Chosen b u l) (dispatch h a c user_moved state p st w)
  unfolding dispatch
  dispatch-Ran ask p st w s = follow_ask-Ran p st w s
  dispatch-Ran moved p st w s = follow_moved-Ran p st w s
  dispatch-Ran ready p st w s = s
  dispatch-Ran clusterdown p st w s = s
  dispatch-Ran failed p st w s = s

  check-Ran :
      (r : RedisReply) (st : AsyncState c.State) (w : World E)
      → Steady b u l st w
      → Ran b u l (λ _. Steady b u l) (check_critical h (some r) false false [] none st w)
  check-Ran r st w s = elim (check_critical_borrowed h r st w) [
    | inl passed ↦ rw passed s
    | inr refused ↦ rw refused s
  ]

  classify-Ran :
      (r : RedisReply) (st : AsyncState c.State) (w : World E)
      → FitsSize r.value
      → Steady b u l st w
      → Ran b u l (λ _. Steady b u l) (classify h a c user_moved (some r) st w)
  unfolding classify result_of
  classify-Ran r st w fits s =
      Ran-after b u l (λ _. Steady b u l) (λ _. Steady b u l) _
        (check_critical h (some r) false false [] none st w) (check-Ran r st w s)
        (λ done st w q. rw ((process_result-total r.value fits).1) q)

  judge-Ran :
      (t : Outcome Processed × AsyncState c.State × World E)
      → Ran b u l (λ _. Steady b u l) t
      → Ran b u l (Chosen b u l) (judge h a c user_moved t)
  unfolding judge
  judge-Ran (ok p, st, w) s =
      guarded-Ran b u a l p.state (dispatch h a c user_moved p.state p) st w
        (dispatch-Ran p.state p st w s)
  judge-Ran (throw x, st, w) s = guarded-Ran b u a l failed (λ st w. (throw x, st, w)) st w s
  judge-Ran (fault, st, w) s = s
  judge-Ran (blocked, st, w) s = s

  resend-Ran :
      (accepted : Bool) (st : AsyncState c.State) (w : World E) (n : Conn)
      → st.command.con ≡ some n
      → Steady b u l st w
      → Ran b u l (Chosen b u l) (resend h a c user_moved accepted st w)
  unfolding resend process_hiredis_command
  resend-Ran true st w n e s =
      sent-Ran st.command.con n st.command.cmd asking_failed asking st w e (λ st w k r. (k, r)) s
  resend-Ran false st w n e s = s

  -- The `try` block of `processCommandReply`, with its handler.
  pub judge-classify-Ran :
      (r : RedisReply) (st : AsyncState c.State) (w : World E)
      → FitsSize r.value
      → Steady b u l st w
      → Ran b u l (Chosen b u l) (judge h a c user_moved (classify h a c user_moved (some r) st w))
  judge-classify-Ran r st w fits s =
      judge-Ran (classify h a c user_moved (some r) st w) (classify-Ran r st w fits s)

  -- The `try` block of `runRedisCallback`, with its handler.
  pub guarded-read_asking-Ran :
      (r : RedisReply) (n : Conn) (st : AsyncState c.State) (w : World E)
      → st.command.con ≡ some n
      → Steady b u l st w
      → Ran b u l (Chosen b u l) (
          guarded a ask
            (λ st w.
              after
                (λ _. read_asking h a c user_moved (some r))
                (check_critical h (some r) false false [] none st w))
            st
            w)
  unfolding read_asking
  guarded-read_asking-Ran r n st w e s =
      guarded-Ran b u a l ask _ st w (elim (check_critical_borrowed h r st w) [
        | inl passed ↦ rw passed (resend-Ran (is_status_ok r.value) st w n e s)
        | inr refused ↦ rw refused s
      ])
