-- ===== src/Async/Callbacks/Redirected.antt =====
-- A redirection for a command that already has a connection of its own.
use cpp_hiredis_cluster.Base.{ℕ, ◌∷◌, Option, if◌then◌else◌}
use cpp_hiredis_cluster.Text.{Text}
use cpp_hiredis_cluster.Effect.Reply.{Reply}
use cpp_hiredis_cluster.Effect.Exception.{moved_failed, is_cluster_exception}
use cpp_hiredis_cluster.Effect.Monad.{
  Outcome, ok, throw, fault, blocked, Conn, submitted, Hiredis, World, Action, after,
}
use cpp_hiredis_cluster.Container.Interface.{ConnectionContainer}
use cpp_hiredis_cluster.Process.{Processed, moved}
use cpp_hiredis_cluster.Cluster.{Cluster}
use cpp_hiredis_cluster.Async.{
  Decision, redirect, AsyncCalls, AsyncCommand, AsyncState, on_error, submit_pointer,
  connect_missing,
}
use cpp_hiredis_cluster.Async.Callbacks.{require}

module _ {E : Type 0} (h : Hiredis E) (a : AsyncCalls E) (c : ConnectionContainer E)
    (user_moved : ℕ → Action (Cluster c.State) E (Unit {0})) where
  -- The second request, on the connection `k`, and what its refusal means.
  sent_on : Conn → AsyncState c.State → World E → Outcome Decision × AsyncState c.State × World E
  sent_on k st w =
      let (taken, e) = a.submit k st.command.cmd w.outside in
      if taken
      then (ok redirect, st, record { outside = e; log = submitted k ∷ w.log })
      else on_error a moved_failed moved st (record w { outside = e })

  -- What the callback decides once the cluster has been told: no host and no port come into it.
  pub linked_decision :
      Conn
      → AsyncCommand
      → Outcome (Unit {0}) × Cluster c.State × World E
      → Outcome Decision × AsyncState c.State × World E
  unfolding sent_on
  linked_decision k cmd (ok done, cl, w) = sent_on k (record { cluster = cl; command = cmd }) w
  linked_decision k cmd (throw x, cl, w) =
      let st : AsyncState c.State = record { cluster = cl; command = cmd } in
      if is_cluster_exception x then on_error a x moved st w else (throw x, st, w)
  linked_decision k cmd (fault, cl, w) = (fault, record { cluster = cl; command = cmd }, w)
  linked_decision k cmd (blocked, cl, w) = (blocked, record { cluster = cl; command = cmd }, w)

  -- Behind `moved()`.
  told : Processed → Unit {0} → Action (AsyncState c.State) E Decision
  told p done st w =
      after
        (λ _ st w.
          after (λ taken. require h a c user_moved taken moved_failed redirect)
            (submit_pointer a st.command.con st.command.cmd st w))
        (connect_missing c st.command.con p.host p.port st w)
