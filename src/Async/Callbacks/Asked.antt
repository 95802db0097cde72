-- ===== src/Async/Callbacks/Asked.antt =====
-- The reply to `ASKING` under the error callback of src/examples/asyncerrorshandling.cpp.
use cpp_hiredis_cluster.Base.{ℕ, ◌∷◌, Option, if◌then◌else◌}
use cpp_hiredis_cluster.Text.{Text}
use cpp_hiredis_cluster.Effect.Exception.{asking_failed, cluster_down}
use cpp_hiredis_cluster.Effect.Reply.{Reply, RedisReply}
use cpp_hiredis_cluster.Effect.Monad.{Outcome, ok, Conn, submitted, Hiredis, World, Action}
use cpp_hiredis_cluster.Container.Interface.{ConnectionContainer}
use cpp_hiredis_cluster.Process.Critical.{says_down}
use cpp_hiredis_cluster.Cluster.{Cluster}
use cpp_hiredis_cluster.Async.{AsyncCalls, AsyncState}
use cpp_hiredis_cluster.Async.Callbacks.{is_status_ok}
use cpp_hiredis_cluster.Async.Callbacks.Handler.{Handles, told, finished, sent_again}

module _ {E : Type 0} (print : Text → E → E) (errno : Text) (h : Hiredis E) (a : AsyncCalls E)
    (fn : ℕ) (handles : Handles print errno a fn) (c : ConnectionContainer E)
    (user_moved : ℕ → Action (Cluster c.State) E (Unit {0})) (con : Conn) (r : RedisReply) where
  -- What becomes of the command at the reply to `ASKING`, with its own connection `n`.
  abbrev pub at_asking :
      Conn → AsyncState c.State → World E → Outcome (Unit {0}) × AsyncState c.State × World E
  at_asking n st w =
      if says_down r.value
      then finished a r.value st (told print errno cluster_down w)
      else if is_status_ok r.value
      then (let (taken, e) = a.submit n st.command.cmd w.outside in
          if taken
          then (ok tt, st, record { outside = e; log = submitted n ∷ w.log })
          else sent_again print errno a con r.value st
              (told print errno asking_failed (record w { outside = e })))
      else sent_again print errno a con r.value st (told print errno asking_failed w)
