-- ===== src/Async/Callbacks.antt =====
-- include/asynchirediscommand.h: the two callbacks for replies.
pub mod Decided
pub mod Settled
pub mod Redirected
pub mod Handler
pub mod Asked
use cpp_hiredis_cluster.Base.{
  ℕ, ◌+◌, ◌-◌, Bool, true, false, not, ◌&&◌, List, [], ◌∷◌, Option, none, some, ◌==◌, if◌then◌else◌,
}
use cpp_hiredis_cluster.Int.{ℤ}
use cpp_hiredis_cluster.Text.{Text, codes, c_string, text_ltb}
use cpp_hiredis_cluster.Effect.Exception.{
  Exception, is_cluster_exception, asking_failed, moved_failed, cluster_down, logic_error,
  disconnected, connection_failed, invalid_argument,
}
use cpp_hiredis_cluster.Effect.Reply.{Reply, RedisReply}
use cpp_hiredis_cluster.Effect.Reply
use cpp_hiredis_cluster.Effect.Monad.{
  Outcome, ok, throw, fault, blocked, Conn, Event, created, destroyed, submitted, answered, closed,
  Hiredis, World, Action, after, pure, raise, lift, note, gets, put, reads, ◌>>=◌, ◌>>◌,
}
use cpp_hiredis_cluster.Container.Types.{SlotConnection, HostConnection}
use cpp_hiredis_cluster.Container.Interface.{ConnectionContainer}
use cpp_hiredis_cluster.Process.{
  Processed, ProcessState, moved, ask, ready, clusterdown, failed, process_result, check_critical,
}
use cpp_hiredis_cluster.Cluster.{Cluster, get_connection, create_new_connection, set_moved}
use cpp_hiredis_cluster.Async.{
  Decision, redirect, finish, asking, retried, AsyncCalls, AsyncCommand, AsyncState, Step,
  on_cluster, submit_on, submit_pointer, process_hiredis_command, report, destroy, call_error_cb,
  on_error, guarded, ensure_connection,
}

same_text : Text → Text → Bool
same_text [] [] = true
same_text (x ∷ s) (y ∷ t) = x == y && same_text s t
same_text s t = false

-- The test on the reply to `ASKING`.
pub is_status_ok : Reply → Bool
unfolding same_text
is_status_ok (Reply.status text) = same_text (c_string text) (codes "OK")
is_status_ok reply = false

module _ {E : Type 0} (h : Hiredis E) (a : AsyncCalls E) (c : ConnectionContainer E)
    (user_moved : ℕ → Action (Cluster c.State) E (Unit {0})) where
  require : Bool → Exception → Decision → Step c.State E Decision
  require true x d = pure d
  require false x d = raise x

  follow_ask : Processed → Step c.State E Decision
  unfolding ensure_connection require
  follow_ask p = do
    ensure_connection c p.host p.port
    st ← gets (λ st. st)
    taken ← submit_pointer a st.command.con (codes "ASKING")
    require taken asking_failed asking

  follow_moved : Processed → Step c.State E Decision
  unfolding ensure_connection process_hiredis_command require
  follow_moved p = do
    on_cluster (set_moved c user_moved)
    ensure_connection c p.host p.port
    st ← gets (λ st. st)
    taken ← process_hiredis_command a st.command.con
    require taken moved_failed redirect

  -- The `switch`.
  unfoldable pub dispatch : ProcessState → Processed → Step c.State E Decision
  unfolding follow_ask follow_moved
  dispatch ask p = follow_ask p
  dispatch moved p = follow_moved p
  dispatch ready p = pure finish
  dispatch clusterdown p = raise cluster_down
  dispatch failed p = raise (logic_error (codes "cluster logic error"))

  result_of : Option RedisReply → Step c.State E Processed
  result_of none = lift fault
  result_of (some r) = lift (process_result r.value)

  -- The `try` block of `processCommandReply`: `state` is `FAILED` until the reply is classified.
  pub classify : Option RedisReply → Step c.State E Processed
  unfolding result_of
  classify reply = do check_critical h reply false false [] none; result_of reply

  pub judge :
      Outcome Processed × AsyncState c.State × World E
      → Outcome Decision × AsyncState c.State × World E
  unfolding guarded dispatch
  judge (ok p, st, w) = guarded a p.state (dispatch p.state p) st w
  judge (throw x, st, w) = guarded a failed (raise x) st w
  judge (fault, st, w) = (fault, st, w)
  judge (blocked, st, w) = (blocked, st, w)

  resend : Bool → Step c.State E Decision
  unfolding process_hiredis_command require
  resend false = raise asking_failed
  resend true = do
    st ← gets (λ st. st)
    taken ← process_hiredis_command a st.command.con
    require taken asking_failed asking

  pub read_asking : Option RedisReply → Step c.State E Decision
  unfolding resend is_status_ok
  read_asking none = lift fault
  read_asking (some r) = resend (is_status_ok r.value)

  -- `runRedisCallback( *reply )`
  report_pointer : Option RedisReply → Step c.State E (Unit {0})
  unfolding report
  report_pointer none = lift fault
  report_pointer (some r) = report a r.value

  retry_failed : Option RedisReply → Step c.State E (Unit {0})
  unfolding call_error_cb report_pointer destroy
  retry_failed reply = do
    st ← gets (λ st. st)
    answer ← call_error_cb a st.command.user_error_cb (disconnected []) failed
    report_pointer reply
    destroy a

  -- `retry`, on the connection that brought the reply.
  unfoldable pub retry : Conn → Option RedisReply → Step c.State E (Unit {0})
  unfolding process_hiredis_command retry_failed
  retry con reply = do
    taken ← process_hiredis_command a (some con)
    if taken then pure tt else retry_failed reply

  -- What both callbacks do behind their `try` block.
  unfoldable pub settle : Conn → Option RedisReply → Decision → Step c.State E (Unit {0})
  unfolding retry report_pointer destroy
  settle con reply retried = retry con reply
  settle con reply finish = do
    report_pointer reply
    kept ← reads (a.subscribed con)
    if kept then pure tt else destroy a
  settle con reply redirect = pure tt
  settle con reply asking = pure tt

  -- `processCommandReply`
  unfoldable pub process_command_reply : Conn → Option RedisReply → Step c.State E (Unit {0})
  unfolding judge classify
  process_command_reply con reply = do
    decision ← λ st w. judge (classify reply st w)
    settle con reply decision

  -- `runRedisCallback( Connection*, void*, void* )`
  unfoldable pub run_redis_callback : Conn → Option RedisReply → Step c.State E (Unit {0})
  unfolding guarded read_asking
  run_redis_callback con reply = do
    decision ← guarded a ask (check_critical h reply false false [] none >> read_asking reply)
    settle con reply decision
