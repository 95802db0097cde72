-- ===== src/Async/Create.antt =====
-- include/asynchirediscommand.h: making a command and sending it for the first time.
pub mod Sent
use cpp_hiredis_cluster.Base.{
  ℕ, ◌+◌, ◌-◌, Bool, true, false, not, ◌&&◌, List, [], ◌∷◌, Option, none, some, ◌==◌, if◌then◌else◌,
}
use cpp_hiredis_cluster.Int.{ℤ}
use cpp_hiredis_cluster.Text.{Text, codes, c_string, text_ltb}
use cpp_hiredis_cluster.Effect.Exception.{
  Exception, is_cluster_exception, asking_failed, moved_failed, cluster_down, logic_error,
  disconnected, connection_failed, invalid_argument,
}
use cpp_hiredis_cluster.Effect.Reply.{Reply, RedisReply}
use cpp_hiredis_cluster.Effect.Reply
use cpp_hiredis_cluster.Effect.Monad.{
  Outcome, ok, throw, fault, blocked, Conn, Event, created, destroyed, submitted, answered, closed,
  Hiredis, World, Action, after, pure, raise, lift, note, gets, put, reads, ◌>>=◌, ◌>>◌,
}
use cpp_hiredis_cluster.Container.Types.{SlotConnection, HostConnection}
use cpp_hiredis_cluster.Container.Interface.{ConnectionContainer}
use cpp_hiredis_cluster.Process.{
  Processed, ProcessState, moved, ask, ready, clusterdown, failed, process_result, check_critical,
}
use cpp_hiredis_cluster.Cluster.{Cluster, get_connection, create_new_connection, set_moved}
use cpp_hiredis_cluster.Async.{
  Decision, redirect, finish, asking, retried, AsyncCalls, AsyncCommand, AsyncState, Step,
  on_cluster, submit_on, submit_pointer, process_hiredis_command, report, destroy, call_error_cb,
  on_error, guarded, ensure_connection,
}

module _ {E : Type 0} (h : Hiredis E) (a : AsyncCalls E) (c : ConnectionContainer E)
    (user_moved : ℕ → Action (Cluster c.State) E (Unit {0})) where
  -- `new AsyncHiredisCommand`
  create : Bool → Text → Text → Step c.State E (Unit {0})
  create has_callback key cmd st w = (
    ok tt,
    record st {
      command = record {
        has_callback = has_callback;
        user_error_cb = none;
        con = none;
        key = key;
        cmd = cmd;
        alive = true;
      };
    },
    record w { log = created ∷ w.log },
  )

  -- `process`
  process : Step c.State E Bool
  unfolding on_cluster process_hiredis_command
  process = do
    st ← gets (λ st. st)
    con ← on_cluster (get_connection c st.command.key)
    process_hiredis_command a (some con.1)

  -- `Command`, with the formatted command in hand. The constructor refuses a null cluster pointer,
  -- and then no object is left.
  unfoldable pub command : Bool → Bool → Text → Text → Step c.State E (Unit {0})
  unfolding create process destroy
  command false has_callback key cmd = raise invalid_argument
  command true has_callback key cmd = do
    create has_callback key cmd
    taken ← process
    if taken then pure tt else (destroy a >> raise (disconnected []))

  -- `setUserErrorCb`
  unfoldable pub set_user_error_cb : Option ℕ → AsyncCommand → AsyncCommand
  set_user_error_cb fn cmd = record cmd { user_error_cb = fn }
