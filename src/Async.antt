-- ===== src/Async.antt =====
-- include/asynchirediscommand.h: an asynchronous command object and what its callbacks are made of.
pub mod Steady
pub mod Containers
pub mod Callbacks
pub mod Create
pub mod Connect
use cpp_hiredis_cluster.Base.{
  ℕ, ◌+◌, ◌-◌, Bool, true, false, not, ◌&&◌, List, [], ◌∷◌, Option, none, some, ◌==◌, if◌then◌else◌,
}
use cpp_hiredis_cluster.Int.{ℤ}
use cpp_hiredis_cluster.Text.{Text, codes, c_string, text_ltb}
use cpp_hiredis_cluster.Effect.Exception.{
  Exception, is_cluster_exception, asking_failed, moved_failed, cluster_down, logic_error,
  disconnected, connection_failed, invalid_argument,
}
use cpp_hiredis_cluster.Effect.Reply.{Reply, RedisReply}
use cpp_hiredis_cluster.Effect.Reply
use cpp_hiredis_cluster.Effect.Monad.{
  Outcome, ok, throw, fault, blocked, Conn, Event, created, destroyed, submitted, answered, closed,
  Hiredis, World, Action, after, pure, raise, lift, note, gets, put, reads, ◌>>=◌, ◌>>◌,
}
use cpp_hiredis_cluster.Container.Types.{SlotConnection, HostConnection}
use cpp_hiredis_cluster.Container.Interface.{ConnectionContainer}
use cpp_hiredis_cluster.Process.{
  Processed, ProcessState, moved, ask, ready, clusterdown, failed, process_result, check_critical,
}
use cpp_hiredis_cluster.Cluster.{Cluster, get_connection, create_new_connection, set_moved}

-- `AsyncHiredisCommand::Action`
pub data Decision : Type 0 where
  redirect finish asking retried : Decision

-- What hiredis and the user do: a submitted request (`REDIS_OK` is true), the flag
-- `REDIS_SUBSCRIBED`, `redisAsyncDisconnect`, and the two functions of the user.
pub record AsyncCalls (E : Type 0) : Type 0 where
  pub submit : Conn → Text → E → Bool × E
  pub subscribed : Conn → E → Bool
  pub disconnect_async : Conn → E → E
  pub user_error : ℕ → Exception → ProcessState → E → Decision × E
  pub user_reply : Reply → E → E

-- The members of a command object, and whether it has not been deleted.
pub record AsyncCommand : Type 0 where
  pub has_callback : Bool
  pub user_error_cb : Option ℕ
  pub con : Option Conn
  pub key : Text
  pub cmd : Text
  pub alive : Bool

-- The cluster with one of its commands.
pub record AsyncState (S : Type 0) : Type 0 where
  pub cluster : Cluster S
  pub command : AsyncCommand

abbrev pub Step : Type 0 → Type 0 → Type 0 → Type 0
Step S E A = Action (AsyncState S) E A

-- A call on `*cluster_p_`.
unfoldable pub on_cluster : {S E A : Type 0} → Action (Cluster S) E A → Step S E A
on_cluster m st w = let (r, cl, w') = m st.cluster w in (r, record st { cluster = cl }, w')

abbrev pub closes : {E : Type 0} → AsyncCalls E → Option Conn → E → E
closes a none e = e
closes a (some con) e = a.disconnect_async con e

is_retry : Decision → Bool
is_retry retried = true
is_retry d = false

module _ {S E : Type 0} (a : AsyncCalls E) where
  -- A request of hiredis: it is logged if it is accepted.
  unfoldable pub submit_on : Conn → Text → Step S E Bool
  submit_on con text st w =
      let (taken, e) = a.submit con text w.outside in
      (ok taken, st, record { outside = e; log = if taken then submitted con ∷ w.log else w.log })

  unfoldable pub submit_pointer : Option Conn → Text → Step S E Bool
  unfolding submit_on
  submit_pointer none text = lift fault
  submit_pointer (some con) text = submit_on con text

  -- `processHiredisCommand`
  unfoldable pub process_hiredis_command : Option Conn → Step S E Bool
  unfolding submit_pointer
  process_hiredis_command con = do st ← gets (λ st. st); submit_pointer con st.command.cmd

  -- `runRedisCallback( const redisReply& )`
  unfoldable pub report : Reply → Step S E (Unit {0})
  report value st w =
      if st.command.has_callback
      then (ok tt, st, record { outside = a.user_reply value w.outside; log = answered ∷ w.log })
      else (ok tt, st, w)

  -- `delete that`, with the destructor; a second one is undefined.
  unfoldable pub destroy : Step S E (Unit {0})
  destroy st w =
      if st.command.alive
      then (
        ok tt,
        record st { command = record st.command { alive = false } },
        record { outside = closes a st.command.con w.outside; log = destroyed ∷ w.log },
      )
      else (fault, st, w)

  unfoldable pub call_error_cb : Option ℕ → Exception → ProcessState → Step S E Decision
  call_error_cb none x state st w = (fault, st, w)
  call_error_cb (some fn) x state st w =
      let (d, e) = a.user_error fn x state w.outside in (ok d, st, record w { outside = e })

  consult : Option ℕ → Exception → ProcessState → Step S E Decision
  unfolding is_retry
  consult none x state = pure finish
  consult (some fn) x state = do
    d ← call_error_cb (some fn) x state
    pure (if is_retry d then retried else finish)

  -- The handlers: `RETRY` if the user's function is set and asks for it, else `FINISH`.
  unfoldable pub on_error : Exception → ProcessState → Step S E Decision
  unfolding consult call_error_cb
  on_error x state = do st ← gets (λ st. st); consult st.command.user_error_cb x state

  pub caught :
      ProcessState
      → Outcome Decision × AsyncState S × World E
      → Outcome Decision × AsyncState S × World E
  caught state (ok d, st, w) = (ok d, st, w)
  caught state (throw x, st, w) =
      if is_cluster_exception x then on_error x state st w else (throw x, st, w)
  caught state (fault, st, w) = (fault, st, w)
  caught state (blocked, st, w) = (blocked, st, w)

  -- `try { … } catch ( const ClusterException & )`; what was done before a throw stays done.
  unfoldable pub guarded : ProcessState → Step S E Decision → Step S E Decision
  unfolding caught
  guarded state m st w = caught state (m st w)

module _ {E : Type 0} (c : ConnectionContainer E) where
  -- `if( that->con_.second == NULL ) that->con_ = createNewConnection( host, port )`
  connect_missing : Option Conn → Text → Text → Step c.State E (Unit {0})
  connect_missing (some con) host port = pure tt
  connect_missing none host port = do
    hcon ← on_cluster (create_new_connection c host port)
    st ← gets (λ st. st)
    put (record st { command = record st.command { con = hcon.1 } })

  unfoldable pub ensure_connection : Text → Text → Step c.State E (Unit {0})
  unfolding connect_missing on_cluster
  ensure_connection host port = do st ← gets (λ st. st); connect_missing st.command.con host port
