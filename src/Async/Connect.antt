-- ===== src/Async/Connect.antt =====
-- include/asynchirediscommand.h: `createCluster`, and the context that its connections share.
pub mod Counting
pub mod Adapter
pub mod Leftover
pub mod Shutdown
pub mod Leads
pub mod Created
use cpp_hiredis_cluster.Base.{
  ℕ, zero, suc, ◌+◌, Bool, true, false, ◌||◌, List, [], ◌∷◌, Option, none, some, ◌==◌,
  if◌then◌else◌,
}
use cpp_hiredis_cluster.Int.{ℤ, pos, negsuc}
use cpp_hiredis_cluster.Text.{Text}
use cpp_hiredis_cluster.Effect.Exception.{connection_failed}
use cpp_hiredis_cluster.Effect.Reply.{RedisReply}
use cpp_hiredis_cluster.Effect.Monad.{
  Outcome, ok, throw, fault, Conn, Hiredis, World, Action, after, pure, raise, reads, ◌>>=◌, ◌>>◌,
}
use cpp_hiredis_cluster.Effect.Calls.{request, is_usable}
use cpp_hiredis_cluster.Container.{DefaultContainer}
use cpp_hiredis_cluster.Container.Interface.{ConnectionContainer, default_container}
use cpp_hiredis_cluster.Process.{check_critical}
use cpp_hiredis_cluster.Cluster.{Cluster, cmd_init}
use cpp_hiredis_cluster.Command.{dial, free_context, construct_in, with_reply, free_pointer}

-- `++` and `--` on `lifetime`, for counts that an `int` holds.
increment : ℤ → ℤ
increment (pos n) = pos (n + 1)
increment (negsuc zero) = pos 0
increment (negsuc (suc n)) = negsuc n

decrement : ℤ → ℤ
decrement (pos zero) = negsuc 0
decrement (pos (suc n)) = pos n
decrement (negsuc n) = negsuc (n + 1)

-- `ConnectContext`: whether `adapter` and `pcluster` are set.
pub record ConnectContext : Type 0 where
  pub has_adapter : Bool
  pub has_cluster : Bool
  pub lifetime : ℤ

-- A pointer to it.
pub data ContextPointer : Type 0 where
  null deleted : ContextPointer
  at : ConnectContext → ContextPointer

-- What is outside, the shared context, the asynchronous connections that are open, those among them
-- that have the context and the callback, and whether there was undefined behaviour: a callback that
-- read the context where there is none, or the disconnect of a connection that had ended.
pub record Linked (E : Type 0) : Type 0 where
  pub outside : E
  pub context : ContextPointer
  pub contexts : List Conn
  pub tied : List Conn
  pub misused : Bool

-- `redisAsyncConnect`; the adapter's `attachContext` (`REDIS_OK` is true); `redisAsyncDisconnect`,
-- and whether it ends the connection at once, which it does unless replies are awaited.
pub record AsyncSockets (E : Type 0) : Type 0 where
  pub connect_async : Text → ℤ → E → Option Conn × E
  pub attach : Conn → E → Bool × E
  pub disconnect_async : Conn → E → Bool × E

unfoldable pub holds : Conn → List Conn → Bool
holds con [] = false
holds con (c ∷ l) = (c == con) || holds con l

unfoldable pub remove : Conn → List Conn → List Conn
remove con [] = []
remove con (c ∷ l) = if c == con then l else c ∷ remove con l

-- `clusterDestructCB`; deleting twice is undefined.
destruct : ContextPointer → Bool → ContextPointer × Bool
destruct null misused = (null, misused)
destruct deleted misused = (deleted, true)
destruct (at c) misused = (deleted, misused)

unfoldable pub cluster_destruct_cb : {E : Type 0} → Linked E → Linked E
unfolding destruct
cluster_destruct_cb l =
    let (context, misused) = destruct l.context l.misused in
    record l { context = context; misused = misused }

-- The context that `disconnectCb` leaves, if it can be read and its cluster is set.
count_down : ContextPointer → Option ContextPointer
unfolding decrement
count_down null = none
count_down deleted = none
count_down (at c) =
    if c.has_cluster then some (at (record c { lifetime = decrement c.lifetime })) else none

-- `disconnectCb`. Its call of `deleteConnection` is left out as it changes no container
-- (`Container.delete_connection`).
unfoldable pub disconnect_cb : {E : Type 0} → Linked E → Linked E
unfolding count_down
disconnect_cb l = elim (count_down l.context) [
  | none ↦ record l { misused = true }
  | some context ↦ record l { context = context }
]

-- The end of an asynchronous connection that was established: hiredis runs its callback, if one was
-- set.
unfoldable pub disconnected : {E : Type 0} → Conn → Linked E → Linked E
unfolding disconnect_cb holds remove
disconnected {E = E} con l =
    let gone : Linked E = record l { contexts = remove con l.contexts; tied = remove con l.tied } in
    if holds con l.tied then disconnect_cb gone else gone

with_cluster : ContextPointer → ContextPointer
with_cluster (at c) = at (record c { has_cluster = true })
with_cluster p = p

module _ {E : Type 0} where
  -- `new ConnectContext({ &adapter, nullptr, 0})`
  unfoldable pub new_context : Action (Unit {0}) (Linked E) (Unit {0})
  new_context s w =
      let fresh : ConnectContext = record {
        has_adapter = true;
        has_cluster = false;
        lifetime = pos 0;
      } in
      (ok tt, s, record w { outside = record w.outside { context = at fresh } })

  -- `cc->pcluster = cluster`
  unfoldable pub set_cluster : Action (Unit {0}) (Linked E) (Unit {0})
  unfolding with_cluster
  set_cluster s w = (
    ok tt,
    s,
    record w { outside = record w.outside { context = with_cluster w.outside.context } },
  )

module _ {E : Type 0} (base : Hiredis E) (a : AsyncSockets E) where
  -- `connect`, behind the adapter's answer.
  attached : ConnectContext → Conn → Bool → Linked E → Outcome (Option Conn) × Linked E
  unfolding increment
  attached c con false l = (throw connection_failed, l)
  attached c con true l = (
    ok (some con),
    record l { context = at (record c { lifetime = increment c.lifetime }); tied = con ∷ l.tied },
  )

  -- The test on `con`, whose later operands are evaluated only if the earlier ones hold.
  reached : ConnectContext → Option Conn → Linked E → Outcome (Option Conn) × Linked E
  unfolding attached
  reached c none l = (throw connection_failed, l)
  reached c (some con) l =
      let opened : Linked E = record l { contexts = con ∷ l.contexts } in
      let (taken, e) = a.attach con l.outside in
      if base.has_error con l.outside
      then (throw connection_failed, opened)
      else attached c con taken (record opened { outside = e })

  connect_at : ContextPointer → Text → ℤ → Linked E → Outcome (Option Conn) × Linked E
  unfolding reached
  connect_at null host port l = (throw connection_failed, l)
  connect_at deleted host port l = (fault, record l { misused = true })
  connect_at (at c) host port l =
      let (con, e) = a.connect_async host port l.outside in
      if c.has_adapter
      then reached c con (record l { outside = e })
      else (throw connection_failed, l)

  unfoldable pub connect : Text → ℤ → Linked E → Outcome (Option Conn) × Linked E
  unfolding connect_at
  connect host port l = connect_at l.context host port l

  -- `disconnect`: `redisAsyncDisconnect`.
  unfoldable pub disconnect : Conn → Linked E → Linked E
  unfolding disconnected
  disconnect con l =
      let (now, e) = a.disconnect_async con l.outside in
      let called : Linked E = record l { outside = e } in
      if holds con l.contexts
      then (if now then disconnected con called else called)
      else record l { misused = true }

  -- The calls that an asynchronous cluster makes.
  abbrev pub linked_hiredis : Hiredis (Linked E)
  linked_hiredis = record {
    connect = connect;
    has_error = λ con l. base.has_error con l.outside;
    error_text = λ con l. base.error_text con l.outside;
    close = disconnect;
    dial = λ host port l.
        let (con, e) = base.dial host port l.outside in (con, record l { outside = e });
    free_context = λ con l. record l { outside = base.free_context con l.outside };
    request = λ con cmd l.
        let (reply, e) = base.request con cmd l.outside in (reply, record l { outside = e });
  }

  abbrev pub nodes_container : ConnectionContainer (Linked E)
  nodes_container = default_container linked_hiredis

  create_on : Conn → Action (Unit {0}) (Linked E) (Cluster DefaultContainer)
  unfolding new_context set_cluster
  create_on con = do
    reply ← request linked_hiredis con cmd_init
    check_critical linked_hiredis reply true true [] none
    new_context
    cluster ← with_reply reply (
        construct_in linked_hiredis nodes_container
          (record { has_disconnect = true; connections = []; nodes = [] }) true true)
    set_cluster
    free_pointer reply
    free_context linked_hiredis nodes_container con
    pure cluster

  create_pointer : Option Conn → Bool → Action (Unit {0}) (Linked E) (Cluster DefaultContainer)
  unfolding create_on
  create_pointer (some con) true = create_on con
  create_pointer con usable = raise connection_failed

  unfoldable pub create_cluster : Text → ℤ → Action (Unit {0}) (Linked E) (Cluster DefaultContainer)
  unfolding create_pointer
  create_cluster host port = do
    con ← dial linked_hiredis nodes_container host port
    usable ← reads (is_usable linked_hiredis con)
    create_pointer con usable
