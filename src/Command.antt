-- ===== src/Command.antt =====
-- include/hirediscommand.h: a synchronous command and its redirections.
pub mod Replies
pub mod Answers
pub mod Served
pub mod Followed
pub mod Lost
pub mod Buffer
pub mod Spares
pub mod Startup
use cpp_hiredis_cluster.Base.{
  ℕ, Bool, true, false, not, ◌&&◌, [], ◌∷◌, Option, none, some, if◌then◌else◌,
}
use cpp_hiredis_cluster.Int.{ℤ}
use cpp_hiredis_cluster.Text.{Text, codes}
use cpp_hiredis_cluster.Effect.Exception.{connection_failed, invalid_argument, logic_error}
use cpp_hiredis_cluster.Effect.Reply.{RedisReply}
use cpp_hiredis_cluster.Effect.Monad.{
  Outcome, ok, throw, fault, blocked, Conn, Event, opened, closed, Hiredis, World, Action, after,
  pure, raise, lift, ◌>>=◌, ◌>>◌, reads,
}
use cpp_hiredis_cluster.Effect.Calls.{free_reply, throw_with, request, is_usable}
use cpp_hiredis_cluster.Container.Types.{SlotConnection, HostConnection}
use cpp_hiredis_cluster.Container.Interface.{ConnectionContainer}
use cpp_hiredis_cluster.Process.{
  Processed, ProcessState, moved, ask, ready, clusterdown, failed, process_result, check_critical,
}
use cpp_hiredis_cluster.Cluster.{
  Cluster, cmd_init, construct, get_connection, create_new_connection, release_slot, release_host,
  set_moved,
}

-- A use of `*reply`.
unfoldable pub with_reply :
    {S E A : Type 0} → Option RedisReply → (RedisReply → Action S E A) → Action S E A
with_reply none f = lift fault
with_reply (some r) f = f r

-- `freeReplyObject` of what `redisCommand` returned: a null pointer, if it has no reply, is let pass.
unfoldable pub free_pointer : {S E : Type 0} → Option RedisReply → Action S E (Unit {0})
free_pointer none = pure tt
free_pointer (some r) = free_reply r

module _ {E : Type 0} (h : Hiredis E) (c : ConnectionContainer E)
    (user_moved : ℕ → Action (Cluster c.State) E (Unit {0})) where
  abbrev Step : Type 0 → Type 0
  Step = Action (Cluster c.State) E

  -- The `ASK` case behind a usable connection. `checkCritical(reply, true, "asking error")` passes
  -- the text for `free_reply_obj`, where it counts as true; the error text is the default "".
  ask_on : Conn → Text → HostConnection → Step (Option RedisReply)
  ask_on con cmd hcon = do
    asked ← request h con (codes "ASKING")
    check_critical h asked true true [] none
    free_pointer asked
    reply ← request h con cmd
    check_critical h reply false true [] none
    release_host c hcon
    pure reply

  ask_pointer : HostConnection → Text → Option Conn → Step (Option RedisReply)
  unfolding ask_on
  ask_pointer hcon cmd none =
      raise (logic_error (codes "Can't connect while resolving asking state"))
  ask_pointer hcon cmd (some con) = do
    usable ← reads (is_usable h (some con))
    if usable then ask_on con cmd hcon else (do
      release_host c hcon
      message ← reads (h.error_text con)
      raise (logic_error message))

  follow_ask : RedisReply → Text → Processed → Step (Option RedisReply)
  unfolding ask_pointer
  follow_ask reply cmd p = do
    free_reply reply
    hcon ← create_new_connection c p.host p.port
    ask_pointer hcon cmd hcon.1

  moved_on : Conn → Text → HostConnection → Step (Option RedisReply)
  moved_on con cmd hcon = do
    reply ← request h con cmd
    set_moved c user_moved
    release_host c hcon
    pure reply

  moved_pointer : HostConnection → Text → Option Conn → Step (Option RedisReply)
  unfolding moved_on
  moved_pointer hcon cmd none =
      raise (logic_error (codes "Can't connect while resolving asking state"))
  moved_pointer hcon cmd (some con) = do
    usable ← reads (is_usable h (some con))
    message ← reads (h.error_text con)
    if usable then moved_on con cmd hcon else raise (logic_error message)

  follow_moved : RedisReply → Text → Processed → Step (Option RedisReply)
  unfolding moved_pointer
  follow_moved reply cmd p = do
    free_reply reply
    hcon ← create_new_connection c p.host p.port
    moved_pointer hcon cmd hcon.1

  -- The `switch`.
  unfoldable pub dispatch : ProcessState → RedisReply → Text → Processed → Step (Option RedisReply)
  unfolding follow_ask follow_moved
  dispatch ask reply cmd p = follow_ask reply cmd p
  dispatch moved reply cmd p = follow_moved reply cmd p
  dispatch ready reply cmd p = pure (some reply)
  dispatch state reply cmd p =
      throw_with (some reply) (logic_error (codes "error in state processing"))

  -- `process`, which returns a reply pointer: `none` is a pointer that was never set.
  unfoldable pub process : Text → Text → Step (Option RedisReply)
  unfolding dispatch with_reply free_pointer
  process key cmd = do
    con ← get_connection c key
    reply ← request h con.1 cmd
    check_critical h reply false true [] (some con.1)
    release_slot c con
    with_reply reply λ r. do p ← lift (process_result r.value); dispatch p.state r cmd p

  -- `Command`, with the formatted command in hand: a null cluster pointer is refused first.
  unfoldable pub command : Bool → Text → Text → Step (Option RedisReply)
  command has_cluster key cmd = if has_cluster then process key cmd else raise invalid_argument

  -- `AltCommand`: the same, and the pointer that it returns is shared.
  unfoldable pub alt_command : Bool → Text → Text → Step (Option RedisReply)
  unfolding command
  alt_command has_cluster key cmd = command has_cluster key cmd

  -- `deleteReply`, which the last copy of that pointer calls at its end; a pointer that was never set
  -- must not be freed.
  unfoldable pub delete_reply : Option RedisReply → Step (Unit {0})
  unfolding with_reply
  delete_reply reply = with_reply reply free_reply

-- `createCluster`: no cluster exists yet, so nothing but the outside world is passed on.
module _ {E : Type 0} (h : Hiredis E) (c : ConnectionContainer E) where
  abbrev Start : Type 0 → Type 0
  Start = Action (Unit {0}) E

  unfoldable pub dial : Text → ℤ → Start (Option Conn)
  dial host port s w =
      let (con, e) = h.dial host port w.outside in
      (
        ok con,
        s,
        record { outside = e; log = elim con [ none ↦ w.log | some p ↦ opened p ∷ w.log ] },
      )

  unfoldable pub free_context : Conn → Start (Unit {0})
  free_context con s w =
      (ok tt, s, record { outside = h.free_context con w.outside; log = closed con ∷ w.log })

  unfoldable pub construct_in : c.State → Bool → Bool → RedisReply → Start (Cluster c.State)
  construct_in container has_connect has_disconnect reply s w =
      let (r, w') = construct c container has_connect has_disconnect reply w in (r, s, w')

  unfoldable pub create_on : c.State → Bool → Bool → Conn → Start (Cluster c.State)
  create_on container has_connect has_disconnect con = do
    reply ← request h con cmd_init
    check_critical h reply true true [] none
    cluster ← with_reply reply (construct_in container has_connect has_disconnect)
    free_pointer reply
    free_context con
    pure cluster

  unfoldable pub create_pointer :
      c.State → Bool → Bool → Option Conn → Bool → Start (Cluster c.State)
  unfolding create_on
  create_pointer container has_connect has_disconnect (some con) true =
      create_on container has_connect has_disconnect con
  create_pointer container has_connect has_disconnect con usable = raise connection_failed

  unfoldable pub create_cluster : c.State → Bool → Bool → Text → ℤ → Start (Cluster c.State)
  unfolding dial create_pointer free_context construct_in with_reply free_pointer
  create_cluster container has_connect has_disconnect host port = do
    con ← dial host port
    usable ← reads (is_usable h con)
    create_pointer container has_connect has_disconnect con usable
