-- ===== src/Effect/Calls.antt =====
-- The calls that open and close connections, with their entries in the log.
use cpp_hiredis_cluster.Base.{Bool, false, not, List, [], ◌∷◌, Option, none, some}
use cpp_hiredis_cluster.Int.{ℤ}
use cpp_hiredis_cluster.Text.{Text}
use cpp_hiredis_cluster.Effect.Exception.{Exception}
use cpp_hiredis_cluster.Effect.Reply.{RedisReply}
use cpp_hiredis_cluster.Effect.Monad.{
  Outcome, ok, Conn, Event, opened, closed, received, freed, Hiredis, World, Action, raise, note,
  ◌>>◌,
}

unfoldable pub log_opened : Outcome (Option Conn) → List Event → List Event
log_opened (ok (some c)) log = opened c ∷ log
log_opened r log = log

module _ {E : Type 0} (h : Hiredis E) where
  -- The call of `connect_`.
  unfoldable pub open_connection : {S : Type 0} → Text → ℤ → Action S E (Option Conn)
  unfolding log_opened
  open_connection host port s w =
      let (r, e) = h.connect host port w.outside in
      (r, s, record { outside = e; log = log_opened r w.log })

  -- `conn != NULL && !conn->err`
  unfoldable pub is_usable : Option Conn → E → Bool
  is_usable none e = false
  is_usable (some c) e = not (h.has_error c e)

  -- The call of `disconnect_`.
  unfoldable pub close_connection : Conn → World E → World E
  close_connection c w = record { outside = h.close c w.outside; log = closed c ∷ w.log }

  unfoldable pub close_all {ℓ} : {K : Type ℓ} → List (K × Conn) → World E → World E
  unfolding close_connection
  close_all [] w = w
  close_all ((k, c) ∷ m) w = close_all m (close_connection c w)

module _ {S E : Type 0} where
  -- `freeReplyObject`
  unfoldable pub free_reply : RedisReply → Action S E (Unit {0})
  free_reply r = note (freed r.address)

  -- `throw X(reply, …)`: the base class frees the reply, unless the pointer is null.
  unfoldable pub throw_with : {A : Type 0} → Option RedisReply → Exception → Action S E A
  unfolding free_reply
  throw_with none e = raise e
  throw_with (some r) e = free_reply r >> raise e

abbrev pub log_received : Option RedisReply → List Event → List Event
log_received none log = log
log_received (some r) log = received r.address ∷ log

module _ {S E : Type 0} (h : Hiredis E) where
  -- A command sent on a connection, and its reply: `none` where no reply is stored.
  unfoldable pub request : Conn → Text → Action S E (Option RedisReply)
  request con cmd s w =
      let (r, e) = h.request con cmd w.outside in
      (ok r, s, record { outside = e; log = log_received r w.log })
