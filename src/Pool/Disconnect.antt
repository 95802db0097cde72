-- ===== src/Pool/Disconnect.antt =====
-- src/examples/threadpool.cpp: `disconnect`, and the pool as the container of a cluster.
pub mod Closing
use cpp_hiredis_cluster.Base.{ℕ, zero, suc, Bool, true, false, List, [], ◌∷◌, Option, none, some}
use cpp_hiredis_cluster.Effect.Monad.{
  Outcome, ok, throw, fault, blocked, Conn, Hiredis, World, Action, pure, ◌>>=◌, ◌>>◌,
}
use cpp_hiredis_cluster.Effect.Calls.{close_connection}
use cpp_hiredis_cluster.Container.Interface.{ConnectionContainer}
use cpp_hiredis_cluster.Pool.{
  pool_size, Pools, ThreadedPool, pull, on_nodes, on_connections, insert_slots, insert_host,
  get_connection, release_slot, release_host,
}

-- `close_null` is the call of `disconnect_` with a null pointer.
module _ {E : Type 0} (h : Hiredis E) (close_null : E → E) where
  unfoldable pub close_pointer : {S : Type 0} → Option Conn → Action S E (Unit {0})
  close_pointer none s w = (ok tt, s, record w { outside = close_null w.outside })
  close_pointer (some con) s w = (ok tt, s, close_connection h con w)

  module _ {A : Type 0} (pointer : A → Option Conn) where
    -- The inner loop, with the rounds that are left.
    unfoldable pub drain : ℕ → Action (List A) E (Unit {0})
    drain zero = pure tt
    drain (suc rounds) = do con ← pull; close_pointer (pointer con); drain rounds

    module _ {K : Type 0} where
      -- A drained pool is deleted, and the loop goes on with the other pools, `rest`.
      next_pool :
          K
          → Pools K A
          → (World E → Outcome (Unit {0}) × Pools K A × World E)
          → Outcome (Unit {0}) × List A × World E
          → Outcome (Unit {0}) × Pools K A × World E
      next_pool key others rest (ok done, queue, w) =
          let (r, others', w') = rest w in (r, (key, none) ∷ others', w')
      next_pool key others rest (throw x, queue, w) = (throw x, (key, some queue) ∷ others, w)
      next_pool key others rest (fault, queue, w) = (fault, (key, some queue) ∷ others, w)
      next_pool key others rest (blocked, queue, w) = (blocked, (key, some queue) ∷ others, w)

      unfoldable pub drain_all : Action (Pools K A) E (Unit {0})
      unfolding next_pool
      drain_all [] w = (ok tt, [], w)
      drain_all ((key, none) ∷ others) w = (fault, (key, none) ∷ others, w)
      drain_all ((key, some queue) ∷ others) w =
          next_pool key others (drain_all others) (drain pool_size queue w)

      clear : Action (Pools K A) E (Unit {0})
      clear pools w = (ok tt, [], w)

      -- `disconnect<T>`
      unfoldable pub disconnect_pools : Bool → Action (Pools K A) E (Unit {0})
      unfolding clear
      disconnect_pools true = drain_all >> clear
      disconnect_pools false = clear

  -- `disconnect()`, which is also the destructor.
  unfoldable pub disconnect : Action ThreadedPool E (Unit {0})
  disconnect s w =
      (on_nodes (disconnect_pools some s.has_disconnect)
          >> on_connections (disconnect_pools (λ con. con) s.has_disconnect))
        s w

  abbrev pub threaded_pool : ConnectionContainer E
  threaded_pool = record {
    State = ThreadedPool;
    insert_slots = insert_slots h;
    insert_host = insert_host h;
    get_connection = get_connection;
    release_slot = release_slot;
    release_host = release_host;
    delete_connection = λ con. pure tt;
    disconnect = disconnect;
  }
