-- ===== src/Pool/Commands.antt =====
-- Synchronous commands over the pool: a reply that is refused costs a connection.
use mathlib.Core.Path.{subst}
use mathlib.Core.Option.{some-injective}
use cpp_hiredis_cluster.Base.{
  ℕ, zero, suc, ◌+◌, ◌^◌, ◌<◌, ◌≡◌, refl, sym, ap, ◌∙◌, Bool, true, false, List, [], ◌∷◌, Option,
  none, some, length, arith, if◌then◌else◌,
}
use cpp_hiredis_cluster.Text.{Text}
use cpp_hiredis_cluster.SlotHash.{slot_by_key}
use cpp_hiredis_cluster.SlotHash.Slots.{slot_by_key-lt}
use cpp_hiredis_cluster.Effect.Exception.{cluster_down, not_initialized}
use cpp_hiredis_cluster.Effect.Reply.{Reply, RedisReply}
use cpp_hiredis_cluster.Effect.Monad.{
  Outcome, ok, throw, blocked, Conn, received, freed, Hiredis, World, Action, after, after-blocked,
  raise,
}
use cpp_hiredis_cluster.Effect.Calls.{request, throw_with}
use cpp_hiredis_cluster.Container.Search.{lookup_slot, Separated, search_by_slots_lem}
use cpp_hiredis_cluster.Container.Types.{SlotRange, SlotConnection}
use cpp_hiredis_cluster.Process.{check_critical, is_broken, mentions_clusterdown}
use cpp_hiredis_cluster.Cluster.{Cluster, get_connection, serve_slot, on_container}
use cpp_hiredis_cluster.Command.{process}
use cpp_hiredis_cluster.Pool.{ThreadedPool}
use cpp_hiredis_cluster.Pool
use cpp_hiredis_cluster.Pool.Disconnect.{threaded_pool}
use cpp_hiredis_cluster.Pool.Borrow.{get_connection-empty}
use cpp_hiredis_cluster.Pool.Slots.{map_at-lookup_slot, Separated-map_set, lookup_slot-map_set}
use cpp_hiredis_cluster.Pool.Turns.{with_queue, release_slot-get_connection}

abbrev pub PoolCluster : Type 0
PoolCluster = Cluster ThreadedPool

abbrev pub with_free : PoolCluster → SlotRange → List Conn → PoolCluster
with_free cl range queue = record cl { container = with_queue cl.container range queue }

module _ {E : Type 0} (h : Hiredis E) (close_null : E → E)
    (user_moved : ℕ → Action PoolCluster E (Unit {0})) (key cmd : Text) (slot : ℕ)
    (hashed : slot_by_key key (length key) ≡ some slot) where
  small : slot + 1 < 2 ^ 32
  small = let lt = slot_by_key-lt key (length key) slot hashed in omega arith

  -- The cluster's pools are in order, and it is ready.
  abbrev pub IsReady : PoolCluster → Type 0
  IsReady cl = (cl.ready_to_use ≡ true) × Separated cl.container.nodes

  served :
      (is_ready : Bool) (o : Option ℕ) (cl : PoolCluster) (w : World E)
      → is_ready ≡ true
      → o ≡ some slot
      → (if is_ready then serve_slot (threaded_pool h close_null) o else raise not_initialized) cl w
        ≡ on_container (threaded_pool h close_null) (Pool.get_connection slot) cl w
  unfolding serve_slot
  served true none cl w r e = cc
  served true (some n) cl w r e =
      ap (λ n. on_container (threaded_pool h close_null) (Pool.get_connection n) cl w)
        (some-injective _ _ e)
  served false o cl w r e = cc

  -- `getConnection` of the cluster, with a free connection and without.
  get_connection-free :
      (range : SlotRange) (c : Conn) (q : List Conn) (cl : PoolCluster) (w : World E)
      → IsReady cl
      → lookup_slot slot cl.container.nodes ≡ ok (range, some (c ∷ q))
      → get_connection (threaded_pool h close_null) key cl w
        ≡ (ok (range, c), with_free cl range q, w)
  unfolding get_connection on_container
  get_connection-free range c q cl w ready found =
      served cl.ready_to_use (slot_by_key key (length key)) cl w ready.0 hashed
      ∙ ap
          (λ (t : Outcome SlotConnection × ThreadedPool × World E).
            (t.0, record cl { container = t.1 }, t.2))
          (release_slot-get_connection slot range cl.container small ready.1 c q w w found).0

  get_connection-waits :
      (range : SlotRange) (cl : PoolCluster) (w : World E)
      → IsReady cl
      → lookup_slot slot cl.container.nodes ≡ ok (range, some [])
      → (get_connection (threaded_pool h close_null) key cl w).0 ≡ blocked
  unfolding get_connection on_container
  get_connection-waits range cl w ready found =
      ap (λ t. t.0) (served cl.ready_to_use (slot_by_key key (length key)) cl w ready.0 hashed)
      ∙ get_connection-empty slot range (some []) cl.container w
          (search_by_slots_lem slot cl.container.nodes small ready.1 ∙ found)
          (map_at-lookup_slot slot range (some []) cl.container.nodes ready.1 found)

  -- The node answers with an error that says that the cluster is down.
  pub record IsDown (con : Conn) (e : E) : Type 0 where
    pub address : ℕ
    pub text : Text
    pub replied :
        (h.request con cmd e).0 ≡ some (record { address = address; value = Reply.error text })
    pub unbroken : h.has_error con (h.request con cmd e).1 ≡ false
    pub down : mentions_clusterdown text ≡ true

  refused :
      (con : Conn) (cl : PoolCluster) (w : World E)
      → IsDown con w.outside
      → {A : Type 0} (f : Option RedisReply → Action PoolCluster E A)
      → (w' : World E) × (after
            (λ reply s w.
              after (λ _. f reply) (check_critical h reply false true [] (some con) s w))
            (request h con cmd cl w)
          ≡ (throw cluster_down, cl, w'))
  unfolding request check_critical throw_with is_broken
  refused con cl w down f = (
    record {
      outside = (h.request con cmd w.outside).1;
      log = freed down.address ∷ received down.address ∷ w.log;
    },
    rw (down.replied, down.unbroken, down.down) refl,
  )

  -- A command whose node answers that the cluster is down throws, and the connection that it took
  -- is not given back.
  process-IsDown :
      (range : SlotRange) (c : Conn) (q : List Conn) (cl : PoolCluster) (w : World E)
      → IsReady cl
      → lookup_slot slot cl.container.nodes ≡ ok (range, some (c ∷ q))
      → IsDown c w.outside
      → (w' : World E) × (process h (threaded_pool h close_null) user_moved key cmd cl w
          ≡ (throw cluster_down, with_free cl range q, w'))
  unfolding process
  process-IsDown range c q cl w ready found down =
      let (w', thrown) = refused c (with_free cl range q) w down _ in
      (w', ap (after _) (get_connection-free range c q cl w ready found) ∙ thrown)

  process-waits :
      (range : SlotRange) (cl : PoolCluster) (w : World E)
      → IsReady cl
      → lookup_slot slot cl.container.nodes ≡ ok (range, some [])
      → (process h (threaded_pool h close_null) user_moved key cmd cl w).0 ≡ blocked
  unfolding process
  process-waits range cl w ready found =
      after-blocked _ (get_connection (threaded_pool h close_null) key cl w)
        (get_connection-waits range cl w ready found)

  -- The command again and again, whatever comes of it.
  abbrev pub attempts : ℕ → PoolCluster → World E → PoolCluster × World E
  attempts zero cl w = (cl, w)
  attempts (suc n) cl w =
      attempts n (process h (threaded_pool h close_null) user_moved key cmd cl w).1
        (process h (threaded_pool h close_null) user_moved key cmd cl w).2

  -- While a node answers each command for a slot with an error that says that the cluster is down,
  -- every such command costs the node's pool one connection: after as many as the pool had, the
  -- next command for the slot waits for a connection that no thread has.
  pub process-attempts :
      (range : SlotRange) (q : List Conn) (cl : PoolCluster) (w : World E)
      → ((con : Conn) (e : E) → IsDown con e)
      → IsReady cl
      → lookup_slot slot cl.container.nodes ≡ ok (range, some q)
      → (process h
          (threaded_pool h close_null)
          user_moved
          key
          cmd
          (attempts (length q) cl w).0
          (attempts (length q) cl w).1).0
        ≡ blocked
  process-attempts range [] cl w down ready found = process-waits range cl w ready found
  process-attempts range (c ∷ q) cl w down ready found =
      let (w', lost) = process-IsDown range c q cl w ready found (down c w.outside) in
      let there = map_at-lookup_slot slot range (some (c ∷ q)) cl.container.nodes ready.1 found in
      subst
        (λ (t : Outcome (Option RedisReply) × PoolCluster × World E).
          (process h (threaded_pool h close_null) user_moved key cmd (attempts (length q) t.1 t.2).0
            (attempts (length q) t.1 t.2).1).0
          ≡ blocked)
        (sym lost)
        (process-attempts range q (with_free cl range q) w' down
          (
            ready.0,
            Separated-map_set range (some (c ∷ q)) (some q) cl.container.nodes there ready.1,
          )
          (lookup_slot-map_set slot range (some (c ∷ q)) (some q) cl.container.nodes ready.1 found))
