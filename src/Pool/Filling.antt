-- ===== src/Pool/Filling.antt =====
-- The pools that `fillPool` fills, and the one that it cannot fill.
use cpp_hiredis_cluster.Base.{
  ℕ, zero, suc, ◌+◌, ◌≡◌, refl, ap, Bool, true, false, List, [], ◌∷◌, Option, none, some, length,
  length-append, arith,
}
use cpp_hiredis_cluster.Int.{ℤ}
use cpp_hiredis_cluster.Text.{Text}
use cpp_hiredis_cluster.Effect.Monad.{ok, Conn, Hiredis, World, after-elim}
use cpp_hiredis_cluster.Effect.Calls.{open_connection, is_usable}
use cpp_hiredis_cluster.Container.Types.{SlotRange, slot_less}
use cpp_hiredis_cluster.Container.OrderedMap.{map_at, map_set}
use cpp_hiredis_cluster.Pool.{
  pool_size, Pools, ThreadedPool, run_at, at_pool, new_pool, on_nodes, push_usable, push, fill_pool,
  insert_slots,
}
use cpp_hiredis_cluster.Pool.Lists.{map_at-map_set_self, map_at-map_set}

queue_of : Option (Option (List Conn)) → List Conn
queue_of (some (some q)) = q
queue_of p = []

module _ {E : Type 0} (h : Hiredis E) where
  module _ {A : Type 0} (pointer : Conn → A) where
    open_connection-same :
        (host : Text) (port : ℤ) (q : List A) (w : World E)
        → (open_connection h host port q w).1 ≡ q
    unfolding open_connection
    open_connection-same host port q w = refl

    push_usable-length :
        (conn : Option Conn) (usable : Bool) (q : List A) (w : World E)
        → (push_usable h pointer conn usable q w).0 ≡ ok tt
        → length (push_usable h pointer conn usable q w).1 ≡ length q + 1
    unfolding push_usable push
    push_usable-length none usable q w e = cc
    push_usable-length (some c) false q w e = cc
    push_usable-length (some c) true q w e = omega (arith, length-append q (pointer c ∷ []))

    fill_pool-length :
        (n : ℕ) (host : Text) (port : ℤ) (q : List A) (w : World E)
        → (fill_pool h pointer n host port q w).0 ≡ ok tt
        → length (fill_pool h pointer n host port q w).1 ≡ length q + n
    unfolding fill_pool
    fill_pool-length zero host port q w e = omega arith
    fill_pool-length (suc n) host port q w e =
        let opens = open_connection h host port q w in
        let same : opens.1 ≡ q = open_connection-same host port q w in
        after-elim (λ q'. length q' ≡ length q + suc n) _ opens tt e
          λ conn opened pushed.
            let usable = is_usable h conn opens.2.outside in
            let pushes = push_usable h pointer conn usable opens.1 opens.2 in
            after-elim (λ q'. length q' ≡ length q + suc n) (λ _. fill_pool h pointer n host port)
              pushes tt pushed
              λ u pushed_ok filled. omega (
                arith,
                ap length same,
                push_usable-length conn usable opens.1 opens.2 pushed_ok,
                fill_pool-length n host port pushes.1 pushes.2 filled,
              )

  filled_at :
      (slots : SlotRange) (host : Text) (port : ℤ) (found : Option (Option (List Conn)))
      (pools : Pools SlotRange Conn) (w : World E)
      → found ≡ some (some [])
      → map_at slot_less slots pools ≡ found
      → (run_at slot_less slots (fill_pool h (λ con. con) pool_size host port) found pools w).0
        ≡ ok tt
      → (q : List Conn) × (map_at slot_less slots
            (run_at slot_less slots (fill_pool h (λ con. con) pool_size host port) found pools w).1
          ≡ some (some q))
        × (length q ≡ pool_size)
  unfolding run_at queue_of
  filled_at slots host port none pools w e there done = cc
  filled_at slots host port (some none) pools w e there done = cc
  filled_at slots host port (some (some q)) pools w e there done =
      let empty = ap (λ o. length (queue_of o)) e in
      (
        _,
        map_at-map_set slot_less slots (some q) _ pools there,
        omega (arith, empty, fill_pool-length (λ con. con) pool_size host port q w done),
      )

  slot_less_self : (r : SlotRange) → slot_less r r ≡ false
  slot_less_self r = ground arith

  -- Where `insert` of a slot range returns, the range has a pool of exactly ten connections, whether
  -- the map had one for it before or not.
  pub insert_slots-length :
      (slots : SlotRange) (host : Text) (port : ℤ) (s : ThreadedPool) (w : World E)
      → (insert_slots h slots host port s w).0 ≡ ok tt
      → (q : List Conn) × (map_at slot_less slots (insert_slots h slots host port s w).1.nodes
          ≡ some (some q))
        × (length q ≡ pool_size)
  unfolding insert_slots on_nodes new_pool at_pool
  insert_slots-length slots host port s w done =
      let there = map_at-map_set_self slot_less slots (some []) s.nodes (slot_less_self slots) in
      filled_at slots host port _ (map_set slot_less slots (some []) s.nodes) w there refl done
