-- ===== src/Pool/Progress.antt =====
-- Threads that wait for a connection of a slot: the pool cannot come to a standstill.
use mathlib.Core.Path.{subst}
use cpp_hiredis_cluster.Base.{
  ℕ, ◌+◌, ◌^◌, ◌<◌, ◌≡◌, sym, ap, ◌∙◌, ◌⊎◌, inl, inr, true, List, [], ◌∷◌, ◌++◌, some, arith,
  length, length-append,
}
use cpp_hiredis_cluster.Effect.Monad.{ok, Conn, World}
use cpp_hiredis_cluster.Container.Search.{lookup_slot, Separated, search_by_slots_lem}
use cpp_hiredis_cluster.Container.Types.{SlotRange, slot_less, SlotConnection}
use cpp_hiredis_cluster.Container.OrderedMap.{map_set}
use cpp_hiredis_cluster.Pool.{ThreadedPool, get_connection, release_slot}
use cpp_hiredis_cluster.Pool.Slots.{map_at-lookup_slot, Separated-map_set}
use cpp_hiredis_cluster.Pool.Borrow.{
  get_connection-Taken, release_slot-inv, get_connection-found, release_slot-there,
}
use cpp_hiredis_cluster.Pool.Threads.{Shared, Step, take, give, Reach, here, next}
use cpp_hiredis_cluster.Pool.Lent.{
  same_range, lent, lent-append, lent-split, map_at-same_range, lookup_slot-map_set_same,
  found-map_set,
}

-- The range of the slot has a pool, and what is free and what threads have make up `n`.
pub record Pooled (index n : ℕ) (range : SlotRange) (t : Shared) : Type 0 where
  pub separated : Separated t.pool.nodes
  pub queue : List Conn
  pub found : lookup_slot index t.pool.nodes ≡ ok (range, some queue)
  pub size : length queue + lent range t.held ≡ n

module _ {E : Type 0} (index n : ℕ) (range : SlotRange) where
  pub Step-Pooled : {t u : Shared} → Step E t u → Pooled index n range t → Pooled index n range u
  Step-Pooled {t} (take i con pool' w w' e) inv =
      let (k, p, at, taken) = get_connection-Taken i con t.pool pool' w w' e in
      let (q, found, size) =
        found-map_set index range k (taken.first ∷ taken.others) taken.others inv.queue t.pool.nodes
          inv.separated taken.there inv.found in
      let nodes = ap (λ (s : ThreadedPool). s.nodes) taken.left in
      let key = ap (λ (c : SlotConnection). lent range (c ∷ t.held)) taken.same in
      let old = inv.size in
      record {
        separated =
            subst (λ m. Separated m) (sym nodes)
              (Separated-map_set k (some (taken.first ∷ taken.others)) (some taken.others)
                t.pool.nodes taken.there inv.separated);
        queue = q;
        found = ap (λ m. lookup_slot index m) nodes ∙ found;
        size = ground arith;
      }
  Step-Pooled {t} (give before others con pool' w w' split e) inv =
      let (p, there, left) = release_slot-inv con t.pool pool' w w' e in
      let (q, found, size) =
        found-map_set index range con.0 p (p ++ (con.1 ∷ [])) inv.queue t.pool.nodes inv.separated
          there inv.found in
      let nodes = ap (λ (s : ThreadedPool). s.nodes) left in
      let held = ap (λ l. lent range l) split in
      let old = inv.size in
      record {
        separated =
            subst (λ m. Separated m) (sym nodes)
              (Separated-map_set con.0 (some p) (some (p ++ (con.1 ∷ []))) t.pool.nodes there
                inv.separated);
        queue = q;
        found = ap (λ m. lookup_slot index m) nodes ∙ found;
        size = ground (arith, lent-append range before others con, length-append p (con.1 ∷ []));
      }

  Reach-Pooled : {s t : Shared} → Reach E s t → Pooled index n range s → Pooled index n range t
  Reach-Pooled here inv = inv
  Reach-Pooled (next r st) inv = Step-Pooled st (Reach-Pooled r inv)

module _ {E : Type 0} (index : ℕ) (range : SlotRange) where
  -- A waiting thread is served at once, or when one of the connections with threads is given back.
  abbrev pub Available : Shared → World E → Type 0
  Available t w =
      ((con : SlotConnection) × (s' : ThreadedPool) × (get_connection index t.pool w
          ≡ (ok con, s', w)))
      ⊎ ((before : List SlotConnection) × (others : List SlotConnection) × (con : SlotConnection)
          × (s' : ThreadedPool) × (t.held ≡ before ++ con ∷ others)
          × (release_slot con t.pool w ≡ (ok tt, s', w))
          × ((get_connection index s' w).0 ≡ ok (range, con.1)))

  free_now :
      (t : Shared) (w : World E) (c : Conn) (q : List Conn)
      → index + 1 < 2 ^ 32
      → Separated t.pool.nodes
      → lookup_slot index t.pool.nodes ≡ ok (range, some (c ∷ q))
      → Available t w
  free_now t w c q small sep found = inl (
    (range, c),
    record t.pool { nodes = map_set slot_less range (some q) t.pool.nodes },
    get_connection-found index range (some (c ∷ q)) c q t.pool w
        (search_by_slots_lem index t.pool.nodes small sep ∙ found)
        (map_at-lookup_slot index range (some (c ∷ q)) t.pool.nodes sep found),
  )

  free_later :
      (t : Shared) (w : World E) (before others : List SlotConnection) (con : SlotConnection)
      → index + 1 < 2 ^ 32
      → Separated t.pool.nodes
      → lookup_slot index t.pool.nodes ≡ ok (range, some [])
      → t.held ≡ before ++ con ∷ others
      → same_range con.0 range ≡ true
      → Available t w
  free_later t w before others con small sep found split same =
      let there =
        map_at-same_range con.0 range t.pool.nodes same
        ∙ map_at-lookup_slot index range (some []) t.pool.nodes sep found in
      let nodes = map_set slot_less con.0 (some (con.1 ∷ [])) t.pool.nodes in
      let sep' = Separated-map_set con.0 (some []) (some (con.1 ∷ [])) t.pool.nodes there sep in
      let found' =
        lookup_slot-map_set_same index con.0 range (some []) (some (con.1 ∷ [])) t.pool.nodes sep
          same found in
      inr (
        before,
        others,
        con,
        record t.pool { nodes = nodes },
        split,
        release_slot-there con [] t.pool w there,
        ap (λ r. r.0)
            (get_connection-found index range (some (con.1 ∷ [])) con.1 []
              (record t.pool { nodes = nodes }) w
              (search_by_slots_lem index nodes small sep' ∙ found')
              (map_at-lookup_slot index range (some (con.1 ∷ [])) nodes sep' found')),
      )

  found-Available :
      (t : Shared) (w : World E) (q : List Conn)
      → index + 1 < 2 ^ 32
      → 0 < length q + lent range t.held
      → Separated t.pool.nodes
      → lookup_slot index t.pool.nodes ≡ ok (range, some q)
      → Available t w
  found-Available t w (c ∷ q) small some_conns sep found = free_now t w c q small sep found
  found-Available t w [] small some_conns sep found =
      let (before, others, con, split, same) = lent-split range t.held (omega arith) in
      free_later t w before others con small sep found split same

-- Threads that take connections from a pool and give them back, in any order, never bring it to a
-- standstill. Where the pool of a slot had a connection when no thread had one, among ranges in
-- rising order that do not meet: at any later time `getConnection` for that slot returns at once,
-- or some thread has a connection of the range, its `releaseConnection` returns, and
-- `getConnection` then returns that connection.
pub Reach-Available :
    {E : Type 0} {s t : Shared} (index : ℕ) (range : SlotRange) (c : Conn) (q : List Conn)
    (w : World E)
    → index + 1 < 2 ^ 32
    → Separated s.pool.nodes
    → lookup_slot index s.pool.nodes ≡ ok (range, some (c ∷ q))
    → s.held ≡ []
    → Reach E s t
    → Available index range t w
Reach-Available {s = s} {t = t} index range c q w small sep found free r =
    let held = ap (λ l. lent range l) free in
    let inv =
      Reach-Pooled index (length (c ∷ q)) range r
        (record { separated = sep; queue = c ∷ q; found = found; size = ground arith }) in
    let size = inv.size in
    found-Available index range t w inv.queue small (omega arith) inv.separated inv.found
