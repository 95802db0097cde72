-- ===== src/Pool/Borrow.antt =====
-- Taking a connection from the pool of a slot and giving it back.
use cpp_hiredis_cluster.Base.{ℕ, ◌≡◌, refl, sym, ap, ◌∙◌, List, [], ◌∷◌, ◌++◌, Option, none, some}
use cpp_hiredis_cluster.Effect.Monad.{
  ok-injective, Outcome, ok, throw, fault, blocked, Conn, World, Action, after,
}
use cpp_hiredis_cluster.Container.{search_by_slots}
use cpp_hiredis_cluster.Container.Types.{SlotRange, slot_less, SlotConnection}
use cpp_hiredis_cluster.Container.OrderedMap.{map_at, map_set}
use cpp_hiredis_cluster.Pool.{
  ThreadedPool, pull, push, run_at, at_pool, on_nodes, get_connection, release_slot,
}

-- What a successful `getConnection` found and did.
pub record Taken (found : Option (Option (List Conn))) (range : SlotRange) (con : SlotConnection)
    (s s' : ThreadedPool) : Type 0 where
  pub first : Conn
  pub others : List Conn
  pub there : found ≡ some (some (first ∷ others))
  pub same : con ≡ (range, first)
  pub left : s' ≡ record s { nodes = map_set slot_less range (some others) s.nodes }

module _ {E : Type 0} where
  with_pool : SlotRange → Option (Option (List Conn)) → Action ThreadedPool E SlotConnection
  with_pool range found s w =
      after (λ con s w. (ok (range, con), s, w)) (on_nodes (run_at slot_less range pull found) s w)

  take_from : Outcome (SlotRange × Option (List Conn)) → Action ThreadedPool E SlotConnection
  take_from (ok found) s w = with_pool found.0 (map_at slot_less found.0 s.nodes) s w
  take_from (throw x) s w = (throw x, s, w)
  take_from fault s w = (fault, s, w)
  take_from blocked s w = (blocked, s, w)

  searched :
      (found : Outcome (SlotRange × Option (List Conn))) (s : ThreadedPool) (w : World E)
      → after
          (λ found s w.
            after
              (λ con s w. (ok (found.0, con), s, w))
              (on_nodes (at_pool slot_less found.0 pull) s w))
          (found, s, w)
        ≡ take_from found s w
  unfolding take_from with_pool at_pool on_nodes
  searched (ok found) s w = refl
  searched (throw x) s w = refl
  searched fault s w = refl
  searched blocked s w = refl

  get_connection-take_from :
      (index : ℕ) (s : ThreadedPool) (w : World E)
      → get_connection index s w ≡ take_from (search_by_slots index s.nodes) s w
  unfolding get_connection
  get_connection-take_from index s w = searched (search_by_slots index s.nodes) s w

  with_pool-Taken :
      (range : SlotRange) (found : Option (Option (List Conn))) (con : SlotConnection)
      (s s' : ThreadedPool) (w w' : World E)
      → with_pool range found s w ≡ (ok con, s', w')
      → Taken found range con s s'
  unfolding with_pool on_nodes run_at pull
  with_pool-Taken range none con s s' w w' e = cc
  with_pool-Taken range (some none) con s s' w w' e = cc
  with_pool-Taken range (some (some [])) con s s' w w' e = cc
  with_pool-Taken range (some (some (d ∷ q))) con s s' w w' e = record {
    first = d;
    others = q;
    there = refl;
    same = sym (ok-injective (ap (λ t. t.0) e));
    left = sym (ap (λ t. t.1) e);
  }

  take_from-Taken :
      (found : Outcome (SlotRange × Option (List Conn))) (con : SlotConnection)
      (s s' : ThreadedPool) (w w' : World E)
      → take_from found s w ≡ (ok con, s', w')
      → (range : SlotRange) × (p : Option (List Conn)) × (found ≡ ok (range, p))
        × Taken (map_at slot_less range s.nodes) range con s s'
  unfolding take_from
  take_from-Taken (ok (range, p)) con s s' w w' e =
      (range, p, refl, with_pool-Taken range (map_at slot_less range s.nodes) con s s' w w' e)
  take_from-Taken (throw x) con s s' w w' e = cc
  take_from-Taken fault con s s' w w' e = cc
  take_from-Taken blocked con s s' w w' e = cc

  -- A `getConnection` that returns took the first connection of the pool that the search found.
  pub get_connection-Taken :
      (index : ℕ) (con : SlotConnection) (s s' : ThreadedPool) (w w' : World E)
      → get_connection index s w ≡ (ok con, s', w')
      → (range : SlotRange) × (p : Option (List Conn)) × (search_by_slots index s.nodes
          ≡ ok (range, p))
        × Taken (map_at slot_less range s.nodes) range con s s'
  get_connection-Taken index con s s' w w' e =
      take_from-Taken (search_by_slots index s.nodes) con s s' w w'
        (sym (get_connection-take_from index s w) ∙ e)

  pub get_connection-found :
      (index : ℕ) (range : SlotRange) (p : Option (List Conn)) (c : Conn) (q : List Conn)
      (s : ThreadedPool) (w : World E)
      → search_by_slots index s.nodes ≡ ok (range, p)
      → map_at slot_less range s.nodes ≡ some (some (c ∷ q))
      → get_connection index s w
        ≡ (ok (range, c), record s { nodes = map_set slot_less range (some q) s.nodes }, w)
  unfolding take_from with_pool on_nodes run_at pull
  get_connection-found index range p c q s w e there =
      get_connection-take_from index s w
      ∙ ap (λ found. take_from found s w) e
      ∙ ap (λ found. with_pool range found s w) there

  pub get_connection-empty :
      (index : ℕ) (range : SlotRange) (p : Option (List Conn)) (s : ThreadedPool) (w : World E)
      → search_by_slots index s.nodes ≡ ok (range, p)
      → map_at slot_less range s.nodes ≡ some (some [])
      → (get_connection index s w).0 ≡ blocked
  unfolding take_from with_pool on_nodes run_at pull
  get_connection-empty index range p s w e there =
      ap (λ t. t.0) (get_connection-take_from index s w)
      ∙ ap (λ found. (take_from found s w).0) e
      ∙ ap (λ found. (with_pool range found s w).0) there

  giving : SlotConnection → Option (Option (List Conn)) → Action ThreadedPool E (Unit {0})
  giving con found = on_nodes (run_at slot_less con.0 (push con.1) found)

  giving-inv :
      (con : SlotConnection) (found : Option (Option (List Conn))) (s s' : ThreadedPool)
      (w w' : World E)
      → giving con found s w ≡ (ok tt, s', w')
      → (q : List Conn) × (found ≡ some (some q))
        × (s' ≡ record s { nodes = map_set slot_less con.0 (some (q ++ (con.1 ∷ []))) s.nodes })
  unfolding giving on_nodes run_at push
  giving-inv con none s s' w w' e = cc
  giving-inv con (some none) s s' w w' e = cc
  giving-inv con (some (some q)) s s' w w' e = (q, refl, sym (ap (λ t. t.1) e))

  -- A `releaseConnection` that returns put the connection behind the others of its pool.
  pub release_slot-inv :
      (con : SlotConnection) (s s' : ThreadedPool) (w w' : World E)
      → release_slot con s w ≡ (ok tt, s', w')
      → (q : List Conn) × (map_at slot_less con.0 s.nodes ≡ some (some q))
        × (s' ≡ record s { nodes = map_set slot_less con.0 (some (q ++ (con.1 ∷ []))) s.nodes })
  unfolding release_slot at_pool giving on_nodes
  release_slot-inv con s s' w w' e = giving-inv con (map_at slot_less con.0 s.nodes) s s' w w' e

  pub release_slot-there :
      (con : SlotConnection) (q : List Conn) (s : ThreadedPool) (w : World E)
      → map_at slot_less con.0 s.nodes ≡ some (some q)
      → release_slot con s w ≡ (
        ok tt,
        record s { nodes = map_set slot_less con.0 (some (q ++ (con.1 ∷ []))) s.nodes },
        w,
      )
  unfolding release_slot at_pool giving on_nodes run_at push
  release_slot-there con q s w there = ap (λ found. giving con found s w) there
