-- ===== src/Pool/Turns.antt =====
-- A connection's way out of the pool of a slot and back, and a thread that waits for one.
use cpp_hiredis_cluster.Base.{ℕ, ◌+◌, ◌^◌, ◌<◌, ◌≡◌, ap, ◌∙◌, List, [], ◌∷◌, ◌++◌, some}
use cpp_hiredis_cluster.Effect.Monad.{ok, blocked, Conn, World}
use cpp_hiredis_cluster.Container.Search.{lookup_slot, Separated, search_by_slots_lem}
use cpp_hiredis_cluster.Container.Types.{SlotRange, slot_less}
use cpp_hiredis_cluster.Container.OrderedMap.{map_set}
use cpp_hiredis_cluster.Pool.{ThreadedPool, get_connection, release_slot}
use cpp_hiredis_cluster.Pool.Lists.{map_at-map_set, map_set-map_set}
use cpp_hiredis_cluster.Pool.Borrow.{get_connection-found, get_connection-empty, release_slot-there}
use cpp_hiredis_cluster.Pool.Slots.{map_at-lookup_slot, Separated-map_set, lookup_slot-map_set}

-- The pool with this queue at the range.
abbrev pub with_queue : ThreadedPool → SlotRange → List Conn → ThreadedPool
with_queue s range queue = record s { nodes = map_set slot_less range (some queue) s.nodes }

module _ {E : Type 0} (index : ℕ) (range : SlotRange) (s : ThreadedPool)
    (small : index + 1 < 2 ^ 32) (sep : Separated s.nodes) where
  -- Where the range of the slot, among ranges in rising order that do not meet, has free
  -- connections: `getConnection` returns the range with the first of them, and `releaseConnection`
  -- of what was returned puts it behind the others, with every other pool as it was.
  pub release_slot-get_connection :
      (c : Conn) (q : List Conn) (w w' : World E)
      → lookup_slot index s.nodes ≡ ok (range, some (c ∷ q))
      → (get_connection index s w ≡ (ok (range, c), with_queue s range q, w))
        × (release_slot (range, c) (with_queue s range q) w'
            ≡ (ok tt, with_queue s range (q ++ (c ∷ [])), w'))
  release_slot-get_connection c q w w' found =
      let there = map_at-lookup_slot index range (some (c ∷ q)) s.nodes sep found in
      (
        get_connection-found index range (some (c ∷ q)) c q s w
            (search_by_slots_lem index s.nodes small sep ∙ found) there,
        release_slot-there (range, c) q (with_queue s range q) w'
              (map_at-map_set slot_less range (some (c ∷ q)) (some q) s.nodes there)
            ∙ ap (λ m. (ok tt, record s { nodes = m }, w'))
                (map_set-map_set slot_less range (some q) (some (q ++ (c ∷ []))) (some (c ∷ q))
                  s.nodes there),
      )

  -- Where the range of the slot has no free connection, `getConnection` waits; once another
  -- thread has given a connection of the range back, it returns that connection.
  get_connection-release_slot :
      (c : Conn) (w : World E)
      → lookup_slot index s.nodes ≡ ok (range, some [])
      → ((get_connection index s w).0 ≡ blocked)
        × (release_slot (range, c) s w ≡ (ok tt, with_queue s range (c ∷ []), w))
        × ((get_connection index (with_queue s range (c ∷ [])) w).0 ≡ ok (range, c))
  get_connection-release_slot c w found =
      let there = map_at-lookup_slot index range (some []) s.nodes sep found in
      (
        get_connection-empty index range (some []) s w
            (search_by_slots_lem index s.nodes small sep ∙ found) there,
        release_slot-there (range, c) [] s w there,
        ap (λ t. t.0)
            (get_connection-found index range (some (c ∷ [])) c [] (with_queue s range (c ∷ [])) w
              (search_by_slots_lem index (map_set slot_less range (some (c ∷ [])) s.nodes) small
                  (Separated-map_set range (some []) (some (c ∷ [])) s.nodes there sep)
                ∙ lookup_slot-map_set index range (some []) (some (c ∷ [])) s.nodes sep found)
              (map_at-map_set slot_less range (some []) (some (c ∷ [])) s.nodes there)),
      )
