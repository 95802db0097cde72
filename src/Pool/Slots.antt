-- ===== src/Pool/Slots.antt =====
-- Pools in the order of their slot ranges: a range is found by its slots and by its key alike.
use cpp_hiredis_cluster.Base.{ℕ, ◌<◌, ◌≡◌, List, [], ◌∷◌, some, arith}
use cpp_hiredis_cluster.Effect.Monad.{ok}
use cpp_hiredis_cluster.Container.Search.{lookup_slot, Separated, StartAbove}
use cpp_hiredis_cluster.Container.Types.{SlotRange, slot_less}
use cpp_hiredis_cluster.Container.OrderedMap.{map_at, map_set}

module _ {V : Type 0} where
  -- The range of a slot, by a look at every node, starts above whatever all nodes start above.
  pub lookup_slot-above :
      (i n : ℕ) (r : SlotRange) (v : V) (m : List (SlotRange × V))
      → StartAbove n m
      → lookup_slot i m ≡ ok (r, v)
      → n < r.first
  unfolding lookup_slot
  lookup_slot-above i n r v [] a e = cc
  lookup_slot-above i n r v ((q, u) ∷ m) a e = ground (arith, lookup_slot-above i n r v m a.1)

  -- The node that the search finds is the node with its key.
  pub map_at-lookup_slot :
      (i : ℕ) (r : SlotRange) (v : V) (m : List (SlotRange × V))
      → Separated m
      → lookup_slot i m ≡ ok (r, v)
      → map_at slot_less r m ≡ some v
  unfolding lookup_slot map_at
  map_at-lookup_slot i r v [] sep e = cc
  map_at-lookup_slot i r v ((q, u) ∷ m) sep e =
      ground (arith, map_at-lookup_slot i r v m sep.2, lookup_slot-above i q.second r v m sep.1)

  StartAbove-map_set :
      (n : ℕ) (r : SlotRange) (u v : V) (m : List (SlotRange × V))
      → map_at slot_less r m ≡ some u
      → StartAbove n m
      → StartAbove n (map_set slot_less r v m)
  unfolding map_set map_at
  StartAbove-map_set n r u v [] e a = cc
  StartAbove-map_set n r u v ((q, x) ∷ m) e a = ground (arith, StartAbove-map_set n r u v m)

  pub Separated-map_set :
      (r : SlotRange) (u v : V) (m : List (SlotRange × V))
      → map_at slot_less r m ≡ some u
      → Separated m
      → Separated (map_set slot_less r v m)
  unfolding map_set map_at
  Separated-map_set r u v [] e s = cc
  Separated-map_set r u v ((q, x) ∷ m) e s =
      ground (arith, Separated-map_set r u v m, StartAbove-map_set q.second r u v m)

  pub lookup_slot-map_set :
      (i : ℕ) (r : SlotRange) (u v : V) (m : List (SlotRange × V))
      → Separated m
      → lookup_slot i m ≡ ok (r, u)
      → lookup_slot i (map_set slot_less r v m) ≡ ok (r, v)
  unfolding lookup_slot map_set
  lookup_slot-map_set i r u v [] sep e = cc
  lookup_slot-map_set i r u v ((q, x) ∷ m) sep e =
      ground (arith, lookup_slot-map_set i r u v m sep.2, lookup_slot-above i q.second r u m sep.1)
