-- ===== src/Container/OrderedMap.antt =====
-- `std::map` as a list in the order of its keys.
use cpp_hiredis_cluster.Base.{ℕ, suc, Bool, List, [], ◌∷◌, Option, none, some, if◌then◌else◌}

module _ {K V : Type 0} (less : K → K → Bool) where
  -- `insert`: an equivalent key keeps its old value.
  unfoldable pub map_insert : K → V → List (K × V) → List (K × V)
  map_insert k v [] = (k, v) ∷ []
  map_insert k v ((j, u) ∷ m) =
      if less k j
      then (k, v) ∷ (j, u) ∷ m
      else if less j k
      then (j, u) ∷ map_insert k v m
      else (j, u) ∷ m

  -- `at`: `none` is `std::out_of_range`.
  unfoldable pub map_at : K → List (K × V) → Option V
  map_at k [] = none
  map_at k ((j, u) ∷ m) = if less k j then none else if less j k then map_at k m else some u

  -- `lower_bound`: the position of the first key that is not less than `k`, or the end.
  unfoldable pub lower_bound : K → List (K × V) → ℕ
  lower_bound k [] = 0
  lower_bound k ((j, u) ∷ m) = if less j k then suc (lower_bound k m) else 0

  -- `operator[]` and an assignment.
  unfoldable pub map_set : K → V → List (K × V) → List (K × V)
  map_set k v [] = (k, v) ∷ []
  map_set k v ((j, u) ∷ m) =
      if less k j
      then (k, v) ∷ (j, u) ∷ m
      else if less j k
      then (j, u) ∷ map_set k v m
      else (j, v) ∷ m
