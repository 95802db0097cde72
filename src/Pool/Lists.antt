-- ===== src/Pool/Lists.antt =====
-- Counting the connections of a list and of a map of pools.
use cpp_hiredis_cluster.Base.{
  ℕ, ◌+◌, ◌≡◌, refl, Bool, false, List, [], ◌∷◌, ◌++◌, none, some, ◌==◌, if◌then◌else◌, arith,
  Bool-cases, inl, inr,
}
use cpp_hiredis_cluster.Effect.Monad.{Conn}
use cpp_hiredis_cluster.Container.OrderedMap.{map_at, map_set}
use cpp_hiredis_cluster.Pool.{Pools}

-- How often the connection stands in the list.
abbrev pub count : Conn → List Conn → ℕ
count c [] = 0
count c (d ∷ q) = (if c == d then 1 else 0) + count c q

pub count-append : (c : Conn) (p q : List Conn) → count c (p ++ q) ≡ count c p + count c q
count-append c [] q = omega arith
count-append c (d ∷ p) q = omega (arith, count-append c p q)

-- How often it stands in the queues of all pools.
abbrev pub stock : {K : Type 0} → Conn → Pools K Conn → ℕ
stock c [] = 0
stock c ((k, none) ∷ m) = stock c m
stock c ((k, some q) ∷ m) = count c q + stock c m

module _ {K : Type 0} (less : K → K → Bool) where
  -- Replacing the queue of a pool changes the stock by the difference.
  pub stock-map_set :
      (c : Conn) (k : K) (p q : List Conn) (m : Pools K Conn)
      → map_at less k m ≡ some (some p)
      → stock c (map_set less k (some q) m) + count c p ≡ stock c m + count c q
  unfolding map_at map_set
  stock-map_set c k p q [] e = cc
  stock-map_set c k p q ((j, none) ∷ m) e = elim (Bool-cases (less k j)) [
    | inl before ↦ ground (arith, before)
    | inr later ↦ elim (Bool-cases (less j k)) [
      | inl behind ↦ ground (arith, stock-map_set c k p q m)
      | inr here ↦ ground arith
    ]
  ]
  stock-map_set c k p q ((j, some r) ∷ m) e = ground (arith, stock-map_set c k p q m)

  pub map_at-map_set :
      {V : Type 0} (k : K) (u v : V) (m : List (K × V))
      → map_at less k m ≡ some u
      → map_at less k (map_set less k v m) ≡ some v
  unfolding map_at map_set
  map_at-map_set k u v [] e = cc
  map_at-map_set k u v ((j, x) ∷ m) e = ground (arith, map_at-map_set k u v m)

  pub map_set-map_set :
      {V : Type 0} (k : K) (u v x : V) (m : List (K × V))
      → map_at less k m ≡ some x
      → map_set less k v (map_set less k u m) ≡ map_set less k v m
  unfolding map_at map_set
  map_set-map_set k u v x [] e = cc
  map_set-map_set k u v x ((j, y) ∷ m) e = ground (arith, map_set-map_set k u v x m)

  -- A key that is its own equal is found behind an assignment, new or not.
  pub map_at-map_set_self :
      {V : Type 0} (k : K) (v : V) (m : List (K × V))
      → less k k ≡ false
      → map_at less k (map_set less k v m) ≡ some v
  unfolding map_at map_set
  map_at-map_set_self k v [] e = rw e refl
  map_at-map_set_self k v ((j, x) ∷ m) e = ground (arith, map_at-map_set_self k v m)

  pub map_set-map_set_self :
      {V : Type 0} (k : K) (u v : V) (m : List (K × V))
      → less k k ≡ false
      → map_set less k v (map_set less k u m) ≡ map_set less k v m
  unfolding map_set
  map_set-map_set_self k u v [] e = rw e refl
  map_set-map_set_self k u v ((j, y) ∷ m) e = ground (arith, map_set-map_set_self k u v m)
