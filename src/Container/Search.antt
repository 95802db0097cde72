-- ===== src/Container/Search.antt =====
-- `searchBySlots` finds the node that serves a slot.
use cpp_hiredis_cluster.Base.{
  ℕ, ◌+◌, ◌%◌, ◌^◌, ◌≤◌, ◌<◌, ◌≡◌, refl, ap, ◌∙◌, Bool, ◌&&◌, List, [], ◌∷◌, leb, if◌then◌else◌,
  get_elem?, arith, Bool-cases, inl, inr, leb→le,
}
use cpp_hiredis_cluster.Effect.Exception.{node_search}
use cpp_hiredis_cluster.Effect.Monad.{Outcome, ok, throw}
use cpp_hiredis_cluster.Container.OrderedMap.{lower_bound}
use cpp_hiredis_cluster.Container.Types.{SlotRange, slot_less}
use cpp_hiredis_cluster.Container.{step_back, check_node, search_by_slots}

abbrev pub covers : SlotRange → ℕ → Bool
covers r i = leb r.first i && leb i r.second

-- The specification: the node whose range holds the slot, by looking at each.
unfoldable pub lookup_slot : {V : Type 0} → ℕ → List (SlotRange × V) → Outcome (SlotRange × V)
lookup_slot i [] = throw node_search
lookup_slot i ((r, c) ∷ m) = if covers r i then ok (r, c) else lookup_slot i m

-- Every range starts above `n`.
abbrev pub StartAbove : {V : Type 0} → ℕ → List (SlotRange × V) → Type 0
StartAbove n [] = Unit {0}
StartAbove n ((r, c) ∷ m) = (n < r.first) × StartAbove n m

-- Ranges in rising order that do not meet.
abbrev pub Separated : {V : Type 0} → List (SlotRange × V) → Type 0
Separated [] = Unit {0}
Separated ((r, c) ∷ m) = (r.first ≤ r.second) × StartAbove r.second m × Separated m

lookup_slot-above :
    {V : Type 0} (i n : ℕ) (m : List (SlotRange × V))
    → StartAbove n m
    → i ≤ n
    → lookup_slot i m ≡ throw node_search
unfolding lookup_slot
lookup_slot-above i n [] a h = refl
lookup_slot-above i n ((r, c) ∷ m) a h = ground (arith, lookup_slot-above i n m a.1)

abbrev start_at : ℕ → SlotRange
start_at i = record { first = i + 1; second = 0 }

check_node-lower_bound :
    {V : Type 0} (i : ℕ) (r : SlotRange) (c : V) (m : List (SlotRange × V))
    → r.first ≤ i
    → r.first ≤ r.second
    → StartAbove r.second m
    → Separated m
    → check_node i (get_elem? ((r, c) ∷ m) (lower_bound slot_less (start_at i) m))
      ≡ lookup_slot i ((r, c) ∷ m)
unfolding check_node lower_bound lookup_slot
check_node-lower_bound i r c [] low ord above sep = ground arith
check_node-lower_bound i r c ((q, d) ∷ m) low ord above sep = elim (Bool-cases (leb q.first i)) [
  | inl past ↦
      ground (arith, check_node-lower_bound i q d m (leb→le q.first i past) sep.0 sep.1 sep.2)
  | inr short ↦ ground (arith, lookup_slot-above i q.second m sep.1)
]

search_from :
    {V : Type 0} (i : ℕ) (nodes : List (SlotRange × V))
    → Separated nodes
    → check_node i (get_elem? nodes (step_back (lower_bound slot_less (start_at i) nodes)))
      ≡ lookup_slot i nodes
unfolding check_node step_back lookup_slot lower_bound
search_from i [] sep = refl
search_from i ((r, c) ∷ m) sep = elim (Bool-cases (leb r.first i)) [
  | inl past ↦
      ground (arith, check_node-lower_bound i r c m (leb→le r.first i past) sep.0 sep.1 sep.2)
  | inr short ↦ ground (arith, lookup_slot-above i r.second m sep.1)
]

-- On ranges in rising order that do not meet, the binary search and its step back return exactly
-- what a look at every node returns: the covering node, or `NodeSearchException`.
pub search_by_slots_lem :
    {V : Type 0} (i : ℕ) (nodes : List (SlotRange × V))
    → i + 1 < 2 ^ 32
    → Separated nodes
    → search_by_slots i nodes ≡ lookup_slot i nodes
unfolding search_by_slots
search_by_slots_lem i nodes h sep =
    let no_wrap : (i + 1) % 2 ^ 32 ≡ i + 1 = omega arith in
    ap
      (λ n. check_node i (
        get_elem? nodes
          (step_back (lower_bound slot_less (record { first = n; second = 0 }) nodes))))
      no_wrap
    ∙ search_from i nodes sep
