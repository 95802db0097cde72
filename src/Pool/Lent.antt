-- ===== src/Pool/Lent.antt =====
-- The connections of one range that threads have, and what a change of a queue does to a search.
use cpp_hiredis_cluster.Base.{
  ℕ, ◌+◌, ◌<◌, ◌≡◌, refl, sym, ap, ◌∙◌, inl, inr, Bool, true, false, List, [], ◌∷◌, ◌++◌, Option,
  some, ◌==◌, if◌then◌else◌, arith, length, Bool-cases,
}
use cpp_hiredis_cluster.Effect.Monad.{ok, Conn}
use cpp_hiredis_cluster.Container.Search.{lookup_slot, Separated}
use cpp_hiredis_cluster.Container.Types.{SlotRange, slot_less, SlotConnection}
use cpp_hiredis_cluster.Container.OrderedMap.{map_at, map_set}
use cpp_hiredis_cluster.Pool.Slots.{lookup_slot-above, map_at-lookup_slot}

-- Ranges are told apart by their first slot.
abbrev pub same_range : SlotRange → SlotRange → Bool
same_range a b = a.first == b.first

-- How many connections of the range threads have.
abbrev pub lent : SlotRange → List SlotConnection → ℕ
lent range [] = 0
lent range ((r, c) ∷ held) = (if same_range r range then 1 else 0) + lent range held

pub lent-append :
    (range : SlotRange) (xs ys : List SlotConnection) (con : SlotConnection)
    → lent range (xs ++ con ∷ ys)
      ≡ (if same_range con.0 range then 1 else 0) + lent range (xs ++ ys)
lent-append range [] ys (r, c) = refl
lent-append range ((q, d) ∷ xs) ys con = omega (arith, lent-append range xs ys con)

pub lent-split :
    (range : SlotRange) (held : List SlotConnection)
    → 0 < lent range held
    → (before : List SlotConnection) × (others : List SlotConnection) × (con : SlotConnection)
      × (held ≡ before ++ con ∷ others)
      × (same_range con.0 range ≡ true)
lent-split range [] some_conns = absurd (omega arith)
lent-split range ((r, c) ∷ held) some_conns = elim (Bool-cases (same_range r range)) [
  | inl same ↦ ([], held, (r, c), refl, same)
  | inr other ↦
      let (before, others, con, split, same) = lent-split range held (ground arith) in
      ((r, c) ∷ before, others, con, ap (λ l. (r, c) ∷ l) split, same)
]

module _ {V : Type 0} where
  pub map_at-same_range :
      (k r : SlotRange) (m : List (SlotRange × V))
      → same_range k r ≡ true
      → map_at slot_less k m ≡ map_at slot_less r m
  unfolding map_at
  map_at-same_range k r [] e = refl
  map_at-same_range k r ((q, u) ∷ m) e = ground (arith, map_at-same_range k r m)

  pub lookup_slot-map_set_same :
      (i : ℕ) (k r : SlotRange) (u v : V) (m : List (SlotRange × V))
      → Separated m
      → same_range k r ≡ true
      → lookup_slot i m ≡ ok (r, u)
      → lookup_slot i (map_set slot_less k v m) ≡ ok (r, v)
  unfolding lookup_slot map_set
  lookup_slot-map_set_same i k r u v [] sep same e = cc
  lookup_slot-map_set_same i k r u v ((q, x) ∷ m) sep same e =
      ground (
        arith,
        lookup_slot-map_set_same i k r u v m sep.2,
        lookup_slot-above i q.second r u m sep.1,
      )

  lookup_slot-map_set_other :
      (i : ℕ) (k r : SlotRange) (u v x : V) (m : List (SlotRange × V))
      → map_at slot_less k m ≡ some x
      → same_range k r ≡ false
      → lookup_slot i m ≡ ok (r, u)
      → lookup_slot i (map_set slot_less k v m) ≡ ok (r, u)
  unfolding lookup_slot map_set map_at
  lookup_slot-map_set_other i k r u v x [] there other e = cc
  lookup_slot-map_set_other i k r u v x ((q, y) ∷ m) there other e =
      ground (arith, lookup_slot-map_set_other i k r u v x m)

queue_size :
    (p q : List Conn)
    → ◌≡◌ {A = Option (Option (List Conn))} (some (some p)) (some (some q))
    → length p ≡ length q
queue_size p q e = cc

-- A change of one queue, as the search for a slot sees it.
pub found-map_set :
    (i : ℕ) (range k : SlotRange) (p p' q : List Conn) (m : List (SlotRange × Option (List Conn)))
    → Separated m
    → map_at slot_less k m ≡ some (some p)
    → lookup_slot i m ≡ ok (range, some q)
    → (q' : List Conn) × (lookup_slot i (map_set slot_less k (some p') m) ≡ ok (range, some q'))
      × (length q' + (if same_range k range then length p else 0)
          ≡ length q + (if same_range k range then length p' else 0))
found-map_set i range k p p' q m sep there found = elim (Bool-cases (same_range k range)) [
  | inl same ↦
      let sizes = queue_size p q (
        sym there
        ∙ map_at-same_range k range m same
        ∙ map_at-lookup_slot i range (some q) m sep found) in
      (p', lookup_slot-map_set_same i k range (some q) (some p') m sep same found, ground arith)
  | inr other ↦ (
    q,
    lookup_slot-map_set_other i k range (some q) (some p') (some p) m there other found,
    ground arith,
  )
]
