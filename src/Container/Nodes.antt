-- ===== src/Container/Nodes.antt =====
-- Inserting slot ranges into the map of nodes.
use cpp_hiredis_cluster.Base.{
  ℕ, ◌≤◌, ◌<◌, ◌≡◌, refl, ap, ◌∙◌, ◌⊎◌, List, [], ◌∷◌, ◌++◌, if◌then◌else◌, arith,
}
use mathlib.Core.List.{append-nil}
use cpp_hiredis_cluster.Effect.Monad.{ok, Conn}
use cpp_hiredis_cluster.Container.OrderedMap.{map_insert}
use cpp_hiredis_cluster.Container.Types.{SlotRange, slot_less}
use cpp_hiredis_cluster.Container.Search.{covers, lookup_slot, StartAbove, Separated}

abbrev pub Nodes : Type 0
Nodes = List (SlotRange × Conn)

abbrev Disjoint : SlotRange → SlotRange → Type 0
Disjoint r q = (r.second < q.first) ⊎ (q.second < r.first)

-- The range meets none of the list, and none of the list is empty.
abbrev pub Apart : SlotRange → Nodes → Type 0
Apart r [] = Unit {0}
Apart r ((q, d) ∷ m) = (q.first ≤ q.second) × Disjoint r q × Apart r m

-- No two ranges meet, and none is empty.
abbrev pub AreDisjoint : Nodes → Type 0
AreDisjoint [] = Unit {0}
AreDisjoint ((r, c) ∷ m) = (r.first ≤ r.second) × Apart r m × AreDisjoint m

abbrev pub insert_all : Nodes → Nodes → Nodes
insert_all [] m = m
insert_all ((r, c) ∷ ps) m = insert_all ps (map_insert slot_less r c m)

insert-StartAbove :
    (n : ℕ) (r : SlotRange) (c : Conn) (m : Nodes)
    → n < r.first
    → StartAbove n m
    → StartAbove n (map_insert slot_less r c m)
unfolding map_insert
insert-StartAbove n r c [] h a = (h, tt)
insert-StartAbove n r c ((q, d) ∷ m) h a = ground (arith, insert-StartAbove n r c m h a.1)

StartAbove-mono : (n k : ℕ) (m : Nodes) → k ≤ n → StartAbove n m → StartAbove k m
StartAbove-mono n k [] h a = tt
StartAbove-mono n k ((q, d) ∷ m) h a = (omega arith, StartAbove-mono n k m h a.1)

-- A new range among ranges in order, which it does not meet, keeps them in order.
pub insert-Separated :
    (r : SlotRange) (c : Conn) (m : Nodes)
    → r.first ≤ r.second
    → Apart r m
    → Separated m
    → Separated (map_insert slot_less r c m)
unfolding map_insert
insert-Separated r c [] v a s = (v, tt, tt)
insert-Separated r c ((q, d) ∷ m) v a s = ground (
  arith,
  insert-Separated r c m v a.2 s.2,
  insert-StartAbove q.second r c m,
  StartAbove-mono q.second r.second m,
)

-- The new range answers for its own slots, and every other slot is answered as before.
pub lookup_slot-insert :
    (i : ℕ) (r : SlotRange) (c : Conn) (m : Nodes)
    → r.first ≤ r.second
    → Apart r m
    → lookup_slot i (map_insert slot_less r c m)
      ≡ (if covers r i then ok (r, c) else lookup_slot i m)
unfolding map_insert lookup_slot
lookup_slot-insert i r c [] v a = refl
lookup_slot-insert i r c ((q, d) ∷ m) v a = ground (arith, lookup_slot-insert i r c m v a.2)

insert-Apart :
    (p r : SlotRange) (c : Conn) (m : Nodes)
    → r.first ≤ r.second
    → Disjoint p r
    → Apart p m
    → Apart p (map_insert slot_less r c m)
unfolding map_insert
insert-Apart p r c [] v d a = (v, d, tt)
insert-Apart p r c ((q, e) ∷ m) v d a = ground (arith, insert-Apart p r c m v d a.2)

abbrev AllApart : Nodes → Nodes → Type 0
AllApart [] m = Unit {0}
AllApart ((r, c) ∷ ps) m = Apart r m × AllApart ps m

AllApart-nil : (ps : Nodes) → AllApart ps []
AllApart-nil [] = tt
AllApart-nil ((r, c) ∷ ps) = (tt, AllApart-nil ps)

insert-AllApart :
    (ps : Nodes) (r : SlotRange) (c : Conn) (m : Nodes)
    → r.first ≤ r.second
    → Apart r ps
    → AllApart ps m
    → AllApart ps (map_insert slot_less r c m)
insert-AllApart [] r c m v a all = tt
insert-AllApart ((p, d) ∷ ps) r c m v a all =
    (insert-Apart p r c m v (ground arith) all.0, insert-AllApart ps r c m v a.2 all.1)

lookup_slot-behind :
    (i : ℕ) (r : SlotRange) (c : Conn) (ps m : Nodes)
    → r.first ≤ r.second
    → Apart r ps
    → Apart r m
    → lookup_slot i (ps ++ map_insert slot_less r c m) ≡ lookup_slot i ((r, c) ∷ (ps ++ m))
unfolding lookup_slot
lookup_slot-behind i r c [] m v a b = lookup_slot-insert i r c m v b
lookup_slot-behind i r c ((p, d) ∷ ps) m v a b =
    ground (arith, lookup_slot-behind i r c ps m v a.2 b)

insert_all_from :
    (i : ℕ) (ps m : Nodes)
    → AreDisjoint ps
    → AllApart ps m
    → lookup_slot i (insert_all ps m) ≡ lookup_slot i (ps ++ m)
insert_all_from i [] m d all = refl
insert_all_from i ((r, c) ∷ ps) m d all =
    insert_all_from i ps (map_insert slot_less r c m) d.2 (insert-AllApart ps r c m d.0 d.1 all.1)
    ∙ lookup_slot-behind i r c ps m d.0 d.1 all.0

-- Whatever order disjoint ranges come in, the map answers for each slot as their list does.
pub lookup_slot-insert_all :
    (i : ℕ) (ps : Nodes) → AreDisjoint ps → lookup_slot i (insert_all ps []) ≡ lookup_slot i ps
lookup_slot-insert_all i ps d =
    insert_all_from i ps [] d (AllApart-nil ps) ∙ ap (lookup_slot i) (append-nil ps)

insert_all-Separated_from :
    (ps m : Nodes) → AreDisjoint ps → AllApart ps m → Separated m → Separated (insert_all ps m)
insert_all-Separated_from [] m d all s = s
insert_all-Separated_from ((r, c) ∷ ps) m d all s =
    insert_all-Separated_from ps (map_insert slot_less r c m) d.2
      (insert-AllApart ps r c m d.0 d.1 all.1) (insert-Separated r c m d.0 all.0 s)

pub insert_all-Separated : (ps : Nodes) → AreDisjoint ps → Separated (insert_all ps [])
insert_all-Separated ps d = insert_all-Separated_from ps [] d (AllApart-nil ps) tt
