-- ===== src/SlotHash/Spec.antt =====
-- The part of a key that the specification of Redis Cluster hashes.
use cpp_hiredis_cluster.Base.{
  ℕ, ◌≡◌, refl, List, [], ◌∷◌, ◌++◌, Option, none, some, arith, ◌==◌, if◌then◌else◌,
}
use cpp_hiredis_cluster.Base.Search.{Avoids}

-- What stands behind the first `c`.
abbrev pub behind_first : ℕ → List ℕ → Option (List ℕ)
behind_first c [] = none
behind_first c (x ∷ xs) = if x == c then some xs else behind_first c xs

abbrev pub prepend : ℕ → Option (List ℕ) → Option (List ℕ)
prepend x none = none
prepend x (some xs) = some (x ∷ xs)

-- What stands before the first `c`.
abbrev pub up_to_first : ℕ → List ℕ → Option (List ℕ)
up_to_first c [] = none
up_to_first c (x ∷ xs) = if x == c then some [] else prepend x (up_to_first c xs)

-- The tag, unless it is missing or empty.
abbrev pub tag_part : List ℕ → Option (List ℕ) → List ℕ
tag_part key none = key
tag_part key (some []) = key
tag_part key (some (t ∷ tag)) = t ∷ tag

abbrev pub opened_part : List ℕ → Option (List ℕ) → List ℕ
opened_part key none = key
opened_part key (some rest) = tag_part key (up_to_first b'}' rest)

abbrev pub hashed_part : List ℕ → List ℕ
hashed_part key = opened_part key (behind_first b'{' key)

pub behind_first-hit : (c : ℕ) (l r : List ℕ) → Avoids c l → behind_first c (l ++ c ∷ r) ≡ some r
behind_first-hit c [] r a = ground arith
behind_first-hit c (x ∷ l) r a = ground (arith, behind_first-hit c l r a.1)

pub behind_first-miss : (c : ℕ) (l : List ℕ) → Avoids c l → behind_first c l ≡ none
behind_first-miss c [] a = refl
behind_first-miss c (x ∷ l) a = ground (arith, behind_first-miss c l a.1)

pub up_to_first-hit : (c : ℕ) (l r : List ℕ) → Avoids c l → up_to_first c (l ++ c ∷ r) ≡ some l
up_to_first-hit c [] r a = ground arith
up_to_first-hit c (x ∷ l) r a = ground (arith, up_to_first-hit c l r a.1)

pub up_to_first-miss : (c : ℕ) (l : List ℕ) → Avoids c l → up_to_first c l ≡ none
up_to_first-miss c [] a = refl
up_to_first-miss c (x ∷ l) a = ground (arith, up_to_first-miss c l a.1)
