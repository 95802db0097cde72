-- ===== src/Base/Search.antt =====
-- Where a byte first stands in a list.
use Prim.Native.Nat.{ℕ, suc}
use mathlib.Core.Bool.{true, false}
use mathlib.Core.List.{List, [], ◌∷◌, ◌++◌}
use mathlib.Core.Logic.{◌≢◌, ◌⊎◌, inl, inr}
use mathlib.Core.Option.{some}
use mathlib.Core.Path.{◌≡◌, refl, ap}
use native.Mathlib.Omega.{arith}
use cpp_hiredis_cluster.Base.Lists.{length, get_elem?}
use cpp_hiredis_cluster.Base.Tests.{◌==◌, ==_iff, Bool-cases}

-- The byte `c` does not occur.
abbrev pub Avoids : ℕ → List ℕ → Type 0
Avoids c [] = Unit {0}
Avoids c (b ∷ xs) = (b ≢ c) × Avoids c xs

pub get_elem?-append :
    (pre : List ℕ) (x : ℕ) (xs : List ℕ) → get_elem? (pre ++ x ∷ xs) (length pre) ≡ some x
get_elem?-append [] x xs = refl
get_elem?-append (p ∷ pre) x xs = get_elem?-append pre x xs

-- Where `c` first stands in a list, or its length.
unfoldable pub index_of : ℕ → List ℕ → ℕ
index_of c [] = 0
index_of c (x ∷ xs) = elim (x == c) [ true ↦ 0 | false ↦ suc (index_of c xs) ]

pub append_one : (pre : List ℕ) (x : ℕ) (xs : List ℕ) → (pre ++ x ∷ []) ++ xs ≡ pre ++ x ∷ xs
append_one [] x xs = refl
append_one (p ∷ pre) x xs = ap (◌∷◌ p) (append_one pre x xs)

pub index_of-hit : (c : ℕ) (xs ys : List ℕ) → Avoids c xs → index_of c (xs ++ c ∷ ys) ≡ length xs
unfolding index_of
index_of-hit c [] ys h = ground arith
index_of-hit c (x ∷ xs) ys h = ground (arith, index_of-hit c xs ys h.1)

-- The list up to the first `c`, and the rest behind it, if `c` occurs.
abbrev pub Occurrence : ℕ → List ℕ → Type 0
Occurrence c xs = Avoids c xs ⊎ ((l : List ℕ) × (r : List ℕ) × (xs ≡ l ++ c ∷ r) × Avoids c l)

pub locate : (c : ℕ) (xs : List ℕ) → Occurrence c xs
locate c [] = inl tt
locate c (x ∷ xs) = elim (Bool-cases (x == c)) [
  | inl hit ↦ inr ([], xs, ap (λ t. t ∷ xs) ((==_iff x c).0 hit), tt)
  | inr miss ↦ elim (locate c xs) [
    | inl none_left ↦ inl ((λ e. ground arith), none_left)
    | inr (l, r, e, a) ↦ inr (x ∷ l, r, ap (◌∷◌ x) e, ((λ e. ground arith), a))
  ]
]

pub index_of-miss : (c : ℕ) (xs : List ℕ) → Avoids c xs → index_of c xs ≡ length xs
unfolding index_of
index_of-miss c [] h = refl
index_of-miss c (x ∷ xs) h = ground (arith, index_of-miss c xs h.1)

pub Avoids-no_split : (c : ℕ) (xs l r : List ℕ) → Avoids c xs → xs ≢ l ++ c ∷ r
Avoids-no_split c [] [] r a e = cc
Avoids-no_split c [] (y ∷ l) r a e = cc
Avoids-no_split c (x ∷ xs) [] r a e = a.0 (ground arith)
Avoids-no_split c (x ∷ xs) (y ∷ l) r a e = Avoids-no_split c xs l r a.1 (ground arith)

pub Avoids-index_of : (c : ℕ) (xs : List ℕ) → index_of c xs ≡ length xs → Avoids c xs
unfolding index_of
Avoids-index_of c [] h = tt
Avoids-index_of c (x ∷ xs) h = ((λ e. ground arith), Avoids-index_of c xs (ground arith))
