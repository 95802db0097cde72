-- ===== src/Text/Laws.antt =====
-- Order and search on texts.
use cpp_hiredis_cluster.Base.{
  ℕ, ◌+◌, ◌≡◌, refl, ap, ◌∙◌, true, false, [], ◌∷◌, ◌++◌, length, drop, arith, length-append,
  drop-append_length,
}
use cpp_hiredis_cluster.Base.Search.{Avoids, index_of, index_of-hit}
use cpp_hiredis_cluster.Text.{Text, find_char, text_ltb}

pub text_ltb_irrefl : (s : Text) → text_ltb s s ≡ false
unfolding text_ltb
text_ltb_irrefl [] = refl
text_ltb_irrefl (x ∷ s) = ground (arith, text_ltb_irrefl s)

-- Two texts of which neither is less are equal.
pub text_ltb_connex : (s t : Text) → text_ltb s t ≡ false → text_ltb t s ≡ false → s ≡ t
unfolding text_ltb
text_ltb_connex [] [] h k = refl
text_ltb_connex [] (y ∷ t) h k = cc
text_ltb_connex (x ∷ s) [] h k = cc
text_ltb_connex (x ∷ s) (y ∷ t) h k = ground (arith, text_ltb_connex s t)

pub text_ltb_asym : (s t : Text) → text_ltb s t ≡ true → text_ltb t s ≡ false
unfolding text_ltb
text_ltb_asym [] [] h = cc
text_ltb_asym [] (y ∷ t) h = refl
text_ltb_asym (x ∷ s) [] h = cc
text_ltb_asym (x ∷ s) (y ∷ t) h = ground (arith, text_ltb_asym s t)

pub text_ltb_trans :
    (s t u : Text) → text_ltb s t ≡ true → text_ltb t u ≡ true → text_ltb s u ≡ true
unfolding text_ltb
text_ltb_trans s t [] h k = cc
text_ltb_trans s [] (z ∷ u) h k = cc
text_ltb_trans [] (y ∷ t) (z ∷ u) h k = refl
text_ltb_trans (x ∷ s) (y ∷ t) (z ∷ u) h k = ground (arith, text_ltb_trans s t u)

-- A byte behind a prefix without it is found at the prefix's length.
pub find_char-hit :
    (pre l r : Text) (c from : ℕ)
    → from ≡ length pre
    → Avoids c l
    → find_char (pre ++ (l ++ c ∷ r)) c from ≡ from + length l
unfolding find_char
find_char-hit pre l r c from e a =
    let rest : drop from (pre ++ (l ++ c ∷ r)) ≡ l ++ c ∷ r =
      ap (λ n. drop n (pre ++ (l ++ c ∷ r))) e ∙ drop-append_length pre (l ++ c ∷ r) in
    let at : index_of c (drop from (pre ++ (l ++ c ∷ r))) ≡ length l =
      ap (index_of c) rest ∙ index_of-hit c l r a in
    ground (arith, at, length-append pre (l ++ c ∷ r), length-append l (c ∷ r))
