-- ===== src/SlotHash/HashTag.antt =====
-- Which part of a key `SlotByKey` hashes, and in which range the slot lies.
use mathlib.Core.List.{append-nil}
use cpp_hiredis_cluster.Base.{
  ℕ, ◌+◌, ◌-◌, ◌%◌, ◌^◌, ◌≡◌, ◌≢◌, refl, sym, ap, ◌∙◌, ◌⊎◌, List, [], ◌∷◌, ◌++◌, some, arith,
  length, drop, get_elem?, length-append, drop-append_length,
}
use cpp_hiredis_cluster.Base.Bits.{bit_and-mask}
use cpp_hiredis_cluster.Base.Search.{Avoids, index_of, index_of-hit, append_one, get_elem?-append}
use cpp_hiredis_cluster.SlotHash.Reference.{crc_from, IsBytes}
use cpp_hiredis_cluster.SlotHash.Crc.{crc16-reference}
use cpp_hiredis_cluster.SlotHash.{crc16, scan, low_14_bits, slot_by_key}

-- `tag` is the hash tag of `key`: what stands between the first `{` and the first `}` behind it,
-- if that is not empty.
pub record HasTag (key tag : List ℕ) : Type 0 where
  pub before : List ℕ
  pub after : List ℕ
  pub shape : key ≡ before ++ b'{' ∷ (tag ++ b'}' ∷ after)
  pub first_open : Avoids b'{' before
  pub first_close : Avoids b'}' tag
  pub not_empty : tag ≢ []

-- A scan that has come past `pre` stops at the first `c` behind it, or at the end.
scan_lem :
    (c : ℕ) (xs pre : List ℕ) (i : ℕ)
    → i ≡ length pre
    → scan (length xs) (pre ++ xs) i c ≡ some (i + index_of c xs)
unfolding scan index_of
scan_lem c [] pre i e = ap some (omega arith)
scan_lem c (x ∷ xs) pre i e =
    let here : get_elem? (pre ++ x ∷ xs) i ≡ some x = rw e (get_elem?-append pre x xs) in
    let step = scan_lem c xs (pre ++ x ∷ []) (i + 1) (omega (arith, length-append pre (x ∷ []))) in
    let later : scan (length xs) (pre ++ x ∷ xs) (i + 1) c ≡ some (i + 1 + index_of c xs) =
      ap (λ l. scan (length xs) l (i + 1) c) (sym (append_one pre x xs)) ∙ step in
    ground (arith, here, later)

pub scan_all : (c : ℕ) (key : List ℕ) → scan (length key) key 0 c ≡ some (index_of c key)
scan_all c key = scan_lem c key [] 0 refl ∙ ap some (omega arith)

pub hash_prefix :
    (xs ys : List ℕ)
    → IsBytes xs
    → low_14_bits (crc16 (xs ++ ys) (length xs)) ≡ some (crc_from 0 xs % 2 ^ 14)
unfolding low_14_bits
hash_prefix xs ys h = rw (crc16-reference xs ys h) (ap some (bit_and-mask 14 (crc_from 0 xs)))

pub hash_all :
    (key : List ℕ)
    → IsBytes key
    → low_14_bits (crc16 key (length key)) ≡ some (crc_from 0 key % 2 ^ 14)
hash_all key h =
    ap (λ k. low_14_bits (crc16 k (length key))) (sym (append-nil key)) ∙ hash_prefix key [] h

pub slot_by_key_no_open :
    (key : List ℕ)
    → scan (length key) key 0 b'{' ≡ some (length key)
    → slot_by_key key (length key) ≡ low_14_bits (crc16 key (length key))
unfolding slot_by_key
slot_by_key_no_open key h = ground arith

pub slot_by_key_no_tag :
    (key : List ℕ) (s e : ℕ)
    → scan (length key) key 0 b'{' ≡ some s
    → scan (length key - (s + 1)) key (s + 1) b'}' ≡ some e
    → (e ≡ length key) ⊎ (e ≡ s + 1)
    → slot_by_key key (length key) ≡ low_14_bits (crc16 key (length key))
unfolding slot_by_key
slot_by_key_no_tag key s e hs he h = ground arith

pub slot_by_key_tag :
    (key : List ℕ) (s e : ℕ)
    → scan (length key) key 0 b'{' ≡ some s
    → s ≢ length key
    → scan (length key - (s + 1)) key (s + 1) b'}' ≡ some e
    → e ≢ length key
    → e ≢ s + 1
    → slot_by_key key (length key) ≡ low_14_bits (crc16 (drop (s + 1) key) (e - s - 1))
unfolding slot_by_key
slot_by_key_tag key s e hs ns he ne ns' = ground arith

-- The second loop of `SlotByKey`, entered behind an opening brace.
module _ (before rest : List ℕ) where
  abbrev pub opened : List ℕ
  opened = before ++ b'{' ∷ rest

  pub opened-length : length opened ≡ length before + 1 + length rest
  opened-length = omega (arith, length-append before (b'{' ∷ rest))

  pub scan_rest :
      (c : ℕ)
      → scan (length opened - (length before + 1)) opened (length before + 1) c
        ≡ some (length before + 1 + index_of c rest)
  scan_rest c =
      let left : length opened - (length before + 1) ≡ length rest = omega (arith, opened-length) in
      ap (λ n. scan n opened (length before + 1) c) left
      ∙ ap (λ l. scan (length rest) l (length before + 1) c) (sym (append_one before b'{' rest))
      ∙ scan_lem c rest (before ++ b'{' ∷ []) (length before + 1)
          (omega (arith, length-append before (b'{' ∷ [])))

  pub drop-opened : drop (length before + 1) opened ≡ rest
  drop-opened =
      let one_more : length before + 1 ≡ length (before ++ b'{' ∷ []) =
        omega (arith, length-append before (b'{' ∷ [])) in
      ap (λ n. drop n opened) one_more
      ∙ ap (drop (length (before ++ b'{' ∷ []))) (sym (append_one before b'{' rest))
      ∙ drop-append_length (before ++ b'{' ∷ []) rest

  pub scan_first : Avoids b'{' before → scan (length opened) opened 0 b'{' ≡ some (length before)
  scan_first a = scan_all b'{' opened ∙ ap some (index_of-hit b'{' before rest a)
