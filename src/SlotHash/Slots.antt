-- ===== src/SlotHash/Slots.antt =====
-- The slot of a key: what `SlotByKey` promises to its callers.
use mathlib.Core.Path.{subst}
use cpp_hiredis_cluster.Base.{
  ℕ, ◌+◌, ◌-◌, ◌%◌, ◌^◌, ◌<◌, ◌≡◌, ◌≢◌, refl, sym, ap, ◌∙◌, ◌⊎◌, inl, inr, List, [], ◌∷◌, ◌++◌,
  Option, none, some, arith, length, drop, Option-cases, length-append,
}
use cpp_hiredis_cluster.Base.Bits.{bit_and-mask}
use cpp_hiredis_cluster.Base.Search.{Avoids, index_of-hit, index_of-miss, locate}
use cpp_hiredis_cluster.SlotHash.Reference.{crc_from, IsBytes}
use cpp_hiredis_cluster.SlotHash.HashTag.{
  scan_all, hash_prefix, hash_all, slot_by_key_no_open, slot_by_key_no_tag, slot_by_key_tag,
  opened-length, scan_rest, drop-opened, scan_first,
}
use cpp_hiredis_cluster.SlotHash.Spec.{
  up_to_first, tag_part, opened_part, hashed_part, behind_first-hit, behind_first-miss,
  up_to_first-hit, up_to_first-miss,
}
use cpp_hiredis_cluster.SlotHash.{crc16, scan, low_14_bits, slot_by_key}

pub IsBytes-append_right : (xs ys : List ℕ) → IsBytes (xs ++ ys) → IsBytes ys
IsBytes-append_right [] ys h = h
IsBytes-append_right (x ∷ xs) ys h = IsBytes-append_right xs ys h.1

pub IsBytes-append_left : (xs ys : List ℕ) → IsBytes (xs ++ ys) → IsBytes xs
IsBytes-append_left [] ys h = tt
IsBytes-append_left (x ∷ xs) ys h = (h.0, IsBytes-append_left xs ys h.1)

length-ne-zero : (xs : List ℕ) → xs ≢ [] → 0 < length xs
length-ne-zero [] h = absurd (h refl)
length-ne-zero (x ∷ xs) h = omega arith

-- The key in its parts, with what each loop finds.
pub tagged_parts :
    (before tag after : List ℕ)
    → Avoids b'{' before
    → Avoids b'}' tag
    → tag ≢ []
    → IsBytes tag
    → let key = before ++ b'{' ∷ (tag ++ b'}' ∷ after) in
      slot_by_key key (length key) ≡ some (crc_from 0 tag % 2 ^ 14)
tagged_parts before tag after opens closes some_tag bytes =
    let rest : List ℕ = tag ++ b'}' ∷ after in
    let key : List ℕ = before ++ b'{' ∷ rest in
    let found =
      scan_rest before rest b'}'
      ∙ ap some (ap (λ n. length before + 1 + n) (index_of-hit b'}' tag after closes)) in
    let whole = opened-length before rest in
    let behind = length-append tag (b'}' ∷ after) in
    let pos = length-ne-zero tag some_tag in
    let width : length before + 1 + length tag - length before - 1 ≡ length tag = omega arith in
    slot_by_key_tag key (length before) (length before + 1 + length tag)
      (scan_first before rest opens) (omega (arith, whole)) found (omega (arith, whole, behind))
      (omega (arith, pos))
    ∙ ap (λ k. low_14_bits (crc16 k (length before + 1 + length tag - length before - 1)))
        (drop-opened before rest)
    ∙ ap (λ n. low_14_bits (crc16 rest n)) width
    ∙ hash_prefix tag (b'}' ∷ after) bytes

pub whole_opened :
    (before rest : List ℕ)
    → Avoids b'{' before
    → (Avoids b'}' rest ⊎ ((after : List ℕ) × (rest ≡ b'}' ∷ after)))
    → let key = before ++ b'{' ∷ rest in
      slot_by_key key (length key) ≡ low_14_bits (crc16 key (length key))
whole_opened before rest opens (inl unclosed) =
    slot_by_key_no_tag (before ++ b'{' ∷ rest) (length before) (length before + 1 + length rest)
      (scan_first before rest opens)
      (scan_rest before rest b'}'
        ∙ ap some (ap (λ n. length before + 1 + n) (index_of-miss b'}' rest unclosed)))
      (inl (sym (opened-length before rest)))
whole_opened before rest opens (inr (after, e)) =
    slot_by_key_no_tag (before ++ b'{' ∷ rest) (length before) (length before + 1)
      (scan_first before rest opens)
      (scan_rest before rest b'}' ∙ ap some (rw (e, index_of-hit b'}' [] after tt) (omega arith)))
      (inr refl)

opened-hashed_part :
    (before rest : List ℕ)
    → Avoids b'{' before
    → let key = before ++ b'{' ∷ rest in
      IsBytes key
      → slot_by_key key (length key)
        ≡ some (crc_from 0 (tag_part key (up_to_first b'}' rest)) % 2 ^ 14)
opened-hashed_part before rest opens bytes =
    let key : List ℕ = before ++ b'{' ∷ rest in
    let slot : List ℕ → Option ℕ = λ part. some (crc_from 0 part % 2 ^ 14) in
    elim (locate b'}' rest) [
      | inl unclosed ↦
          whole_opened before rest opens (inl unclosed)
          ∙ hash_all key bytes
          ∙ ap (λ o. slot (tag_part key o)) (sym (up_to_first-miss b'}' rest unclosed))
      | inr ([], after, e, closes) ↦
          whole_opened before rest opens (inr (after, e))
          ∙ hash_all key bytes
          ∙ ap (λ o. slot (tag_part key o))
              (sym (ap (up_to_first b'}') e ∙ up_to_first-hit b'}' [] after closes))
      | inr (t ∷ tag, after, e, closes) ↦
          ap (λ r. slot_by_key (before ++ b'{' ∷ r) (length (before ++ b'{' ∷ r))) e
          ∙ tagged_parts before (t ∷ tag) after opens closes (λ n. cc)
              (IsBytes-append_left (t ∷ tag) (b'}' ∷ after)
                (subst IsBytes e (IsBytes-append_right before (b'{' ∷ rest) bytes).1))
          ∙ ap (λ o. slot (tag_part key o))
              (sym (ap (up_to_first b'}') e ∙ up_to_first-hit b'}' (t ∷ tag) after closes))
    ]

-- Every key goes to the slot that the specification of Redis Cluster gives it: the reference CRC16,
-- modulo 16384, of the bytes between the first `{` and the first `}` behind it, or of the whole
-- key if one of these is missing or nothing stands between them.
pub slot_by_key-hashed_part :
    (key : List ℕ)
    → IsBytes key
    → slot_by_key key (length key) ≡ some (crc_from 0 (hashed_part key) % 2 ^ 14)
slot_by_key-hashed_part key bytes =
    let slot : List ℕ → Option ℕ = λ part. some (crc_from 0 part % 2 ^ 14) in
    elim (locate b'{' key) [
      | inl closed ↦
          slot_by_key_no_open key (scan_all b'{' key ∙ ap some (index_of-miss b'{' key closed))
          ∙ hash_all key bytes
          ∙ ap (λ o. slot (opened_part key o)) (sym (behind_first-miss b'{' key closed))
      | inr (before, rest, e, opens) ↦
          ap (λ k. slot_by_key k (length k)) e
          ∙ opened-hashed_part before rest opens (subst IsBytes e bytes)
          ∙ ap slot (
              sym (
                ap hashed_part e
                ∙ ap (opened_part (before ++ b'{' ∷ rest))
                    (behind_first-hit b'{' before rest opens)))
    ]

low_14_bits-lt : (crc : Option ℕ) (s : ℕ) → low_14_bits crc ≡ some s → s < 2 ^ 14
unfolding low_14_bits
low_14_bits-lt none s h = cc
low_14_bits-lt (some x) s h = ground (arith, bit_and-mask 14 x)

-- Whatever bytes are hashed, a slot that is returned is one of the 16384.
pub slot_by_key-lt : (key : List ℕ) (keylen s : ℕ) → slot_by_key key keylen ≡ some s → s < 16384
unfolding slot_by_key
slot_by_key-lt key keylen s h = elim (Option-cases (scan keylen key 0 b'{')) [
  | inl e ↦ ground arith
  | inr (o, e) ↦ elim (Option-cases (scan (keylen - (o + 1)) key (o + 1) b'}')) [
    | inl e2 ↦ ground (arith, low_14_bits-lt (crc16 key keylen) s)
    | inr (c, e2) ↦ ground (
      arith,
      low_14_bits-lt (crc16 key keylen) s,
      low_14_bits-lt (crc16 (drop (o + 1) key) (c - o - 1)) s,
    )
  ]
]
