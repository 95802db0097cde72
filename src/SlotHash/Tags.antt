-- ===== src/SlotHash/Tags.antt =====
-- The slot of a key with a hash tag, and of one without.
use mathlib.Core.Path.{subst}
use cpp_hiredis_cluster.Base.{
  ℕ, ◌%◌, ◌^◌, ◌≡◌, sym, ap, ◌∙◌, inl, inr, List, [], ◌∷◌, ◌++◌, some, length,
}
use cpp_hiredis_cluster.Base.Search.{Avoids, index_of-miss, locate}
use cpp_hiredis_cluster.SlotHash.Reference.{crc_from, IsBytes}
use cpp_hiredis_cluster.SlotHash.HashTag.{HasTag, scan_all, hash_all, slot_by_key_no_open}
use cpp_hiredis_cluster.SlotHash.Slots.{
  IsBytes-append_left, IsBytes-append_right, tagged_parts, whole_opened,
}
use cpp_hiredis_cluster.SlotHash.{crc16, low_14_bits, slot_by_key}

-- A key with a hash tag goes to the slot that the reference CRC16 gives for the tag alone: the
-- CRC modulo 16384.
pub slot_by_key-HasTag :
    (key tag : List ℕ)
    → HasTag key tag
    → IsBytes key
    → slot_by_key key (length key) ≡ some (crc_from 0 tag % 2 ^ 14)
slot_by_key-HasTag key tag h bytes =
    let parts : IsBytes (h.before ++ b'{' ∷ (tag ++ b'}' ∷ h.after)) =
      subst IsBytes h.shape bytes in
    let inner = (IsBytes-append_right h.before (b'{' ∷ (tag ++ b'}' ∷ h.after)) parts).1 in
    ap (λ k. slot_by_key k (length k)) h.shape
    ∙ tagged_parts h.before tag h.after h.first_open h.first_close h.not_empty
        (IsBytes-append_left tag (b'}' ∷ h.after) inner)

untagged_opened :
    (before rest : List ℕ)
    → Avoids b'{' before
    → ((tag : List ℕ) → ¬ HasTag (before ++ b'{' ∷ rest) tag)
    → let key = before ++ b'{' ∷ rest in
      slot_by_key key (length key) ≡ low_14_bits (crc16 key (length key))
untagged_opened before rest opens no_tag = elim (locate b'}' rest) [
  | inl unclosed ↦ whole_opened before rest opens (inl unclosed)
  | inr ([], after, e, closes) ↦ whole_opened before rest opens (inr (after, e))
  | inr (t ∷ tag, after, e, closes) ↦ absurd (
      no_tag (t ∷ tag) (record {
        before = before;
        after = after;
        shape = ap (λ r. before ++ b'{' ∷ r) e;
        first_open = opens;
        first_close = closes;
        not_empty = λ n. cc;
      }))
]

-- A key with no hash tag (no braces, an open one only, or nothing between them) goes to the slot
-- that the reference CRC16 gives for the whole key: the CRC modulo 16384.
pub slot_by_key_untagged :
    (key : List ℕ)
    → ((tag : List ℕ) → ¬ HasTag key tag)
    → IsBytes key
    → slot_by_key key (length key) ≡ some (crc_from 0 key % 2 ^ 14)
slot_by_key_untagged key no_tag bytes = elim (locate b'{' key) [
  | inl closed ↦
      slot_by_key_no_open key (scan_all b'{' key ∙ ap some (index_of-miss b'{' key closed))
      ∙ hash_all key bytes
  | inr (before, rest, e, opens) ↦
      ap (λ k. slot_by_key k (length k)) e
      ∙ untagged_opened before rest opens (subst (λ k. (tag : List ℕ) → ¬ HasTag k tag) e no_tag)
      ∙ sym (ap (λ k. low_14_bits (crc16 k (length k))) e)
      ∙ hash_all key bytes
]
