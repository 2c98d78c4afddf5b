-- ===== src/Block/Material/Layout.antt =====
-- `classify_layout` of src/block/material.rs splits a packed signature without losing a byte, and names
-- the scheme by the signature's length.
use native.Mathlib.Nat.{zero-add, suc-add}
use hiero_streams_rs.Prelude.{
  ℕ, zero, suc, ◌+◌, ◌≡◌, ap, inl, inr, [], ◌∷◌, ◌++◌, arith, length, take, drop, Bytes, ltb,
  Bool-cases, length-drop, take-append-drop, ◌↔◌,
}
use hiero_streams_rs.Block.Material.{
  classify_layout, path_of_suffix, aggregate_schnorr, wraps_compressed_proof, hints_vk_length,
  hints_sig_length, fixed_prefix_length,
}

three_parts : (m n : ℕ) (s : Bytes) → take m s ++ (take n (drop m s) ++ drop (m + n) s) ≡ s
three_parts zero n s = rw zero-add (take-append-drop n s)
three_parts (suc m) zero [] = rw suc-add
three_parts (suc m) (suc n) [] = rw suc-add
three_parts (suc m) n (b ∷ s) = rw suc-add (ap (λ t. b ∷ t) (three_parts m n s))

classify_layout_whole :
    (s : Bytes)
    → (classify_layout s).hints_verification_key
        ++ ((classify_layout s).hints_signature ++ (classify_layout s).suffix)
      ≡ s
unfolding classify_layout
classify_layout_whole s = elim (Bool-cases (ltb (length s) fixed_prefix_length)) [
  | inl short ↦ rw short
  | inr long ↦ rw long (three_parts hints_vk_length hints_sig_length s)
]

path_of_suffix_lem :
    (n : ℕ)
    → ((path_of_suffix n ≡ aggregate_schnorr) ↔ (n ≡ 192))
      × ((path_of_suffix n ≡ wraps_compressed_proof) ↔ (n ≡ 704))
unfolding path_of_suffix
path_of_suffix_lem n = ((ground arith, ground arith), (ground arith, ground arith))

-- The proof path is the aggregate Schnorr one for signatures of 2920 bytes and no other, and the
-- compressed WRAPS one for those of 3432 bytes and no other.
classify_layout_path :
    (s : Bytes)
    → (((classify_layout s).path ≡ aggregate_schnorr) ↔ (length s ≡ 2920))
      × (((classify_layout s).path ≡ wraps_compressed_proof) ↔ (length s ≡ 3432))
unfolding classify_layout
classify_layout_path s = elim (Bool-cases (ltb (length s) fixed_prefix_length)) [
  | inl short ↦
      rw short ((λ e. cc, λ h. absurd (ground arith)), (λ e. cc, λ h. absurd (ground arith)))
  | inr long ↦
      let size = length-drop fixed_prefix_length s in
      let (a, w) = path_of_suffix_lem (length (drop fixed_prefix_length s)) in
      rw long (
        (λ e. ground (arith, a.0 e, size), λ h. a.1 (ground (arith, size))),
        (λ e. ground (arith, w.0 e, size), λ h. w.1 (ground (arith, size))),
      )
]

-- The verification key, the threshold signature and the suffix, put together, are the packed signature,
-- of any length; the proof path is the aggregate Schnorr one for signatures of 2920 bytes and no other,
-- and the compressed WRAPS one for those of 3432 bytes and no other.
pub classify_layout_parts :
    (s : Bytes)
    → ((classify_layout s).hints_verification_key
          ++ ((classify_layout s).hints_signature ++ (classify_layout s).suffix)
        ≡ s)
      × (((classify_layout s).path ≡ aggregate_schnorr) ↔ (length s ≡ 2920))
      × (((classify_layout s).path ≡ wraps_compressed_proof) ↔ (length s ≡ 3432))
classify_layout_parts s =
    let (schnorr, wraps) = classify_layout_path s in (classify_layout_whole s, schnorr, wraps)
