-- ===== src/Block/Material/Inclusion/Binds.antt =====
-- A witness of src/block/material.rs binds the transaction: another transaction under it recomputes
-- another block root, or SHA-384 has a collision.
use hiero_streams_rs.Prelude.{◌≢◌, ◌⊎◌, inl, inr, ◌∷◌, Bytes}
use hiero_streams_rs.Block.Merkle.{Sha384, hash_leaf, hash_internal_single_child}
use hiero_streams_rs.Block.Merkle.Tamper.{
  Collision, Differ, digest_apart, under_left, under_right, and_then, fold_witness_apart,
}
use hiero_streams_rs.Block.Material.Inclusion.{BlockInclusionWitness, recompute_block_root}

module _ ⦃sha : Sha384⦄ where
  hash_leaf_apart : (x y : Bytes) → x ≢ y → Collision ⊎ Differ (hash_leaf x) (hash_leaf y)
  unfolding hash_leaf
  hash_leaf_apart x y n = digest_apart (0 ∷ x) (0 ∷ y) (λ e. n (cc))

  single_child_apart :
      (a b : Bytes)
      → Differ a b
      → Collision ⊎ Differ (hash_internal_single_child a) (hash_internal_single_child b)
  unfolding hash_internal_single_child
  single_child_apart a b d = digest_apart (1 ∷ a) (1 ∷ b) (λ e. d.apart (cc))

  pub recompute_block_root_binds :
      (tx tx' : Bytes) (w : BlockInclusionWitness)
      → tx ≢ tx'
      → Collision ⊎ (recompute_block_root tx w ≢ recompute_block_root tx' w)
  unfolding recompute_block_root
  recompute_block_root_binds tx tx' w n =
      let folded = and_then (hash_leaf_apart tx tx' n) (fold_witness_apart w.input_witness _ _) in
      let depth5 = and_then folded (under_right w.output_root _ _) in
      let depth4 = and_then depth5 (under_right _ _ _) in
      let depth3 = and_then depth4 (under_left _ _ _) in
      let fixed = and_then depth3 (single_child_apart _ _) in
      elim (and_then fixed (under_left _ _ _)) [ inl c ↦ inl c | inr d ↦ inr d.apart ]
