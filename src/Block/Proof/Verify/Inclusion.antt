-- ===== src/Block/Proof/Verify/Inclusion.antt =====
-- The inclusion check of src/block/proof/mod.rs: it is the block's own check behind a comparison of
-- roots, it accepts what `block_inclusion_witness` gives, and it binds the transaction.
use hiero_streams_rs.Prelude.{
  ℕ, ◌≡◌, ◌≢◌, ◌↔◌, ◌<◌, refl, sym, ap, ◌∙◌, inl, inr, Bool-cases, bytes_eq, bytes_eq→eq,
  bytes_eq_refl, length, Bytes, u64_mod,
}
use hiero_streams_rs.Result.{ok, >>=-eq-ok, ok_injective, ok_or, proof, signed_block_proof_missing}
use hiero_streams_rs.Stream.{Gzip}
use hiero_streams_rs.Hapi.{Prost}
use hiero_streams_rs.Block.Merkle.{Sha384}
use hiero_streams_rs.Block.Merkle.Tamper.{Collision}
use hiero_streams_rs.Block.Material.{
  Bootstrap, BlockProofMaterial, ScannedBlock, scan_block, extract_proof_material,
}
use hiero_streams_rs.Block.Material.Inclusion.{
  BlockInclusionWitness, recompute_block_root, block_inclusion_witness,
}
use hiero_streams_rs.Block.Material.Inclusion.Lockstep.{DecodesByField}
use hiero_streams_rs.Block.Material.Inclusion.Sound.{recompute_block_root-block_inclusion_witness}
use hiero_streams_rs.Block.Material.Inclusion.Binds.{recompute_block_root_binds}
use hiero_streams_rs.Block.Proof.Curves.{Bls, Sha256, Jubjub, Bn254}
use hiero_streams_rs.Block.Proof.Verify.{
  BlockProofVerification, verify_block_proof, verify_inclusion,
}

module _ ⦃jj : Jubjub⦄ ⦃bn : Bn254⦄ ⦃bls : Bls⦄ ⦃s : Sha256⦄ ⦃sha : Sha384⦄ where
  same_root :
      (tx : Bytes) (w : BlockInclusionWitness) (m : BlockProofMaterial) (b : Bootstrap)
      → recompute_block_root tx w ≡ m.block_root
      → verify_inclusion tx w m b ≡ verify_block_proof m b
  unfolding verify_inclusion verify_block_proof
  same_root tx w m b e = rw (e, bytes_eq_refl m.block_root) refl

  -- `verify_inclusion` succeeds with an outcome exactly if the transaction and its witness recompute
  -- the block's root and `verify_block_proof` succeeds with that outcome on the block.
  pub verify_inclusion_iff :
      (tx : Bytes) (w : BlockInclusionWitness) (m : BlockProofMaterial) (b : Bootstrap)
      (v : BlockProofVerification)
      → (verify_inclusion tx w m b ≡ ok v)
        ↔ ((recompute_block_root tx w ≡ m.block_root) × (verify_block_proof m b ≡ ok v))
  unfolding verify_inclusion
  verify_inclusion_iff tx w m b v = (
    (λ h. elim (Bool-cases (bytes_eq (recompute_block_root tx w) m.block_root)) [
      | inl same ↦ let e = bytes_eq→eq _ _ same in (e, sym (same_root tx w m b e) ∙ h)
      | inr other ↦ absurd (cc (rw other at h))
    ]),
    (λ p. same_root tx w m b (p.0) ∙ p.1),
  )

  -- If `verify_inclusion` succeeds for two different transactions with one witness and one block,
  -- there are two different inputs of SHA-384 with the same digest.
  pub verify_inclusion_binds :
      (tx tx' : Bytes) (w : BlockInclusionWitness) (m : BlockProofMaterial) (b b' : Bootstrap)
      (v v' : BlockProofVerification)
      → tx ≢ tx'
      → verify_inclusion tx w m b ≡ ok v
      → verify_inclusion tx' w m b' ≡ ok v'
      → Collision
  verify_inclusion_binds tx tx' w m b b' v v' n h h' =
      let (e, _) = (verify_inclusion_iff tx w m b v).0 h in
      let (e', _) = (verify_inclusion_iff tx' w m b' v').0 h' in
      elim (recompute_block_root_binds tx tx' w n) [ inl c ↦ c | inr d ↦ absurd (d (e ∙ sym e')) ]

  module _ ⦃gz : Gzip⦄ ⦃pb : Prost⦄ where
    material_root :
        (bytes : Bytes) (m : BlockProofMaterial)
        → extract_proof_material bytes ≡ ok m
        → (block : ScannedBlock) × (scan_block bytes ≡ ok block) × (block.block_root ≡ m.block_root)
    unfolding extract_proof_material
    material_root bytes m h =
        let (block, e, h₁) = >>=-eq-ok (scan_block bytes) _ h in
        let (signature, _, h₂) =
          >>=-eq-ok (ok_or block.block_signature (proof signed_block_proof_missing)) _ h₁ in
        (block, e, ap (λ m. m.block_root) (ok_injective h₂))

    -- Where a message with one field decodes to that field's case, and the file has fewer than
    -- 2 ^ 64 bytes: on the proof material that `extract_proof_material` reads from a block file,
    -- `verify_inclusion` accepts what `block_inclusion_witness` gives for that file just as
    -- `verify_block_proof` accepts the block, with the same outcome, errors included.
    pub verify_inclusion-block_inclusion_witness :
        DecodesByField pb
        → (bytes : Bytes) (index : ℕ) (m : BlockProofMaterial) (tx : Bytes)
          (w : BlockInclusionWitness) (b : Bootstrap)
        → length bytes < u64_mod
        → extract_proof_material bytes ≡ ok m
        → block_inclusion_witness bytes index ≡ ok (tx, w)
        → verify_inclusion tx w m b ≡ verify_block_proof m b
    verify_inclusion-block_inclusion_witness by_field bytes index m tx w b room h k =
        let (block, e, r) = material_root bytes m h in
        same_root tx w m b (
          recompute_block_root-block_inclusion_witness by_field bytes index block tx w room e k ∙ r)
