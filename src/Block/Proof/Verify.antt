-- ===== src/Block/Proof/Verify.antt =====
-- src/block/proof/mod.rs: one block's proof, over its root or over a root recomputed from one
-- transaction and its inclusion witness.
pub mod Inclusion
pub mod Accepted
use hiero_streams_rs.Prelude.{
  ℕ, Bool, true, false, ◌&&◌, Option, none, some, if◌then◌else◌, length, bytes_eq, Bytes,
}
use hiero_streams_rs.Result.{
  Result, ok, err, ◌>>=◌, proof, unrecognized_proof_suffix, witness_root_mismatch,
}
use hiero_streams_rs.Block.Merkle.{Sha384}
use hiero_streams_rs.Block.Material.{
  ProofLayout, ProofPath, aggregate_schnorr, wraps_compressed_proof, unknown_path, Bootstrap,
  BlockProofMaterial,
}
use hiero_streams_rs.Block.Material.Inclusion.{BlockInclusionWitness, recompute_block_root}
use hiero_streams_rs.Block.Proof.Curves.{Bls, Sha256, Jubjub, Bn254}
use hiero_streams_rs.Block.Proof.Schnorr.{SchnorrVerification, verify_schnorr}
use hiero_streams_rs.Block.Proof.Hints
use hiero_streams_rs.Block.Proof.Hints.{HintsChecks, verify_hints}
use hiero_streams_rs.Block.Proof.Wraps
use hiero_streams_rs.Block.Proof.Wraps.{WrapsChecks, verify_wraps}

pub record BlockProofVerification : Type 0 where
  pub block_number : ℕ
  pub hints : HintsChecks
  pub schnorr : Option SchnorrVerification
  pub wraps : Option WrapsChecks

-- `is_none_or`
abbrev pub is_none_or {ℓ} : {A : Type ℓ} → (A → Bool) → Option A → Bool
is_none_or test none = true
is_none_or test (some a) = test a

unfoldable pub valid : BlockProofVerification → Bool
valid v =
    Hints.all_passed v.hints
    && (is_none_or (λ s. s.valid) v.schnorr && is_none_or Wraps.all_passed v.wraps)

module _ ⦃jj : Jubjub⦄ ⦃bn : Bn254⦄ where
  -- The match on the path, which gives the outcome of one suffix check.
  unfoldable pub verify_suffix :
      ProofLayout → Bootstrap → Result (Option SchnorrVerification × Option WrapsChecks)
  verify_suffix layout bootstrap = elim layout.path [
    | aggregate_schnorr ↦ do s ← verify_schnorr layout bootstrap; ok (some s, none)
    | wraps_compressed_proof ↦ do w ← verify_wraps layout bootstrap; ok (none, some w)
    | unknown_path ↦ err (proof (unrecognized_proof_suffix (length layout.suffix)))
  ]

  module _ ⦃bls : Bls⦄ ⦃s : Sha256⦄ where
    unfoldable pub verify_proof_over_root :
        BlockProofMaterial → Bootstrap → Bytes → Result BlockProofVerification
    verify_proof_over_root material bootstrap block_root = do
      hints ← verify_hints material.layout block_root
      (schnorr, wraps) ← verify_suffix material.layout bootstrap
      ok (record {
        block_number = material.block_number;
        hints = hints;
        schnorr = schnorr;
        wraps = wraps;
      })

    unfoldable pub verify_block_proof :
        BlockProofMaterial → Bootstrap → Result BlockProofVerification
    verify_block_proof material bootstrap =
        verify_proof_over_root material bootstrap material.block_root

    module _ ⦃sha : Sha384⦄ where
      unfoldable pub verify_inclusion :
          Bytes
          → BlockInclusionWitness
          → BlockProofMaterial
          → Bootstrap
          → Result BlockProofVerification
      verify_inclusion tx_bytes witness material bootstrap =
          let recomputed = recompute_block_root tx_bytes witness in
          if bytes_eq recomputed material.block_root
          then verify_proof_over_root material bootstrap recomputed
          else err (proof witness_root_mismatch)
