-- ===== src/Block/Proof/Verify/Accepted.antt =====
-- What an accepted block proof of src/block/proof/mod.rs consists of.
use hiero_streams_rs.Prelude.{
  ℕ, ◌≡◌, ◌⊎◌, refl, sym, ap, ◌∙◌, inl, inr, Bool, true, false, ◌&&◌, and_true, Option, none, some,
  Bytes,
}
use hiero_streams_rs.Result.{
  Result, ok, err, ◌>>=◌, >>=-eq-ok, ok_injective, proof, unrecognized_proof_suffix,
}
use hiero_streams_rs.Block.Material.{
  ProofLayout, ProofPath, aggregate_schnorr, wraps_compressed_proof, unknown_path, Bootstrap,
  BlockProofMaterial,
}
use hiero_streams_rs.Block.Proof.Curves.{Bls, Sha256, Jubjub, Bn254}
use hiero_streams_rs.Block.Proof.Schnorr.{SchnorrVerification, verify_schnorr}
use hiero_streams_rs.Block.Proof.Hints
use hiero_streams_rs.Block.Proof.Hints.{HintsChecks, verify_hints}
use hiero_streams_rs.Block.Proof.Wraps
use hiero_streams_rs.Block.Proof.Wraps.{WrapsChecks, verify_wraps}
use hiero_streams_rs.Block.Proof.Verify.{
  BlockProofVerification, valid, is_none_or, verify_suffix, verify_proof_over_root,
  verify_block_proof,
}

module _ ⦃jj : Jubjub⦄ ⦃bn : Bn254⦄ where
  -- The suffix check that the path asks for succeeded, and it passed.
  pub record SchnorrAccepts (layout : ProofLayout) (bootstrap : Bootstrap) : Type 0 where
    pub on_schnorr : layout.path ≡ aggregate_schnorr
    pub outcome : SchnorrVerification
    pub verified : verify_schnorr layout bootstrap ≡ ok outcome
    pub accepted : outcome.valid ≡ true

  pub record WrapsAccepts (layout : ProofLayout) (bootstrap : Bootstrap) : Type 0 where
    pub on_wraps : layout.path ≡ wraps_compressed_proof
    pub outcome : WrapsChecks
    pub verified : verify_wraps layout bootstrap ≡ ok outcome
    pub accepted : Wraps.all_passed outcome ≡ true

  verify_suffix-accepted :
      (layout : ProofLayout) (bootstrap : Bootstrap) (schnorr : Option SchnorrVerification)
      (wraps : Option WrapsChecks)
      → verify_suffix layout bootstrap ≡ ok (schnorr, wraps)
      → is_none_or (λ s. s.valid) schnorr ≡ true
      → is_none_or Wraps.all_passed wraps ≡ true
      → SchnorrAccepts layout bootstrap ⊎ WrapsAccepts layout bootstrap
  unfolding verify_suffix
  verify_suffix-accepted layout bootstrap schnorr wraps h good good' = by_path layout.path refl h
    where
      by_path :
          (p : ProofPath)
          → layout.path ≡ p
          → (elim p as (λ _. Result (Option SchnorrVerification × Option WrapsChecks)) [
            | aggregate_schnorr ↦ do s ← verify_schnorr layout bootstrap; ok (some s, none)
            | wraps_compressed_proof ↦ do w ← verify_wraps layout bootstrap; ok (none, some w)
            | unknown_path ↦
                err (
                  proof (unrecognized_proof_suffix (hiero_streams_rs.Prelude.length layout.suffix)))
          ])
            ≡ ok (schnorr, wraps)
          → SchnorrAccepts layout bootstrap ⊎ WrapsAccepts layout bootstrap
      by_path aggregate_schnorr on_path k =
          let (s, e, shown) = >>=-eq-ok (verify_schnorr layout bootstrap) _ k in
          let same : some s ≡ schnorr = ap (λ p. p.0) (ok_injective shown) in
          inl (record {
            on_schnorr = on_path;
            outcome = s;
            verified = e;
            accepted = rw (← same) at good;
          })
      by_path wraps_compressed_proof on_path k =
          let (w, e, shown) = >>=-eq-ok (verify_wraps layout bootstrap) _ k in
          let same : some w ≡ wraps = ap (λ p. p.1) (ok_injective shown) in
          inr (record {
            on_wraps = on_path;
            outcome = w;
            verified = e;
            accepted = rw (← same) at good';
          })
      by_path unknown_path on_path k = absurd (cc k)

  module _ ⦃bls : Bls⦄ ⦃s : Sha256⦄ where
    -- If `verify_block_proof` returns an outcome that is `valid`, every hinTS check passed over the
    -- block's own root, and exactly the suffix check of the layout's path ran and passed: a layout
    -- without a known path is never accepted.
    pub verify_block_proof-valid :
        (m : BlockProofMaterial) (b : Bootstrap) (v : BlockProofVerification)
        → verify_block_proof m b ≡ ok v
        → valid v ≡ true
        → (v.block_number ≡ m.block_number)
          × ((checks : HintsChecks) × (verify_hints m.layout m.block_root ≡ ok checks)
              × (Hints.all_passed checks ≡ true))
          × (SchnorrAccepts m.layout b ⊎ WrapsAccepts m.layout b)
    unfolding verify_block_proof verify_proof_over_root valid
    verify_block_proof-valid m b v h good =
        let (checks, e, h₁) = >>=-eq-ok (verify_hints m.layout m.block_root) _ h in
        let ((schnorr, wraps), e', h₂) = >>=-eq-ok (verify_suffix m.layout b) _ h₁ in
        let shown = ok_injective h₂ in
        let (hints_good, rest) = and_true (Hints.all_passed v.hints) _ good in
        let (schnorr_good, wraps_good) = and_true (is_none_or (λ s. s.valid) v.schnorr) _ rest in
        (
          sym (ap (λ v. v.block_number) shown),
          (checks, e, ap (λ v. Hints.all_passed v.hints) shown ∙ hints_good),
          verify_suffix-accepted m.layout b schnorr wraps e'
              (ap (λ v. is_none_or (λ s. s.valid) v.schnorr) shown ∙ schnorr_good)
              (ap (λ v. is_none_or Wraps.all_passed v.wraps) shown ∙ wraps_good),
        )
