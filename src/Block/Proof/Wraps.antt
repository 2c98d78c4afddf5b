-- ===== src/Block/Proof/Wraps.antt =====
-- src/block/proof/wraps.rs: the compressed WRAPS proof, a Groth16 check and two KZG openings.
pub mod Wire
pub mod Limbs
pub mod Digits
pub mod Gate
pub mod Anchored
use Prim.Native.String.{String}
use hiero_streams_rs.Prelude.{
  ℕ, zero, suc, ◌+◌, Bool, true, false, ◌&&◌, not, List, [], ◌∷◌, ◌++◌, ltb, ◌==◌, if◌then◌else◌,
  length, get_elem?, Bytes,
}
use hiero_streams_rs.Result.{
  Result, ok, err, ◌>>=◌, expect, proof, not_wraps_path, bad_wraps_suffix, bad_verifier_param,
  bad_vector_length, bad_input_coefficients,
}
use hiero_streams_rs.Block.Material.{
  ProofLayout, ProofPath, aggregate_schnorr, wraps_compressed_proof, unknown_path, Bootstrap,
}
use hiero_streams_rs.Block.Proof.Curves.{Bn254}
use hiero_streams_rs.Block.Proof.Poseidon.{hash_hints_vk}
use hiero_streams_rs.Block.Proof.Wraps.Wire.{
  KzgEvalProof, EthProof, ProofData, KzgVerifierKey, VerifierParam, read_proof_data,
  read_verifier_param, deserialize_exact,
}
use hiero_streams_rs.Block.Proof.Wraps.Limbs.{g1_to_nonnative}

abbrev pub suffix_length : ℕ
suffix_length = 704

abbrev pub verifier_param_length : ℕ
verifier_param_length = 1768

abbrev pub public_input_length : ℕ
public_input_length = 40

pub record WrapsChecks : Type 0 where
  pub ledger_id_match : Bool
  pub hints_vk_hash_match : Bool
  pub iteration_guard : Bool
  pub u_cm_e_is_zero : Bool
  pub groth16_valid : Bool
  pub kzg0_valid : Bool
  pub kzg1_valid : Bool

unfoldable pub all_passed : WrapsChecks → Bool
all_passed c =
    c.ledger_id_match
    && (c.hints_vk_hash_match
        && (c.iteration_guard
            && (c.u_cm_e_is_zero && (c.groth16_valid && (c.kzg0_valid && c.kzg1_valid)))))

abbrev pub is_wraps : ProofPath → Bool
is_wraps aggregate_schnorr = false
is_wraps wraps_compressed_proof = true
is_wraps unknown_path = false

-- One turn of the loop over the four vectors.
unfoldable pub expect_two : {T : Type 0} → String → List T → Result {0} Unit
expect_two name vector =
    if length vector == 2 then ok tt else err (proof (bad_vector_length name (length vector)))

module _ ⦃bn : Bn254⦄ where
  -- The loop over the inputs and their coefficients.
  unfoldable pub accumulate : List bn.Fr → List bn.G1 → bn.G1 → bn.G1
  accumulate [] coefficients prepared = prepared
  accumulate (v ∷ vs) [] prepared = prepared
  accumulate (v ∷ vs) (c ∷ cs) prepared =
      accumulate vs cs (if bn.fr_is_zero v then prepared else bn.g1_add prepared (bn.g1_mul c v))

  -- `gamma_abc_g1[0]` and `gamma_abc_g1[1..]`; the index panics on an empty vector.
  unfoldable pub prepare : List bn.Fr → List bn.G1 → Result bn.G1
  prepare inputs [] = Result.panic
  prepare inputs (c ∷ cs) = ok (accumulate inputs cs c)

  unfoldable pub groth16_valid : List bn.Fr → bn.G1 → bn.G2 → bn.G1 → VerifierParam → Result Bool
  groth16_valid public_input proof_a proof_b proof_c vp =
      if not (length vp.gamma_abc_g1 == length public_input + 1)
      then err (proof (bad_input_coefficients (length vp.gamma_abc_g1) (length public_input)))
      else (do
        prepared_input ← prepare public_input vp.gamma_abc_g1
        ok (
            bn.pairing_is_one (
              (proof_a, proof_b)
              ∷ ((prepared_input, bn.g2_neg vp.gamma_g2)
                  ∷ ((proof_c, bn.g2_neg vp.delta_g2)
                      ∷ ((bn.g1_neg vp.alpha_g1, vp.beta_g2) ∷ []))))))

  unfoldable pub kzg_valid : bn.G1 → bn.Fr → bn.Fr → bn.G1 → VerifierParam → Bool
  kzg_valid commitment challenge eval witness vp =
      let lhs_g1 = bn.g1_sub commitment (bn.g1_mul vp.kzg_vk.g eval) in
      let rhs_g2 = bn.g2_sub vp.kzg_vk.beta_h (bn.g2_mul vp.kzg_vk.h challenge) in
      bn.pairing_is_one ((lhs_g1, vp.kzg_vk.h) ∷ ((bn.g1_neg witness, rhs_g2) ∷ []))

  -- The running commitment and the instance's, folded with the proof's `r`.
  unfoldable pub fold_commitment : bn.G1 → bn.G1 → bn.Fr → bn.G1
  fold_commitment running instance_commitment r =
      bn.g1_add running (bn.g1_mul instance_commitment r)

  unfoldable pub public_input_of : VerifierParam → ProofData → bn.G1 → bn.G1 → List bn.Fr
  public_input_of vp data_of cm_w_final cm_e_final =
      (vp.pp_hash ∷ (data_of.i ∷ []))
      ++ (data_of.z_0
          ++ (data_of.z_i
              ++ (g1_to_nonnative cm_w_final
                  ++ (g1_to_nonnative cm_e_final
                      ++ ((data_of.eth_proof.kzg_challenges.0
                            ∷ (data_of.eth_proof.kzg_challenges.1 ∷ []))
                          ++ ((data_of.eth_proof.kzg_proofs.0.eval
                                ∷ (data_of.eth_proof.kzg_proofs.1.eval ∷ []))
                              ++ g1_to_nonnative data_of.eth_proof.cm_t))))))

  unfoldable pub check_lengths : ProofData → Result {0} Unit
  check_lengths data_of = do
    _ ← expect_two "z_0" data_of.z_0
    _ ← expect_two "z_i" data_of.z_i
    _ ← expect_two "U_i" data_of.running_commitments
    expect_two "u_i" data_of.instance_commitments

  -- The five steps, of a proof whose vectors have their lengths.
  unfoldable pub check_steps :
      ProofLayout → Bootstrap → ProofData → VerifierParam → Result WrapsChecks
  check_steps layout bootstrap data_of vp = do
    z_0_first ← expect (get_elem? data_of.z_0 0)
    z_i_second ← expect (get_elem? data_of.z_i 1)
    running_w ← expect (get_elem? data_of.running_commitments 0)
    running_e ← expect (get_elem? data_of.running_commitments 1)
    instance_w ← expect (get_elem? data_of.instance_commitments 0)
    instance_e ← expect (get_elem? data_of.instance_commitments 1)
    let eth = data_of.eth_proof
    let cm_w_final = fold_commitment running_w instance_w eth.r
    let cm_e_final = fold_commitment running_e eth.cm_t eth.r
    groth16 ← groth16_valid (public_input_of vp data_of cm_w_final cm_e_final) eth.a eth.b eth.c vp
    ok (record {
      ledger_id_match =
          (length bootstrap.ledger_id == 32)
          && bn.fr_eq z_0_first (bn.fr_from_le_bytes_mod_order bootstrap.ledger_id);
      hints_vk_hash_match = bn.fr_eq z_i_second (hash_hints_vk layout.hints_verification_key);
      iteration_guard = ltb 1 (bn.fr_into_bigint data_of.i);
      u_cm_e_is_zero = bn.g1_is_zero instance_e;
      groth16_valid = groth16;
      kzg0_valid =
          kzg_valid cm_w_final eth.kzg_challenges.0 eth.kzg_proofs.0.eval eth.kzg_proofs.0.proof vp;
      kzg1_valid =
          kzg_valid cm_e_final eth.kzg_challenges.1 eth.kzg_proofs.1.eval eth.kzg_proofs.1.proof vp;
    })

  unfoldable pub verify_wraps : ProofLayout → Bootstrap → Result WrapsChecks
  verify_wraps layout bootstrap =
      if not (is_wraps layout.path)
      then err (proof not_wraps_path)
      else if not (length layout.suffix == suffix_length)
      then err (proof (bad_wraps_suffix (length layout.suffix)))
      else if not (length bootstrap.history_proof_verification_key == verifier_param_length)
      then err (proof (bad_verifier_param (length bootstrap.history_proof_verification_key)))
      else (do
        data_of ← deserialize_exact read_proof_data layout.suffix "WRAPS proof"
        vp ←
            deserialize_exact read_verifier_param bootstrap.history_proof_verification_key
              "verifier param"
        _ ← check_lengths data_of
        check_steps layout bootstrap data_of vp)
