-- ===== src/Examples/Proofs.antt =====
-- Examples for the block proofs.
use hiero_streams_rs.Prelude.{
  ℕ, ◌≡◌, ◌↔◌, ◌<◌, ◌≤◌, ◌+◌, ◌^◌, ◌*◌, refl, true, [], ◌∷◌, arith, length, take, replicate, Bytes,
}
use hiero_streams_rs.Prelude.Encode.{le_bytes}
use hiero_streams_rs.Result.{ok, Settles}
use hiero_streams_rs.Block.Material.{
  aggregate_schnorr, wraps_compressed_proof, ProofLayout, Bootstrap,
}
use hiero_streams_rs.Block.Proof.Schnorr.{SchnorrVerification, verify_schnorr}
use hiero_streams_rs.Block.Proof.Schnorr
use hiero_streams_rs.Block.Proof.Schnorr.Gate.{verify_schnorr-signers, signers, sum_keys, Accepts}
use hiero_streams_rs.Block.Proof.Hints
use hiero_streams_rs.Block.Proof.Hints.Points
use hiero_streams_rs.Block.Proof.Hints.Transcript
use hiero_streams_rs.Block.Proof.Wraps
use hiero_streams_rs.Block.Proof.Hints.{HintsChecks, verify_hints, hash_to_g2, threshold}
use hiero_streams_rs.Block.Proof.Hints.Transcript.{
  HintsVk, HintsSignature, deserialize_vk, deserialize_signature,
}
use hiero_streams_rs.Block.Proof.Hints.Threshold.{verify_hints-all_passed, threshold_iff}
use hiero_streams_rs.Block.Proof.Wraps.Wire
use hiero_streams_rs.Block.Proof.Wraps.Wire.{
  ProofData, VerifierParam, deserialize_exact, read_proof_data, read_verifier_param,
}
use hiero_streams_rs.Block.Proof.Wraps.Limbs
use hiero_streams_rs.Block.Proof.Wraps.Digits.{from_limbs-limbs_of, from_limbs}
use hiero_streams_rs.Block.Proof.Wraps.Gate.{verify_wraps-Settles}
use hiero_streams_rs.Block.Proof.Wraps.Anchored.{verify_wraps-Anchored, Anchored}
use hiero_streams_rs.Examples.Curves.{flat_bls, flat_sha256, flat_jubjub, flat_bn254}

abbrev pub schnorr_layout : ProofLayout
schnorr_layout = record {
  path = aggregate_schnorr;
  hints_verification_key = replicate 1096 0;
  hints_signature = replicate 1632 1;
  suffix = replicate 192 1;
}

abbrev pub one_node : Bootstrap
one_node = record {
  ledger_id = replicate 32 0;
  history_proof_verification_key = replicate 1768 0;
  node_contributions = record { node_id = 3; weight = 1; history_proof_key = replicate 192 0 } ∷ [];
}

abbrev pub one_signer : SchnorrVerification
one_signer = record { valid = true; signer_count = 1; total_nodes = 1 }

abbrev schnorr_bitvector : Bytes
schnorr_bitvector = take 128 schnorr_layout.suffix

verify_schnorr-signers_example :
    (length schnorr_layout.suffix ≡ Schnorr.suffix_length)
    × (1 ≡ length (signers schnorr_bitvector 0 one_node.node_contributions))
    × (1 ≤ 1)
    × ((agg_pk : ℕ) × (sum_keys ⦃jj = flat_jubjub⦄ 0
            (signers schnorr_bitvector 0 one_node.node_contributions)
          ≡ ok agg_pk)
        × Accepts ⦃jj = flat_jubjub⦄ ⦃bn = flat_bn254⦄ schnorr_layout one_node 1 agg_pk)
unfolding verify_schnorr Schnorr.aggregate Schnorr.selects Schnorr.point_from_key_bytes
    Schnorr.judge
verify_schnorr-signers_example =
    verify_schnorr-signers ⦃jj = flat_jubjub⦄ ⦃bn = flat_bn254⦄ schnorr_layout one_node one_signer
      refl refl

abbrev pub all_good : HintsChecks
all_good = record {
  threshold_met = true;
  bls_signature_valid = true;
  merged_kzg_valid = true;
  parsum_kzg_valid = true;
  b_sk_identity_valid = true;
  parsum_accumulation_valid = true;
  parsum_constraint_valid = true;
  bitmap_well_formedness_valid = true;
  bitmap_constraint_valid = true;
  degree_check_valid = true;
}

verify_hints-all_passed_example :
    (vk : HintsVk ⦃bls = flat_bls⦄) × (sig : HintsSignature ⦃bls = flat_bls⦄) × (h_msg : ℕ)
    × (deserialize_vk ⦃bls = flat_bls⦄ schnorr_layout.hints_verification_key ≡ ok vk)
    × (deserialize_signature ⦃bls = flat_bls⦄ schnorr_layout.hints_signature ≡ ok sig)
    × (hash_to_g2 ⦃bls = flat_bls⦄ (7 ∷ []) ≡ ok h_msg)
    × (vk.total_weight < 3 * sig.agg_weight)
    × (true ≡ true)
unfolding verify_hints Hints.all_passed deserialize_vk deserialize_signature hash_to_g2 threshold
    Hints.fr_to_u128 Hints.ln_minus_1 Hints.fr_div Hints.checks_of Hints.merged_kzg Hints.parsum_kzg
    Hints.b_sk_identity Transcript.read_vk Transcript.read_signature Transcript.g1_at
    Transcript.g2_at Transcript.fr_at Transcript.read_fr_le Points.read_g1_uncompressed
    Points.read_g2_uncompressed Points.fq_from_be Points.checked_g1 Points.checked_g2
verify_hints-all_passed_example =
    verify_hints-all_passed ⦃bls = flat_bls⦄ ⦃s = flat_sha256⦄ schnorr_layout (7 ∷ []) all_good refl
      refl

abbrev sample_vk : HintsVk ⦃bls = flat_bls⦄
sample_vk = record {
  n = 4;
  total_weight = 9;
  g0 = 0;
  h0 = 0;
  h1 = 0;
  ln_minus_1_of_tau_com = 0;
  w_of_tau_com = 0;
  sk_of_tau_com = 0;
  z_of_tau_com = 0;
}

abbrev sample_signature : HintsSignature ⦃bls = flat_bls⦄
sample_signature = record {
  agg_pk = 0;
  agg_weight = 4;
  agg_sig = 0;
  b_of_tau_com = 0;
  qx_of_tau_com = 0;
  qx_of_tau_mul_tau_com = 0;
  qz_of_tau_com = 0;
  parsum_of_tau_com = 0;
  q1_of_tau_com = 0;
  q3_of_tau_com = 0;
  q2_of_tau_com = 0;
  q4_of_tau_com = 0;
  opening_proof_r = 0;
  opening_proof_r_div_omega = 0;
  parsum_of_r = 0;
  parsum_of_r_div_omega = 0;
  w_of_r = 0;
  b_of_r = 0;
  q1_of_r = 0;
  q3_of_r = 0;
  q2_of_r = 0;
  q4_of_r = 0;
}

threshold_iff_example : (threshold ⦃bls = flat_bls⦄ sample_vk sample_signature ≡ ok true) ↔ (9 < 12)
threshold_iff_example =
    threshold_iff ⦃bls = flat_bls⦄ sample_vk sample_signature (omega arith) (omega arith)

from_limbs-limbs_of_example :
    from_limbs (Limbs.limbs_of (le_bytes 32 (2 ^ 200 + 77))) ≡ 2 ^ 200 + 77
from_limbs-limbs_of_example = from_limbs-limbs_of (2 ^ 200 + 77) (omega arith)

abbrev wraps_layout : ProofLayout
wraps_layout = record {
  path = wraps_compressed_proof;
  hints_verification_key = replicate 1096 0;
  hints_signature = replicate 1632 1;
  suffix = replicate 704 1;
}

verify_wraps-Settles_example : Settles (Wraps.verify_wraps ⦃bn = flat_bn254⦄ wraps_layout one_node)
verify_wraps-Settles_example = verify_wraps-Settles ⦃bn = flat_bn254⦄ wraps_layout one_node

abbrev all_anchored : Wraps.WrapsChecks
all_anchored = record {
  ledger_id_match = true;
  hints_vk_hash_match = true;
  iteration_guard = true;
  u_cm_e_is_zero = true;
  groth16_valid = true;
  kzg0_valid = true;
  kzg1_valid = true;
}

verify_wraps-Anchored_example :
    (length wraps_layout.suffix ≡ 704)
    × (length one_node.history_proof_verification_key ≡ 1768)
    × ((data_of : ProofData ⦃bn = flat_bn254⦄) × (vp : VerifierParam ⦃bn = flat_bn254⦄)
        × (deserialize_exact (read_proof_data ⦃bn = flat_bn254⦄) wraps_layout.suffix "WRAPS proof"
            ≡ ok data_of)
        × (deserialize_exact
              (read_verifier_param ⦃bn = flat_bn254⦄)
              one_node.history_proof_verification_key
              "verifier param"
            ≡ ok vp)
        × Anchored ⦃bn = flat_bn254⦄ wraps_layout one_node data_of vp)
unfolding Wraps.verify_wraps Wraps.all_passed deserialize_exact read_proof_data read_verifier_param
    Wire.ended Wire.read_eth_proof Wire.read_kzg_eval_proof Wire.read_kzg_verifier_key
    Wire.deserialize_pair Wraps.check_lengths Wraps.expect_two Wraps.check_steps Wraps.groth16_valid
    Wraps.prepare Wraps.public_input_of Wraps.kzg_valid Limbs.g1_to_nonnative Limbs.fq_to_limbs
    Limbs.limbs_of
verify_wraps-Anchored_example =
    verify_wraps-Anchored ⦃bn = flat_bn254⦄ wraps_layout one_node all_anchored refl refl
