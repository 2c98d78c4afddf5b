-- ===== src/Json/Proof.antt =====
-- src/json.rs: the JSON of the outcome of a block proof.
use hiero_streams_rs.Prelude.{Bool, true, false, Option, none, some, Bytes}
use hiero_streams_rs.Prelude.Int.{pos}
use hiero_streams_rs.Text.{Text, codes}
use hiero_streams_rs.Hex.{Hex}
use hiero_streams_rs.Json.{Json, text, number, boolean, null, json_object, no_members, member}
use hiero_streams_rs.Block.Material.{
  ProofPath, aggregate_schnorr, wraps_compressed_proof, unknown_path, BlockProofMaterial,
}
use hiero_streams_rs.Block.Proof.Schnorr.{SchnorrVerification}
use hiero_streams_rs.Block.Proof.Hints.{HintsChecks}
use hiero_streams_rs.Block.Proof.Wraps.{WrapsChecks}
use hiero_streams_rs.Block.Proof.Verify.{BlockProofVerification, valid}

pub path_text : ProofPath → Text
path_text aggregate_schnorr = codes "aggregate-schnorr"
path_text wraps_compressed_proof = codes "wraps-compressed-proof"
path_text unknown_path = codes "unknown"

unfoldable pub hints_value : HintsChecks → Json
hints_value hints = json_object (
    member "thresholdMet" (boolean hints.threshold_met) (
      member "blsSignatureValid" (boolean hints.bls_signature_valid) (
        member "mergedKzgValid" (boolean hints.merged_kzg_valid) (
          member "parsumKzgValid" (boolean hints.parsum_kzg_valid) (
            member "bSkIdentityValid" (boolean hints.b_sk_identity_valid) (
              member "parsumAccumulationValid" (boolean hints.parsum_accumulation_valid) (
                member "parsumConstraintValid" (boolean hints.parsum_constraint_valid) (
                  member "bitmapWellFormednessValid" (boolean hints.bitmap_well_formedness_valid) (
                    member "bitmapConstraintValid" (boolean hints.bitmap_constraint_valid) (
                      member "degreeCheckValid" (boolean hints.degree_check_valid)
                        no_members))))))))))

unfoldable pub schnorr_value : Option SchnorrVerification → Json
schnorr_value none = null
schnorr_value (some s) = json_object (
    member "valid" (boolean s.valid) (
      member "signerCount" (number (pos s.signer_count))
        (member "totalNodes" (number (pos s.total_nodes)) no_members)))

unfoldable pub wraps_value : Option WrapsChecks → Json
wraps_value none = null
wraps_value (some w) = json_object (
    member "ledgerIdMatch" (boolean w.ledger_id_match) (
      member "hintsVkHashMatch" (boolean w.hints_vk_hash_match) (
        member "iterationGuard" (boolean w.iteration_guard) (
          member "uCmEIsZero" (boolean w.u_cm_e_is_zero) (
            member "groth16Valid" (boolean w.groth16_valid) (
              member "kzg0Valid" (boolean w.kzg0_valid)
                (member "kzg1Valid" (boolean w.kzg1_valid) no_members)))))))

pub meaning : Bool → Text
meaning true =
    codes
      "the network's threshold signature covers exactly this block's recomputed merkle root, anchored to the ledger ID"
meaning false = codes "proof INVALID for the locally recomputed block root"

module _ ⦃hx : Hex⦄ where
  unfoldable pub block_proof_to_json_value :
      BlockProofMaterial → Bytes → BlockProofVerification → Json
  block_proof_to_json_value material ledger_id verification = json_object (
      member "blockNumber" (number (pos material.block_number)) (
        member "blockRoot" (text (hx.encode material.block_root)) (
          member "ledgerId" (text (hx.encode ledger_id)) (
            member "proofPath" (text (path_text material.layout.path)) (
              member "hints" (hints_value verification.hints) (
                member "schnorr" (schnorr_value verification.schnorr) (
                  member "wraps" (wraps_value verification.wraps) (
                    member "valid" (boolean (valid verification))
                      (member "meaning" (text (meaning (valid verification))) no_members)))))))))
