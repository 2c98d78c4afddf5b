-- ===== src/Examples/Verified.antt =====
-- Examples for whole block proofs and for the inclusion of a transaction.
use hiero_streams_rs.Prelude.{
  ℕ, ◌≡◌, ◌≢◌, ◌↔◌, ◌⊎◌, refl, ap, true, none, some, [], ◌∷◌, arith, replicate, Bytes,
}
use hiero_streams_rs.Result.{ok}
use hiero_streams_rs.Block.Material.{unknown_path, BlockProofMaterial}
use hiero_streams_rs.Block.Proof.Schnorr.{SchnorrVerification, verify_schnorr}
use hiero_streams_rs.Block.Proof.Schnorr
use hiero_streams_rs.Block.Proof.Hints
use hiero_streams_rs.Block.Proof.Hints.Points
use hiero_streams_rs.Block.Proof.Hints.Transcript
use hiero_streams_rs.Block.Proof.Verify
use hiero_streams_rs.Stream.{inflate, has_gzip_magic}
use hiero_streams_rs.Block.Wire.{
  read_varint, varint_loop, read_length_delimited, scan_block_items, items_loop, push_item,
  scan_item_kind, kind_loop,
}
use hiero_streams_rs.Result.{map_result}
use hiero_streams_rs.Block.Merkle.{
  root, add_leaf, fold_up, hash_leaf, hash_internal, hash_internal_single_child, wrap_left,
  fold_witness, witness_for, witness_in, peak_bounds, peak_loop, peak_step, rposition, slice,
  peak_path, path_loop, perfect_root, perfect_loop, fold_peaks, peak_root,
}
use hiero_streams_rs.Block.Merkle.Tamper.{Collision}
use hiero_streams_rs.Block.Material.{
  scan_block, scan_items, scan_item, finish_scan, tree_of, hash_into, hash_input, view_item, view,
  is_viewed, block_root_of, state_root_of, timestamp_bytes_of, extract_proof_material,
  classify_layout, signed_block_signature,
}
use hiero_streams_rs.Block.Material.Inclusion.{
  BlockInclusionWitness, recompute_block_root, block_inclusion_witness, gather_items, gather_item,
  finish_witness, push_leaf, keep_view_item, keep_view, to_hash48, checked_state_root,
}
use hiero_streams_rs.Block.Proof.Hints.{HintsChecks, verify_hints, hash_to_g2, threshold}
use hiero_streams_rs.Block.Proof.Hints.Transcript.{
  HintsVk, HintsSignature, deserialize_vk, deserialize_signature,
}
use hiero_streams_rs.Block.Proof.Verify.{
  BlockProofVerification, verify_block_proof, verify_inclusion, valid,
}
use hiero_streams_rs.Block.Proof.Verify.Accepted.{
  verify_block_proof-valid, SchnorrAccepts, WrapsAccepts,
}
use hiero_streams_rs.Block.Proof.Verify.Inclusion.{
  verify_inclusion_iff, verify_inclusion_binds, verify_inclusion-block_inclusion_witness,
}
use hiero_streams_rs.Examples.{length_sha, stored, by_number}
use hiero_streams_rs.Examples.Trees.{by_number_decodes}
use hiero_streams_rs.Examples.Curves.{flat_bls, flat_sha256, flat_jubjub, flat_bn254}
use hiero_streams_rs.Examples.Proofs.{schnorr_layout, one_node, one_signer, all_good}

abbrev leaf : ℕ → Bytes
leaf n = replicate 48 n

abbrev schnorr_material : BlockProofMaterial
schnorr_material = record {
  block_number = 7;
  block_root = leaf 97;
  previous_block_root = leaf 1;
  layout = schnorr_layout;
  bootstrap = none;
}

abbrev schnorr_outcome : BlockProofVerification
schnorr_outcome = record {
  block_number = 7;
  hints = all_good;
  schnorr = some one_signer;
  wraps = none;
}

verify_block_proof-valid_example :
    (schnorr_outcome.block_number ≡ schnorr_material.block_number)
    × ((checks : HintsChecks) × (verify_hints ⦃bls = flat_bls⦄ ⦃s = flat_sha256⦄ schnorr_layout
            (leaf 97)
          ≡ ok checks)
        × (Hints.all_passed checks ≡ true))
    × (SchnorrAccepts ⦃jj = flat_jubjub⦄ ⦃bn = flat_bn254⦄ schnorr_layout one_node
        ⊎ WrapsAccepts ⦃jj = flat_jubjub⦄ ⦃bn = flat_bn254⦄ schnorr_layout one_node)
unfolding verify_block_proof Verify.verify_proof_over_root Verify.verify_suffix valid verify_hints
    Hints.all_passed deserialize_vk deserialize_signature hash_to_g2 threshold Hints.fr_to_u128
    Hints.ln_minus_1 Hints.fr_div Hints.checks_of Hints.merged_kzg Hints.parsum_kzg
    Hints.b_sk_identity Transcript.read_vk Transcript.read_signature Transcript.g1_at
    Transcript.g2_at Transcript.fr_at Transcript.read_fr_le Points.read_g1_uncompressed
    Points.read_g2_uncompressed Points.fq_from_be Points.checked_g1 Points.checked_g2 verify_schnorr
    Schnorr.aggregate Schnorr.selects Schnorr.point_from_key_bytes Schnorr.judge
verify_block_proof-valid_example =
    verify_block_proof-valid ⦃jj = flat_jubjub⦄ ⦃bn = flat_bn254⦄ ⦃bls = flat_bls⦄ ⦃s = flat_sha256⦄
      schnorr_material one_node schnorr_outcome refl refl

abbrev single_witness : BlockInclusionWitness
single_witness = record {
  input_witness = record { siblings = []; left_peaks = []; right_root = none };
  output_root = leaf 3;
  consensus_root = leaf 1;
  state_changes_root = leaf 1;
  trace_root = leaf 1;
  state_root = leaf 0;
  previous_block_root = leaf 1;
  root_hash_of_all_block_hashes_tree = leaf 2;
  timestamp_bytes = 8 ∷ (1 ∷ []);
}

verify_inclusion_iff_example :
    (verify_inclusion ⦃jj = flat_jubjub⦄ ⦃bn = flat_bn254⦄ ⦃bls = flat_bls⦄ ⦃s = flat_sha256⦄
        ⦃sha = length_sha⦄
        (1 ∷ [])
        single_witness
        schnorr_material
        one_node
      ≡ ok schnorr_outcome)
    ↔ ((recompute_block_root ⦃sha = length_sha⦄ (1 ∷ []) single_witness ≡ leaf 97)
        × (verify_block_proof ⦃jj = flat_jubjub⦄ ⦃bn = flat_bn254⦄ ⦃bls = flat_bls⦄
              ⦃s = flat_sha256⦄ schnorr_material one_node
            ≡ ok schnorr_outcome))
verify_inclusion_iff_example =
    verify_inclusion_iff ⦃jj = flat_jubjub⦄ ⦃bn = flat_bn254⦄ ⦃bls = flat_bls⦄ ⦃s = flat_sha256⦄
      ⦃sha = length_sha⦄ (1 ∷ []) single_witness schnorr_material one_node schnorr_outcome

one_not_two : ◌≢◌ {A = Bytes} (1 ∷ []) (2 ∷ [])
one_not_two e = absurd (cc (ap {B = ℕ} (λ b. elim b [ [] ↦ 0 | x ∷ xs ↦ x ]) e))

verify_inclusion_binds_example : Collision ⦃sha = length_sha⦄
unfolding verify_inclusion recompute_block_root fold_witness wrap_left hash_leaf hash_internal
    hash_internal_single_child Verify.verify_proof_over_root Verify.verify_suffix verify_hints
    deserialize_vk deserialize_signature hash_to_g2 threshold Hints.fr_to_u128 Hints.ln_minus_1
    Hints.fr_div Hints.checks_of Hints.merged_kzg Hints.parsum_kzg Hints.b_sk_identity
    Transcript.read_vk Transcript.read_signature Transcript.g1_at Transcript.g2_at Transcript.fr_at
    Transcript.read_fr_le Points.read_g1_uncompressed Points.read_g2_uncompressed Points.fq_from_be
    Points.checked_g1 Points.checked_g2 verify_schnorr Schnorr.aggregate Schnorr.selects
    Schnorr.point_from_key_bytes Schnorr.judge
verify_inclusion_binds_example =
    verify_inclusion_binds ⦃jj = flat_jubjub⦄ ⦃bn = flat_bn254⦄ ⦃bls = flat_bls⦄ ⦃s = flat_sha256⦄
      ⦃sha = length_sha⦄ (1 ∷ []) (2 ∷ []) single_witness schnorr_material one_node one_node
      schnorr_outcome schnorr_outcome one_not_two refl refl

-- A header, one signed transaction, a footer and a proof.
abbrev pub proven_block : Bytes
proven_block =
    0x0a
    ∷ (2
        ∷ (0x0a
            ∷ (0
                ∷ (0x0a
                    ∷ (3
                        ∷ (0x22
                            ∷ (1
                                ∷ (9
                                    ∷ (0x0a
                                        ∷ (2
                                            ∷ (0x62
                                                ∷ (0 ∷ (0x0a ∷ (2 ∷ (0x4a ∷ (0 ∷ []))))))))))))))))

abbrev unsigned_material : BlockProofMaterial
unsigned_material = record {
  block_number = 7;
  block_root = leaf 97;
  previous_block_root = leaf 1;
  layout = record {
    path = unknown_path;
    hints_verification_key = [];
    hints_signature = [];
    suffix = [];
  };
  bootstrap = none;
}

verify_inclusion-block_inclusion_witness_example :
    verify_inclusion ⦃jj = flat_jubjub⦄ ⦃bn = flat_bn254⦄ ⦃bls = flat_bls⦄ ⦃s = flat_sha256⦄
      ⦃sha = length_sha⦄
      (0x22 ∷ (1 ∷ (9 ∷ [])))
      single_witness
      unsigned_material
      one_node
    ≡ verify_block_proof ⦃jj = flat_jubjub⦄ ⦃bn = flat_bn254⦄ ⦃bls = flat_bls⦄ ⦃s = flat_sha256⦄
        unsigned_material one_node
unfolding inflate has_gzip_magic scan_block_items items_loop push_item scan_item_kind kind_loop
    read_length_delimited read_varint varint_loop map_result add_leaf fold_up hash_leaf
    hash_internal hash_internal_single_child wrap_left root witness_for witness_in peak_bounds
    peak_loop peak_step rposition slice peak_path path_loop perfect_root perfect_loop fold_peaks
    peak_root scan_block scan_items scan_item finish_scan tree_of hash_into hash_input view_item
    view is_viewed block_root_of state_root_of timestamp_bytes_of block_inclusion_witness
    gather_items gather_item finish_witness push_leaf keep_view_item keep_view to_hash48
    checked_state_root extract_proof_material classify_layout signed_block_signature
verify_inclusion-block_inclusion_witness_example =
    verify_inclusion-block_inclusion_witness ⦃jj = flat_jubjub⦄ ⦃bn = flat_bn254⦄ ⦃bls = flat_bls⦄
      ⦃s = flat_sha256⦄ ⦃sha = length_sha⦄ ⦃gz = stored⦄ ⦃pb = by_number⦄ by_number_decodes
      proven_block 0 unsigned_material (0x22 ∷ (1 ∷ (9 ∷ []))) single_witness one_node (omega arith)
      refl refl
