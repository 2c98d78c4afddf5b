-- ===== src/Block/Proof/Schnorr.antt =====
-- src/block/proof/schnorr.rs: the aggregate Schnorr signature of the address book over the hinTS key.
pub mod Gate
use hiero_streams_rs.Prelude.{
  ℕ, zero, suc, ◌+◌, ◌-◌, Bool, true, false, ◌||◌, not, Option, none, some, List, [], ◌∷◌, ◌++◌,
  leb, ◌==◌, if◌then◌else◌, length, get_elem?, take, drop, replicate, Bytes,
}
use hiero_streams_rs.Prelude.Encode.{le_bytes}
use hiero_streams_rs.Result.{
  Result, ok, err, ◌>>=◌, expect, proof, not_schnorr_path, bad_schnorr_suffix,
  no_node_contributions, bad_node_key, node_public_key,
}
use hiero_streams_rs.Hapi.{Decoded, value, failure}
use hiero_streams_rs.Block.Material.{
  ProofLayout, ProofPath, aggregate_schnorr, wraps_compressed_proof, unknown_path, Bootstrap,
  NodeContribution,
}
use hiero_streams_rs.Block.Proof.Curves.{Jubjub, Bn254}
use hiero_streams_rs.Block.Proof.Poseidon.{hash_hints_vk}

abbrev pub suffix_length : ℕ
suffix_length = 192

abbrev pub bitvector_length : ℕ
bitvector_length = 128

abbrev pub node_key_length : ℕ
node_key_length = 192

pub record SchnorrVerification : Type 0 where
  pub valid : Bool
  pub signer_count : ℕ
  pub total_nodes : ℕ

abbrev pub is_schnorr : ProofPath → Bool
is_schnorr aggregate_schnorr = true
is_schnorr wraps_compressed_proof = false
is_schnorr unknown_path = false

-- `i >= BITVECTOR_LENGTH || bitvector[i] == 0`, negated; a read past the vector is a panic.
unfoldable pub selects : Bytes → ℕ → Result Bool
selects bitvector i =
    if leb bitvector_length i
    then ok false
    else (do b ← expect (get_elem? bitvector i); ok (not (b == 0)))

-- `resize(32, 0)` of at most 32 bytes.
unfoldable pub resize_32 : Bytes → Bytes
resize_32 b = b ++ replicate (32 - length b) 0

-- The key in the packed signature, or the bootstrap's copy.
unfoldable pub carried_vk : ProofLayout → Bootstrap → Bytes
carried_vk layout bootstrap = elim layout.hints_verification_key [
  | [] ↦ bootstrap.history_proof_verification_key
  | b ∷ bs ↦ b ∷ bs
]

module _ ⦃jj : Jubjub⦄ where
  -- `bytes[..64]` panics on fewer.
  unfoldable pub point_from_key_bytes : Bytes → Result jj.Point
  point_from_key_bytes b =
      if leb 64 (length b)
      then (elim (jj.deserialize_uncompressed (take 64 b)) [
        | value p ↦ ok p
        | failure e ↦ err (proof (node_public_key e))
      ])
      else Result.panic

  -- The loop over the address book, from its `i`-th node: the count of signers and their sum.
  unfoldable pub aggregate :
      Bytes → ℕ → List NodeContribution → ℕ → jj.Point → Result (ℕ × jj.Point)
  aggregate bitvector i [] signer_count agg_pk = ok (signer_count, agg_pk)
  aggregate bitvector i (c ∷ contributions) signer_count agg_pk = do
    selected ← selects bitvector i
    let skipped = aggregate bitvector (suc i) contributions signer_count agg_pk
    let taken : Result (ℕ × jj.Point) = (do
      pk ← point_from_key_bytes c.history_proof_key
      aggregate bitvector (suc i) contributions (signer_count + 1) (jj.add agg_pk pk))
    if selected
        then if not (length c.history_proof_key == node_key_length)
          then err (proof (bad_node_key c.node_id (length c.history_proof_key)))
          else taken
        else skipped

  module _ ⦃bn : Bn254⦄ where
    unfoldable pub rotation_message : ProofLayout → Bootstrap → Bytes
    rotation_message layout bootstrap =
        resize_32 (take 32 bootstrap.ledger_id)
        ++ le_bytes 32 (bn.fr_into_bigint (hash_hints_vk (carried_vk layout bootstrap)))

    -- `e'` from the aggregate key, the claimed commitment and the message.
    unfoldable pub recomputed_challenge : jj.Point → jj.Scalar → jj.Scalar → Bytes → jj.Scalar
    recomputed_challenge agg_pk prover_response verifier_challenge message =
        let claimed_commitment =
          jj.add (jj.mul jj.generator prover_response) (jj.mul agg_pk verifier_challenge) in
        let digest = jj.blake2s (
          jj.serialize_uncompressed agg_pk
          ++ (jj.serialize_uncompressed claimed_commitment ++ message)) in
        jj.from_le_bytes_mod_order (take 31 digest)

    -- What follows the loop.
    unfoldable pub judge : ProofLayout → Bootstrap → ℕ → jj.Point → SchnorrVerification
    judge layout bootstrap signer_count agg_pk =
        let total_nodes = length bootstrap.node_contributions in
        let prover_response =
          jj.from_le_bytes_mod_order (take 32 (drop bitvector_length layout.suffix)) in
        let verifier_challenge =
          jj.from_le_bytes_mod_order (drop (bitvector_length + 32) layout.suffix) in
        if (signer_count == 0) || jj.is_zero agg_pk
        then record { valid = false; signer_count = signer_count; total_nodes = total_nodes }
        else record {
          valid =
              jj.scalar_eq
                (recomputed_challenge agg_pk prover_response verifier_challenge
                  (rotation_message layout bootstrap))
                verifier_challenge;
          signer_count = signer_count;
          total_nodes = total_nodes;
        }

    unfoldable pub verify_schnorr : ProofLayout → Bootstrap → Result SchnorrVerification
    verify_schnorr layout bootstrap =
        if not (is_schnorr layout.path)
        then err (proof not_schnorr_path)
        else if not (length layout.suffix == suffix_length)
        then err (proof (bad_schnorr_suffix (length layout.suffix)))
        else if length bootstrap.node_contributions == 0
        then err (proof no_node_contributions)
        else (do
          (signer_count, agg_pk) ←
              aggregate (take bitvector_length layout.suffix) 0 bootstrap.node_contributions 0
                jj.identity
          ok (judge layout bootstrap signer_count agg_pk))
