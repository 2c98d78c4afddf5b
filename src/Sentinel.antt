-- ===== src/Sentinel.antt =====
-- src/cli/sentinel.rs: a run of the continuous verification. The crate is built with its feature
-- `block-proofs`.
pub mod Types
pub mod Newest
pub mod Batches
pub mod Window
pub mod Chain
pub mod StateFile
use hiero_streams_rs.Prelude.{
  ℕ, zero, suc, ◌+◌, ◌-◌, ◌/◌, ◌%◌, Bool, true, false, not, Option, none, some, List, [], ◌∷◌, map,
  ltb, if◌then◌else◌, length, bytes_eq, ◌==◌, Bytes, u64_mod,
}
use hiero_streams_rs.Hex.{Hex}
use hiero_streams_rs.Text.{Text, codes}
use hiero_streams_rs.Result
use hiero_streams_rs.Result.{Result}
use hiero_streams_rs.Stream.{Gzip}
use hiero_streams_rs.Hapi.{Prost, Decoded, value, failure}
use hiero_streams_rs.Block.Merkle.{Sha384}
use hiero_streams_rs.Block.Material.{
  ProofPath, aggregate_schnorr, wraps_compressed_proof, unknown_path, ProofLayout,
  BlockProofMaterial, Bootstrap, extract_proof_material,
}
use hiero_streams_rs.Block.Proof.Curves.{Bls, Sha256}
use hiero_streams_rs.Block.Proof.Hints.{HintsChecks, verify_hints, all_passed}
use hiero_streams_rs.Sentinel.Types.{
  Alarm, unreadable_block, sequence_break, root_chain_break, proof_format_changed,
  signature_layout_changed, ledger_id_publication, invalid_threshold_signature, gap, no_last_block,
  no_init_block, Run, done, alarmed, panicked, unfinished, ◌>>=◌, or_alarm, State, Source,
}
use hiero_streams_rs.Sentinel.Newest.{newest}

-- The name of the path, and whether it carries a TSS proof.
unfoldable pub path_name : ProofPath → Text × Bool
path_name aggregate_schnorr = (codes "aggregateSchnorr", true)
path_name wraps_compressed_proof = (codes "wraps", true)
path_name unknown_path = (codes "unknown", false)

unfoldable pub signature_size : ProofLayout → ℕ
signature_size layout =
    length layout.hints_verification_key + length layout.hints_signature + length layout.suffix

-- A guard: the error where the test holds.
abbrev pub refuse_if : Bool → Alarm → Run (Unit {0})
refuse_if true a = alarmed a
refuse_if false a = done tt

abbrev pub unwrap_or_zero : Option ℕ → ℕ
unwrap_or_zero none = 0
unwrap_or_zero (some n) = n

unfoldable pub check_number : ℕ → BlockProofMaterial → Run (Unit {0})
check_number n material =
    refuse_if (not (material.block_number == n)) (sequence_break n material.block_number)

module _ ⦃hx : Hex⦄ where
  unfoldable pub check_root : ℕ → BlockProofMaterial → Option Text → Run (Unit {0})
  check_root n material none = done tt
  check_root n material (some prev_root) =
      let prev_claim = hx.encode material.previous_block_root in
      refuse_if (not (bytes_eq prev_claim prev_root)) (root_chain_break n prev_claim prev_root)

unfoldable pub check_path : ℕ → BlockProofMaterial → Option Text → Option ℕ → Run (Unit {0})
check_path n material none known_bytes = done tt
check_path n material (some known) known_bytes =
    let path = (path_name material.layout.path).0 in
    refuse_if (not (bytes_eq known path)) (
      proof_format_changed n known path (unwrap_or_zero known_bytes)
        (signature_size material.layout))

unfoldable pub check_size : ℕ → BlockProofMaterial → Option ℕ → Run (Unit {0})
check_size n material none = done tt
check_size n material (some known) =
    refuse_if (not (known == signature_size material.layout))
      (signature_layout_changed n known (signature_size material.layout))

unfoldable pub check_publication : ℕ → Option Bootstrap → Run (Unit {0})
check_publication n none = done tt
check_publication n (some bootstrap) = alarmed (ledger_id_publication n)

-- `map(|h| h.all_passed()).unwrap_or(false)`
abbrev pub passed_or_false : Result HintsChecks → Run Bool
passed_or_false (Result.ok checks) = done (all_passed checks)
passed_or_false (Result.err e) = done false
passed_or_false Result.panic = panicked
passed_or_false Result.stuck = unfinished

module _ ⦃hx : Hex⦄ where
  -- The four assignments at the end of `check_block`.
  unfoldable pub advance : ℕ → BlockProofMaterial → State → State
  advance n material state = record state {
    last_block = some n;
    last_root = some (hx.encode material.block_root);
    proof_path = some ((path_name material.layout.path).0);
    signature_bytes = some (signature_size material.layout);
  }

module _ ⦃hx : Hex⦄ ⦃bls : Bls⦄ ⦃s : Sha256⦄ where
  unfoldable pub check_signature : ℕ → BlockProofMaterial → Run (Unit {0})
  check_signature n material =
      let checked : Run (Unit {0}) = (do
        passed ← passed_or_false (verify_hints material.layout material.block_root)
        refuse_if (not passed) (invalid_threshold_signature n)) in
      if (path_name material.layout.path).1 then checked else done tt

  unfoldable pub check_material : ℕ → BlockProofMaterial → State → Run State
  check_material n material state = do
    _ ← check_number n material
    _ ← check_root n material state.last_root
    _ ← check_path n material state.proof_path state.signature_bytes
    _ ← check_size n material state.signature_bytes
    _ ← check_publication n material.bootstrap
    _ ← check_signature n material
    done (advance n material state)

  module _ ⦃gz : Gzip⦄ ⦃sha : Sha384⦄ ⦃pb : Prost⦄ where
    unfoldable pub check_block : ℕ → Bytes → State → Run State
    check_block n bytes state = do
      material ← or_alarm (unreadable_block n) (extract_proof_material bytes)
      check_material n material state

    -- A fetched block, or the fetch error.
    unfoldable pub check_fetched : ℕ → Decoded Bytes → State → Run State
    check_fetched n (value bytes) state = check_block n bytes state
    check_fetched n (failure e) state = alarmed (gap n e)
