-- ===== src/Block/Material/Types.antt =====
-- The types of src/block/material.rs, and the variables of its scan.
use hiero_streams_rs.Prelude.{ℕ, Option, none, Bytes, List}
use hiero_streams_rs.Hapi.{BlockHeader, BlockFooter}
use hiero_streams_rs.Block.Merkle.{StreamingTreeHasher, new_hasher}

pub data ProofPath : Type 0 where
  aggregate_schnorr wraps_compressed_proof unknown_path : ProofPath

pub record ProofLayout : Type 0 where
  pub path : ProofPath
  pub hints_verification_key : Bytes
  pub hints_signature : Bytes
  pub suffix : Bytes

pub record NodeContribution : Type 0 where
  pub node_id : ℕ
  pub weight : ℕ
  pub history_proof_key : Bytes

pub record Bootstrap : Type 0 where
  pub ledger_id : Bytes
  pub history_proof_verification_key : Bytes
  pub node_contributions : List NodeContribution

pub record BlockProofMaterial : Type 0 where
  pub block_number : ℕ
  pub block_root : Bytes
  pub previous_block_root : Bytes
  pub layout : ProofLayout
  pub bootstrap : Option Bootstrap

pub record BlockChainInfo : Type 0 where
  pub block_number : ℕ
  pub block_root : Bytes
  pub previous_block_root : Bytes

pub record ScannedBlock : Type 0 where
  pub block_number : ℕ
  pub block_root : Bytes
  pub previous_block_root : Bytes
  pub block_signature : Option Bytes
  pub bootstrap : Option Bootstrap

-- The trees of a block by the kind of the item: `input` is apart, since a witness keeps its leaves.
pub data Tree : Type 0 where
  output consensus input state_changes trace no_tree : Tree

-- The four hashers that both scans of a block keep.
pub record Trees : Type 0 where
  pub output_tree : StreamingTreeHasher
  pub consensus_tree : StreamingTreeHasher
  pub state_changes_tree : StreamingTreeHasher
  pub trace_tree : StreamingTreeHasher

abbrev pub new_trees : Trees
new_trees = record {
  output_tree = new_hasher;
  consensus_tree = new_hasher;
  state_changes_tree = new_hasher;
  trace_tree = new_hasher;
}

-- The variables of the loop of `scan_block`.
pub record Scan : Type 0 where
  pub header : Option BlockHeader
  pub footer : Option BlockFooter
  pub block_signature : Option Bytes
  pub bootstrap : Option Bootstrap
  pub input_tree : StreamingTreeHasher
  pub trees : Trees

abbrev pub new_scan : Scan
new_scan = record {
  header = none;
  footer = none;
  block_signature = none;
  bootstrap = none;
  input_tree = new_hasher;
  trees = new_trees;
}
