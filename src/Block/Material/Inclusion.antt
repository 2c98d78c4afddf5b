-- ===== src/Block/Material/Inclusion.antt =====
-- src/block/material.rs, the inclusion witness of one signed transaction: `block_inclusion_witness`
-- and `recompute_block_root`.
pub mod Lockstep
pub mod Loop
pub mod Sound
pub mod Binds
use hiero_streams_rs.Prelude.{
  ℕ, ◌||◌, Bool, Option, none, some, List, [], ◌∷◌, ◌++◌, ◌==◌, if◌then◌else◌, length, get_elem?,
  replicate, Bytes,
}
use hiero_streams_rs.Result.{
  Result, ok, err, ◌>>=◌, ok_or, expect, proof, block_header_missing, block_footer_missing,
  bad_hash_length, transaction_index_out_of_range,
}
use hiero_streams_rs.Stream.{Gzip, inflate}
use hiero_streams_rs.Hapi
use hiero_streams_rs.Hapi.{Prost, Item, BlockHeader, BlockFooter, or_decode_error}
use hiero_streams_rs.Block.Wire.{ScannedItem, scan_block_items}
use hiero_streams_rs.Block.Wire.Field
use hiero_streams_rs.Block.Merkle.{
  Sha384, MerkleWitness, root, hash_leaf, hash_internal, hash_internal_single_child, hash_length,
  witness_for, fold_witness,
}
use hiero_streams_rs.Block.Material.{
  Tree, output, consensus, input, state_changes, trace, no_tree, tree_of, Trees, new_trees,
  hash_into, timestamp_bytes_of,
}

pub record BlockInclusionWitness : Type 0 where
  pub input_witness : MerkleWitness
  pub output_root : Bytes
  pub consensus_root : Bytes
  pub state_changes_root : Bytes
  pub trace_root : Bytes
  pub state_root : Bytes
  pub previous_block_root : Bytes
  pub root_hash_of_all_block_hashes_tree : Bytes
  pub timestamp_bytes : Bytes

-- The variables of the loop of `block_inclusion_witness`.
pub record Gathered : Type 0 where
  pub header : Option BlockHeader
  pub footer : Option BlockFooter
  pub input_leaves : List Bytes
  pub input_item_bytes : List Bytes
  pub trees : Trees

abbrev pub new_gathered : Gathered
new_gathered = record {
  header = none;
  footer = none;
  input_leaves = [];
  input_item_bytes = [];
  trees = new_trees;
}

unfoldable pub to_hash48 : Bytes → Result Bytes
to_hash48 bytes =
    if length bytes == hash_length then ok bytes else err (proof (bad_hash_length (length bytes)))

-- The state root, which must be 48 bytes or empty here.
unfoldable pub checked_state_root : BlockFooter → Result Bytes
checked_state_root f = elim f.start_of_block_state_root_hash [
  | [] ↦ ok (replicate hash_length 0)
  | b ∷ bs ↦ to_hash48 (b ∷ bs)
]

unfoldable pub keep_view : Option Item → Gathered → Gathered
keep_view (some (Hapi.Item.block_header h)) g = record g { header = some h }
keep_view (some (Hapi.Item.block_footer f)) g = record g { footer = some f }
keep_view _ g = g

module _ ⦃sha : Sha384⦄ where
  unfoldable pub push_leaf : Tree → Bytes → Gathered → Gathered
  push_leaf input b g = record g {
    input_leaves = g.input_leaves ++ (hash_leaf b ∷ []);
    input_item_bytes = g.input_item_bytes ++ (b ∷ []);
  }
  push_leaf _ b g = g

module _ ⦃pb : Prost⦄ where
  unfoldable pub keep_view_item : ScannedItem → Gathered → Result Gathered
  keep_view_item item g =
      if (item.field_number == Field.block_header) || (item.field_number == Field.block_footer)
      then (do
        decoded ← or_decode_error (pb.decode_block_item item.item_bytes)
        ok (keep_view decoded g))
      else ok g

module _ ⦃sha : Sha384⦄ ⦃pb : Prost⦄ where
  -- One round of the loop of `block_inclusion_witness`.
  unfoldable pub gather_item : Gathered → ScannedItem → Result Gathered
  gather_item g item = do
    tree ← tree_of item.field_number
    trees ← hash_into tree item.item_bytes g.trees
    keep_view_item item (push_leaf tree item.item_bytes (record g { trees = trees }))

  unfoldable pub gather_items : Gathered → List ScannedItem → Result Gathered
  gather_items g [] = ok g
  gather_items g (item ∷ items) = do g' ← gather_item g item; gather_items g' items

  unfoldable pub finish_witness : Gathered → ℕ → Result (Bytes × BlockInclusionWitness)
  finish_witness g transaction_index = do
    header ← ok_or g.header (proof block_header_missing)
    footer ← ok_or g.footer (proof block_footer_missing)
    tx_bytes ←
        ok_or (get_elem? g.input_item_bytes transaction_index)
          (proof (transaction_index_out_of_range transaction_index (length g.input_item_bytes)))
    found ← witness_for g.input_leaves transaction_index
    input_witness ← expect found
    state_root ← checked_state_root footer
    previous_block_root ← to_hash48 footer.previous_block_root_hash
    all_hashes_root ← to_hash48 footer.root_hash_of_all_block_hashes_tree
    ok (
      tx_bytes,
      record {
        input_witness = input_witness;
        output_root = root g.trees.output_tree;
        consensus_root = root g.trees.consensus_tree;
        state_changes_root = root g.trees.state_changes_tree;
        trace_root = root g.trees.trace_tree;
        state_root = state_root;
        previous_block_root = previous_block_root;
        root_hash_of_all_block_hashes_tree = all_hashes_root;
        timestamp_bytes = timestamp_bytes_of header;
      },
    )

module _ ⦃gz : Gzip⦄ ⦃sha : Sha384⦄ ⦃pb : Prost⦄ where
  unfoldable pub block_inclusion_witness : Bytes → ℕ → Result (Bytes × BlockInclusionWitness)
  block_inclusion_witness bytes transaction_index = do
    raw ← inflate bytes
    items ← scan_block_items raw
    g ← gather_items new_gathered items
    finish_witness g transaction_index

module _ ⦃sha : Sha384⦄ where
  unfoldable pub recompute_block_root : Bytes → BlockInclusionWitness → Bytes
  recompute_block_root tx_bytes w =
      let input_root = fold_witness (hash_leaf tx_bytes) w.input_witness in
      let depth5_1 = hash_internal w.previous_block_root w.root_hash_of_all_block_hashes_tree in
      let depth5_2 = hash_internal w.state_root w.consensus_root in
      let depth5_3 = hash_internal input_root w.output_root in
      let depth5_4 = hash_internal w.state_changes_root w.trace_root in
      let depth4_1 = hash_internal depth5_1 depth5_2 in
      let depth4_2 = hash_internal depth5_3 depth5_4 in
      let fixed_root = hash_internal_single_child (hash_internal depth4_1 depth4_2) in
      hash_internal (hash_leaf w.timestamp_bytes) fixed_root
