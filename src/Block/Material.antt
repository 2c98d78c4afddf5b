-- ===== src/Block/Material.antt =====
-- src/block/material.rs: the layout of a block proof, the scan that recomputes a block's merkle root,
-- and the bootstrap publication. `Material.Inclusion` has the inclusion witness of a transaction.
mod Types
pub mod Layout
pub mod Inclusion
pub use Types.*
use hiero_streams_rs.Prelude.{
  ℕ, zero, suc, ◌+◌, ◌-◌, ◌<◌, ◌≤◌, Bool, true, false, ◌||◌, Option, none, some, List, [], ◌∷◌, map,
  ltb, ◌==◌, if◌then◌else◌, length, take, drop, replicate, Bytes,
}
use hiero_streams_rs.Result.{
  Result, ok, err, ◌>>=◌, ok_or, proof, signed_block_proof_missing, no_publication_in_block,
  no_publication_in_genesis, filtered_items_unsupported, unknown_block_item_field,
  block_header_missing, block_footer_missing,
}
use hiero_streams_rs.Stream.{Gzip, inflate}
use hiero_streams_rs.Hapi
use hiero_streams_rs.Hapi.{
  Prost, Item, BlockHeader, BlockFooter, BlockProof, LedgerIdPublication, LedgerIdNodeContribution,
  Timestamp, TransactionBody, BodyData, or_decode_error, decoded_ok,
}
use hiero_streams_rs.Block.Wire.{ScannedItem, scan_block_items, is_some}
use hiero_streams_rs.Block.Wire.Field
use hiero_streams_rs.Block.Merkle.{
  Sha384, StreamingTreeHasher, new_hasher, add_leaf, root, hash_leaf, hash_internal,
  hash_internal_single_child, hash_length,
}

abbrev pub hints_vk_length : ℕ
hints_vk_length = 1096

abbrev pub hints_sig_length : ℕ
hints_sig_length = 1632

abbrev pub fixed_prefix_length : ℕ
fixed_prefix_length = hints_vk_length + hints_sig_length

abbrev pub schnorr_suffix_length : ℕ
schnorr_suffix_length = 192

abbrev pub wraps_suffix_length : ℕ
wraps_suffix_length = 704

-- The match of `classify_layout` on the length of the suffix.
pub path_of_suffix : ℕ → ProofPath
path_of_suffix n =
    if n == schnorr_suffix_length
    then aggregate_schnorr
    else if n == wraps_suffix_length
    then wraps_compressed_proof
    else unknown_path

unfoldable pub classify_layout : Bytes → ProofLayout
classify_layout block_signature =
    let suffix = drop fixed_prefix_length block_signature in
    if ltb (length block_signature) fixed_prefix_length
    then record {
      path = unknown_path;
      hints_verification_key = [];
      hints_signature = [];
      suffix = block_signature;
    }
    else record {
      path = path_of_suffix (length suffix);
      hints_verification_key = take hints_vk_length block_signature;
      hints_signature =
          take (fixed_prefix_length - hints_vk_length) (drop hints_vk_length block_signature);
      suffix = suffix;
    }

contribution_from : LedgerIdNodeContribution → NodeContribution
contribution_from c = record {
  node_id = c.node_id;
  weight = c.weight;
  history_proof_key = c.history_proof_key;
}

publication_to_bootstrap : LedgerIdPublication → Bootstrap
publication_to_bootstrap p = record {
  ledger_id = p.ledger_id;
  history_proof_verification_key = p.history_proof_verification_key;
  node_contributions = map contribution_from p.node_contributions;
}

-- `?` on an `Option`.
abbrev pub and_then {ℓ κ} : {A : Type ℓ} {B : Type κ} → Option A → (A → Option B) → Option B
and_then none f = none
and_then (some a) f = f a

unfoldable pub tree_of : ℕ → Result Tree
tree_of f =
    if (f == Field.block_header)
      || ((f == Field.transaction_result) || (f == Field.transaction_output))
    then ok output
    else if (f == Field.event_header) || (f == Field.round_header)
    then ok consensus
    else if f == Field.signed_transaction
    then ok input
    else if f == Field.state_changes
    then ok state_changes
    else if f == Field.trace_data
    then ok trace
    else if (f == Field.block_proof) || ((f == Field.block_footer) || (f == Field.record_file))
    then ok no_tree
    else if (f == Field.filtered_single_item) || (f == Field.redacted_item)
    then err (proof filtered_items_unsupported)
    else err (proof (unknown_block_item_field f))

unfoldable pub signed_block_signature : BlockProof → Option Bytes
signed_block_signature p = elim p.proof [
  | some (Hapi.Proof.signed_block_proof s) ↦ some s
  | _ ↦ none
]

-- `if let Some(sig) = … { block_signature = Some(sig) }`
abbrev pub or_keep {ℓ} : {A : Type ℓ} → Option A → Option A → Option A
or_keep none old = old
or_keep (some new) old = some new

-- The items that `scan_block` decodes.
unfoldable pub is_viewed : ℕ → Bool
is_viewed f =
    (f == Field.block_header)
    || ((f == Field.block_footer) || ((f == Field.block_proof) || (f == Field.signed_transaction)))

-- `start_of_block_state_root_hash`, or 48 zero bytes where it is empty.
unfoldable pub state_root_of : BlockFooter → Bytes
state_root_of f = elim f.start_of_block_state_root_hash [
  | [] ↦ replicate hash_length 0
  | b ∷ bs ↦ b ∷ bs
]

module _ ⦃sha : Sha384⦄ where
  unfoldable pub hash_into : Tree → Bytes → Trees → Result Trees
  hash_into output b t = do
    h ← add_leaf t.output_tree (hash_leaf b)
    ok (record t { output_tree = h })
  hash_into consensus b t = do
    h ← add_leaf t.consensus_tree (hash_leaf b)
    ok (record t { consensus_tree = h })
  hash_into input b t = ok t
  hash_into state_changes b t = do
    h ← add_leaf t.state_changes_tree (hash_leaf b)
    ok (record t { state_changes_tree = h })
  hash_into trace b t = do h ← add_leaf t.trace_tree (hash_leaf b); ok (record t { trace_tree = h })
  hash_into no_tree b t = ok t

  unfoldable pub hash_input : Tree → Bytes → StreamingTreeHasher → Result StreamingTreeHasher
  hash_input input b t = add_leaf t (hash_leaf b)
  hash_input _ b t = ok t

module _ ⦃pb : Prost⦄ where
  pub bootstrap_from : Bytes → Option Bootstrap
  bootstrap_from signed_transaction_bytes =
      and_then (decoded_ok (pb.decode_signed_transaction signed_transaction_bytes)) λ signed.
        and_then (decoded_ok (pb.decode_transaction_body signed.body_bytes)) λ body.
          and_then body.body_data
            λ d. and_then d.ledger_id_publication λ p. some (publication_to_bootstrap p)

  unfoldable pub view : Option Item → Scan → Scan
  view (some (Hapi.Item.block_header h)) s = record s { header = some h }
  view (some (Hapi.Item.block_footer f)) s = record s { footer = some f }
  view (some (Hapi.Item.block_proof p)) s = record s {
    block_signature = or_keep (signed_block_signature p) s.block_signature;
  }
  view (some (Hapi.Item.signed_transaction tx)) s = record s {
    bootstrap = if is_some s.bootstrap then s.bootstrap else bootstrap_from tx;
  }
  view _ s = s

  unfoldable pub timestamp_bytes_of : BlockHeader → Bytes
  timestamp_bytes_of h = elim h.block_timestamp [ none ↦ [] | some t ↦ pb.encode_timestamp t ]

  unfoldable pub view_item : ScannedItem → Scan → Result Scan
  view_item item s =
      if is_viewed item.field_number
      then (do
        decoded ← or_decode_error (pb.decode_block_item item.item_bytes)
        ok (view decoded s))
      else ok s

module _ ⦃sha : Sha384⦄ ⦃pb : Prost⦄ where
  -- One round of the loop of `scan_block`.
  unfoldable pub scan_item : Scan → ScannedItem → Result Scan
  scan_item s item = do
    tree ← tree_of item.field_number
    trees ← hash_into tree item.item_bytes s.trees
    input_tree ← hash_input tree item.item_bytes s.input_tree
    view_item item (record s { trees = trees; input_tree = input_tree })

  unfoldable pub scan_items : Scan → List ScannedItem → Result Scan
  scan_items s [] = ok s
  scan_items s (item ∷ items) = do s' ← scan_item s item; scan_items s' items

  -- The fixed upper tree over the subtree roots, capped by the timestamp leaf.
  unfoldable pub block_root_of : Scan → BlockHeader → BlockFooter → Bytes
  block_root_of s header footer =
      let depth5_1 =
        hash_internal footer.previous_block_root_hash footer.root_hash_of_all_block_hashes_tree in
      let depth5_2 = hash_internal (state_root_of footer) (root s.trees.consensus_tree) in
      let depth5_3 = hash_internal (root s.input_tree) (root s.trees.output_tree) in
      let depth5_4 = hash_internal (root s.trees.state_changes_tree) (root s.trees.trace_tree) in
      let depth4_1 = hash_internal depth5_1 depth5_2 in
      let depth4_2 = hash_internal depth5_3 depth5_4 in
      let fixed_root = hash_internal_single_child (hash_internal depth4_1 depth4_2) in
      hash_internal (hash_leaf (timestamp_bytes_of header)) fixed_root

  unfoldable pub finish_scan : Scan → Result ScannedBlock
  finish_scan s = do
    header ← ok_or s.header (proof block_header_missing)
    footer ← ok_or s.footer (proof block_footer_missing)
    ok (record {
      block_number = header.number;
      block_root = block_root_of s header footer;
      previous_block_root = footer.previous_block_root_hash;
      block_signature = s.block_signature;
      bootstrap = s.bootstrap;
    })

module _ ⦃gz : Gzip⦄ ⦃sha : Sha384⦄ ⦃pb : Prost⦄ where
  unfoldable pub scan_block : Bytes → Result ScannedBlock
  scan_block bytes = do
    raw ← inflate bytes
    items ← scan_block_items raw
    s ← scan_items new_scan items
    finish_scan s

  unfoldable pub extract_proof_material : Bytes → Result BlockProofMaterial
  extract_proof_material bytes = do
    scanned ← scan_block bytes
    block_signature ← ok_or scanned.block_signature (proof signed_block_proof_missing)
    ok (record {
      block_number = scanned.block_number;
      block_root = scanned.block_root;
      previous_block_root = scanned.previous_block_root;
      layout = classify_layout block_signature;
      bootstrap = scanned.bootstrap;
    })

  unfoldable pub block_chain_info : Bytes → Result BlockChainInfo
  block_chain_info bytes = do
    scanned ← scan_block bytes
    ok (record {
      block_number = scanned.block_number;
      block_root = scanned.block_root;
      previous_block_root = scanned.previous_block_root;
    })

  pub bootstrap_from_genesis : Bytes → Result Bootstrap
  bootstrap_from_genesis genesis_bytes = do
    material ← extract_proof_material genesis_bytes
    ok_or material.bootstrap (proof no_publication_in_genesis)

  -- The caller's hint only goes into the text of the error.
  pub resolve_bootstrap : BlockProofMaterial → Option Bytes → Result Bootstrap
  resolve_bootstrap material genesis_bytes = elim material.bootstrap [
    | some b ↦ ok b
    | none ↦ (do
      bytes ← ok_or genesis_bytes (proof no_publication_in_block)
      bootstrap_from_genesis bytes)
  ]
