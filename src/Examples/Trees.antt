-- ===== src/Examples/Trees.antt =====
-- Examples for the merkle trees, the block root and the inclusion witness.
use hiero_streams_rs.Prelude.{
  ℕ, ◌≡◌, ◌≢◌, refl, sym, ap, ◌⊎◌, ◌∙◌, none, some, List, [], ◌∷◌, arith, replicate, Bytes,
  Bool-cases, inl, inr, ◌==◌,
}
use hiero_streams_rs.Prelude.Int.{pos}
use hiero_streams_rs.Result.{ok, map_result}
use hiero_streams_rs.Stream.{inflate, has_gzip_magic}
use hiero_streams_rs.Hapi.{Item, value}
use hiero_streams_rs.Block.Wire.{
  read_varint, varint_loop, read_length_delimited, scan_block_items, items_loop, push_item,
  scan_item_kind, kind_loop,
}
use hiero_streams_rs.Block.Wire.Field
use hiero_streams_rs.Block.Merkle.{
  MerkleWitness, StreamingTreeHasher, new_hasher, add_leaves, root, merkle_root, witness_for,
  fold_witness, add_leaf, fold_up, hash_leaf, hash_internal, hash_internal_single_child, wrap_left,
  witness_in, peak_bounds, peak_loop, peak_step, rposition, slice, peak_path, path_loop,
  perfect_root, perfect_loop, fold_peaks, peak_root, left,
}
use hiero_streams_rs.Block.Merkle.Roots.{merkle_root-add_leaves}
use hiero_streams_rs.Block.Merkle.Witness.{fold_witness-witness_for}
use hiero_streams_rs.Block.Merkle.Tamper.{fold_witness_binds, Collision}
use hiero_streams_rs.Block.Material.{
  ScannedBlock, scan_block, scan_items, scan_item, finish_scan, tree_of, hash_into, hash_input,
  view_item, view, is_viewed, block_root_of, state_root_of, timestamp_bytes_of,
}
use hiero_streams_rs.Block.Material.Inclusion.{
  BlockInclusionWitness, recompute_block_root, block_inclusion_witness, gather_items, gather_item,
  finish_witness, push_leaf, keep_view_item, keep_view, to_hash48, checked_state_root,
}
use hiero_streams_rs.Block.Material.Inclusion.Lockstep.{DecodesByField, field_of_item}
use hiero_streams_rs.Block.Material.Inclusion.Sound.{recompute_block_root-block_inclusion_witness}
use hiero_streams_rs.Block.Parser.{
  ParsedBlock, BlockActivity, parse_block, block_activity, total_events, activity_steps,
  activity_step, count_event, creator_of,
}
use hiero_streams_rs.Block.Parser.Pairing.{
  parse_block-Segments, transaction_of_segment, block_activity-events, events_in,
}
use hiero_streams_rs.Examples.{
  length_sha, stored, by_number, decoded_kind, item_of_kind, sample_items, sample_result,
  sample_header,
}

abbrev leaf : ℕ → Bytes
leaf n = replicate 48 n

abbrev five_leaves : List Bytes
five_leaves = leaf 1 ∷ (leaf 2 ∷ (leaf 3 ∷ (leaf 4 ∷ (leaf 5 ∷ []))))

merkle_root-add_leaves_example :
    (t : StreamingTreeHasher) × (add_leaves ⦃sha = length_sha⦄ new_hasher five_leaves ≡ ok t)
    × (merkle_root ⦃sha = length_sha⦄ five_leaves ≡ ok (root ⦃sha = length_sha⦄ t))
merkle_root-add_leaves_example = merkle_root-add_leaves ⦃sha = length_sha⦄ five_leaves (omega arith)

fold_witness-witness_for_example :
    (w : MerkleWitness) × (witness_for ⦃sha = length_sha⦄ five_leaves 2 ≡ ok (some w))
    × (merkle_root ⦃sha = length_sha⦄ five_leaves ≡ ok (fold_witness ⦃sha = length_sha⦄ (leaf 3) w))
fold_witness-witness_for_example =
    fold_witness-witness_for ⦃sha = length_sha⦄ five_leaves 2 (leaf 3) (omega arith) refl

abbrev small_witness : MerkleWitness
small_witness = record {
  siblings = (left, leaf 4) ∷ [];
  left_peaks = leaf 5 ∷ [];
  right_root = none;
}

leaves_differ : leaf 1 ≢ leaf 2
leaves_differ e = absurd (cc (ap {B = ℕ} (λ b. elim b [ [] ↦ 0 | x ∷ xs ↦ x ]) e))

fold_witness_binds_example :
    Collision ⦃sha = length_sha⦄
    ⊎ (fold_witness ⦃sha = length_sha⦄ (leaf 1) small_witness
        ≢ fold_witness ⦃sha = length_sha⦄ (leaf 2) small_witness)
fold_witness_binds_example =
    fold_witness_binds ⦃sha = length_sha⦄ small_witness (leaf 1) (leaf 2) refl leaves_differ

item_of_kind-field : (kind : ℕ) → field_of_item (item_of_kind kind) ≡ kind
item_of_kind-field kind = elim (Bool-cases (kind == Field.block_header)) [
  | inl e ↦ rw e (ground arith)
  | inr n ↦ elim (Bool-cases (kind == Field.block_footer)) [
    | inl e ↦ rw (n, e) (ground arith)
    | inr m ↦ elim (Bool-cases (kind == Field.block_proof)) [
      | inl e ↦ rw (n, m, e) (ground arith)
      | inr o ↦ rw (n, m, o) refl
    ]
  ]
]

value_injective : {a b : Item} → value (some a) ≡ value (some b) → a ≡ b
value_injective e = cc

pub by_number_decodes : DecodesByField by_number
by_number_decodes item_bytes kind item scan e =
    let same : item_of_kind kind ≡ item = value_injective (sym (ap decoded_kind scan) ∙ e) in
    ap field_of_item (sym same) ∙ item_of_kind-field kind

-- A header, one signed transaction and a footer.
abbrev block_bytes : Bytes
block_bytes =
    0x0a ∷ (2 ∷ (0x0a ∷ (0 ∷ (0x0a ∷ (3 ∷ (0x22 ∷ (1 ∷ (9 ∷ (0x0a ∷ (2 ∷ (0x62 ∷ (0 ∷ []))))))))))))

abbrev block_scanned : ScannedBlock
block_scanned = record {
  block_number = 7;
  block_root = leaf 97;
  previous_block_root = leaf 1;
  block_signature = none;
  bootstrap = none;
}

abbrev transaction_bytes : Bytes
transaction_bytes = 0x22 ∷ (1 ∷ (9 ∷ []))

abbrev witness_of_transaction : BlockInclusionWitness
witness_of_transaction = record {
  input_witness = record { siblings = []; left_peaks = []; right_root = none };
  output_root = leaf 3;
  consensus_root = leaf 1;
  state_changes_root = leaf 1;
  trace_root = leaf 1;
  state_root = leaf 0;
  previous_block_root = leaf 1;
  root_hash_of_all_block_hashes_tree = leaf 2;
  timestamp_bytes = 8 ∷ (1 ∷ []);
}

recompute_block_root-block_inclusion_witness_example :
    recompute_block_root ⦃sha = length_sha⦄ transaction_bytes witness_of_transaction
    ≡ block_scanned.block_root
unfolding inflate has_gzip_magic scan_block_items items_loop push_item scan_item_kind kind_loop
    read_length_delimited read_varint varint_loop map_result add_leaf fold_up hash_leaf
    hash_internal hash_internal_single_child wrap_left root witness_for witness_in peak_bounds
    peak_loop peak_step rposition slice peak_path path_loop perfect_root perfect_loop fold_peaks
    peak_root scan_block scan_items scan_item finish_scan tree_of hash_into hash_input view_item
    view is_viewed block_root_of state_root_of timestamp_bytes_of block_inclusion_witness
    gather_items gather_item finish_witness push_leaf keep_view_item keep_view to_hash48
    checked_state_root
recompute_block_root-block_inclusion_witness_example =
    recompute_block_root-block_inclusion_witness ⦃gz = stored⦄ ⦃sha = length_sha⦄ ⦃pb = by_number⦄
      by_number_decodes block_bytes 0 block_scanned transaction_bytes witness_of_transaction
      (omega arith) refl refl

parse_block-Segments_example :
    (block : ParsedBlock) × (parse_block ⦃gz = stored⦄ ⦃pb = by_number⦄ (1 ∷ []) ≡ ok block)
    × (block.transactions
        ≡ transaction_of_segment ⦃pb = by_number⦄ (record {
          before = some (Item.block_header sample_header) ∷ [];
          signed = 1 ∷ [];
          between = some (Item.event_header (record { creator_node_id = some (pos 3) })) ∷ [];
          outcome = sample_result;
        })
          ∷ [])
unfolding inflate has_gzip_magic
parse_block-Segments_example =
    parse_block-Segments ⦃pb = by_number⦄ ⦃gz = stored⦄ (1 ∷ []) (1 ∷ [])
      (record {
        before = some (Item.block_header sample_header) ∷ [];
        signed = 1 ∷ [];
        between = some (Item.event_header (record { creator_node_id = some (pos 3) })) ∷ [];
        outcome = sample_result;
      }
        ∷ [])
      [] refl refl (((tt, tt), (tt, tt)), tt) tt

abbrev sample_activity : BlockActivity
sample_activity = record { block_number = 7; rounds = []; events_by_node = (pos 3, 1) ∷ [] }

block_activity-events_example : total_events sample_activity.events_by_node ≡ events_in sample_items
unfolding inflate has_gzip_magic block_activity activity_steps activity_step count_event creator_of
block_activity-events_example =
    block_activity-events ⦃gz = stored⦄ ⦃pb = by_number⦄ (1 ∷ []) (1 ∷ []) sample_items
      sample_activity refl refl refl
