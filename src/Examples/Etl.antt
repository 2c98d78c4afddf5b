-- ===== src/Examples/Etl.antt =====
-- Examples for the backfill: two record files of two days, and two blocks.
use mathlib.Core.List.{Perm}
use hiero_streams_rs.Prelude.{
  ◌≡◌, ◌+◌, refl, false, none, some, List, [], ◌∷◌, if◌then◌else◌, bytes_eq, Bytes,
}
use hiero_streams_rs.Prelude.Int.{pos, ◌+ℤ◌}
use hiero_streams_rs.Text.{Text, codes, text_leb}
use hiero_streams_rs.Result.{map_result}
use hiero_streams_rs.Hapi.{Decoded, value, failure}
use hiero_streams_rs.Proto
use hiero_streams_rs.Stream.{inflate, has_gzip_magic, i32_from_be_bytes}
use hiero_streams_rs.Block.Wire.{
  read_varint, varint_loop, read_length_delimited, scan_block_items, items_loop, push_item,
  scan_item_kind, kind_loop,
}
use hiero_streams_rs.Block.Merkle.{
  root, add_leaf, fold_up, hash_leaf, hash_internal, hash_internal_single_child, wrap_left,
}
use hiero_streams_rs.Block.Material.{
  scan_block, scan_items, scan_item, finish_scan, tree_of, hash_into, hash_input, view_item, view,
  is_viewed, block_root_of, state_root_of, timestamp_bytes_of, block_chain_info,
  signed_block_signature,
}
use hiero_streams_rs.Block.Parser.{parse_block, parse_steps}
use hiero_streams_rs.Record.{
  ParsedRecordFile, parse_record_file, parsed_file, split_header, filter_map, version_or_default,
  hash_or_default,
}
use hiero_streams_rs.Record.Verify.{verify_running_hash_chain, chain_from, follows, checked_suc}
use hiero_streams_rs.Record.Verify.Chain.{IsChain}
use hiero_streams_rs.Etl.Types.{Files, done}
use hiero_streams_rs.Etl.Workers.{
  map_job, parse_all, chunk_size, chunks, join_all, join_two, flatten,
}
use hiero_streams_rs.Etl.Records
use hiero_streams_rs.Etl.Records.{Day, group_days, parse_named}
use hiero_streams_rs.Etl.Records.Groups.{all_names}
use hiero_streams_rs.Etl.Records.Chain.{run-IsChain}
use hiero_streams_rs.Etl.Blocks
use hiero_streams_rs.Etl.Blocks.{BlockFile, parse_block_file, write_days, partition_days}
use hiero_streams_rs.Etl.Blocks.Gapless.{run-Gapless, Gapless}
use hiero_streams_rs.Examples.{length_sha, stored, fixed_proto, by_number}
use hiero_streams_rs.Examples.Sentinel.{by_length, second_block, third_block}

-- The file of one byte `k` ends with the hash `k + 1`, and starts with the hash `k`.
abbrev numbered_file : Bytes → Decoded Proto.RecordStreamFile
numbered_file [] = failure "empty"
numbered_file (k ∷ _) = value (record {
  hapi_proto_version = none;
  start_object_running_hash = some (record { hash = k ∷ [] });
  record_stream_items = [];
  end_object_running_hash = some (record { hash = (k + 1) ∷ [] });
  block_number = pos k;
})

abbrev counting_proto : Proto.Proto
counting_proto = record fixed_proto { decode_record_stream_file = numbered_file }

abbrev first_day : Text
first_day = codes "2026-07-01T23.rcd"

abbrev second_day : Text
second_day = codes "2026-07-02T00.rcd"

abbrev record_files : Files
record_files = record {
  read = λ name.
      if bytes_eq name first_day
      then value (0 ∷ (0 ∷ (0 ∷ (6 ∷ (4 ∷ [])))))
      else value (0 ∷ (0 ∷ (0 ∷ (6 ∷ (5 ∷ [])))));
  write_day = λ day rows with_transfers. value tt;
}

run-IsChain_example :
    (days : List Day) × (files : List ParsedRecordFile) × (group_days
        (first_day ∷ (second_day ∷ []))
        []
      ≡ done days)
    × Perm (all_names days) (first_day ∷ (second_day ∷ []))
    × (map_job
          (parse_named ⦃gz = stored⦄ ⦃pr = counting_proto⦄ ⦃pb = by_number⦄ record_files)
          (all_names days)
        ≡ done files)
    × IsChain files
unfolding Records.run group_days Records.push_file text_leb Records.run_days parse_all chunk_size
    chunks join_all join_two flatten map_job parse_named Records.check_chain Records.check_boundary
    Records.check_day Records.last_of Records.sort_rows Records.rows_of Records.write_partition
    verify_running_hash_chain chain_from follows checked_suc ◌+ℤ◌ parse_record_file parsed_file
    split_header filter_map version_or_default hash_or_default inflate has_gzip_magic
    i32_from_be_bytes
run-IsChain_example =
    run-IsChain ⦃gz = stored⦄ ⦃pr = counting_proto⦄ ⦃pb = by_number⦄ record_files 2 false
      (first_day ∷ (second_day ∷ [])) 0 refl

abbrev block_files : Files
block_files = record {
  read = λ name. if bytes_eq name (codes "a.blk") then value third_block else value second_block;
  write_day = λ day rows with_transfers. value tt;
}

abbrev block_names : List Text
block_names = codes "a.blk" ∷ (codes "b.blk" ∷ [])

run-Gapless_example :
    (parsed : List BlockFile) × (blocks : List BlockFile) × (map_job
        (parse_block_file ⦃gz = stored⦄ ⦃sha = length_sha⦄ ⦃pb = by_length⦄ block_files)
        block_names
      ≡ done parsed)
    × Perm blocks parsed
    × Gapless blocks
    × (write_days block_files false (partition_days blocks []) ≡ done 0)
unfolding Blocks.run parse_all chunk_size chunks join_all join_two flatten map_job parse_block_file
    Blocks.block_file Blocks.check_if Blocks.check_windows Blocks.check_pair Blocks.is_gap
    Blocks.sort_blocks Blocks.insert_block write_days partition_days Blocks.push_rows parse_block
    parse_steps block_chain_info inflate has_gzip_magic scan_block_items items_loop push_item
    scan_item_kind kind_loop read_length_delimited read_varint varint_loop map_result add_leaf
    fold_up hash_leaf hash_internal hash_internal_single_child wrap_left root scan_block scan_items
    scan_item finish_scan tree_of hash_into hash_input view_item view is_viewed block_root_of
    state_root_of timestamp_bytes_of signed_block_signature
run-Gapless_example =
    run-Gapless ⦃gz = stored⦄ ⦃sha = length_sha⦄ ⦃pb = by_length⦄ block_files 2 false block_names 0
      refl
