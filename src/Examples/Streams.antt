-- ===== src/Examples/Streams.antt =====
-- Examples for the formats, the wire scan and the calendar.
use hiero_streams_rs.Prelude.{
  ℕ, ◌+◌, ◌≤◌, ◌<◌, ◌≡◌, refl, ◌⊎◌, ◌↔◌, true, false, some, List, [], ◌∷◌, ◌++◌, map, arith, length,
  replicate, Bytes, u64_mod,
}
use hiero_streams_rs.Prelude.Int.{pos, ◌+ℤ◌}
use hiero_streams_rs.Result.{ok, Settles}
use hiero_streams_rs.Stream.{
  inflate, detect_format, has_gzip_magic, format_of_header, max_inflated, limit_inflated,
}
use hiero_streams_rs.Stream.Detect.{detect_format-inflate}
use hiero_streams_rs.Block.Wire.{
  read_varint, varint_loop, read_length_delimited, scan_block_items, items_loop, push_item,
  scan_item_kind, kind_loop, ScannedItem,
}
use hiero_streams_rs.Block.Wire.Encoding.{
  encode_varint, varint_groups, encode_block, encode_field, scanned,
}
use hiero_streams_rs.Block.Wire.Bounds.{
  read_varint_bounds, read_length_delimited-Frame, Frame, scan_block_items-Settles,
}
use hiero_streams_rs.Block.Wire.Tiled.{scan_block_items-IsTiled, IsTiled}
use hiero_streams_rs.Block.Wire.RoundTrip.{read_varint-encode_varint}
use hiero_streams_rs.Block.Wire.ScanRoundTrip.{scan_block_items-encode_block}
use hiero_streams_rs.Block.Material.{classify_layout, aggregate_schnorr, wraps_compressed_proof}
use hiero_streams_rs.Block.Material.Layout.{classify_layout_parts}
use hiero_streams_rs.Transaction.Calendar.{civil_from_days}
use hiero_streams_rs.Transaction.Calendar.NextDay.{next_day}
use hiero_streams_rs.Transaction.Calendar.Advance.{civil_from_days-next_day}
use hiero_streams_rs.Transaction.{consensus_string, seconds_of}
use hiero_streams_rs.Transaction.Calendar.{day_from_seconds}
use hiero_streams_rs.Transaction.Calendar.DayOf.{InI64, day_of, day_of-consensus_string}
use hiero_streams_rs.Examples.{stored, stored_to_end}

abbrev gzip_of_v6 : Bytes
gzip_of_v6 = 0x1f ∷ (0x8b ∷ (0 ∷ (0 ∷ (0 ∷ (6 ∷ (9 ∷ []))))))

abbrev v6 : Bytes
v6 = 0 ∷ (0 ∷ (0 ∷ (6 ∷ (9 ∷ []))))

detect_format-inflate_example :
    (detect_format ⦃gz = stored⦄ gzip_of_v6 ≡ format_of_header v6)
    × (((has_gzip_magic gzip_of_v6 ≡ true) × (length v6 ≤ max_inflated))
        ⊎ ((has_gzip_magic gzip_of_v6 ≡ false) × (v6 ≡ gzip_of_v6)))
unfolding inflate limit_inflated has_gzip_magic stored_to_end
detect_format-inflate_example = detect_format-inflate ⦃gz = stored⦄ gzip_of_v6 v6 refl

-- 300 as a varint, behind one byte.
read_varint_bounds_example : (300 < u64_mod) × (1 < 3) × (3 ≤ 3) × (3 ≤ 11)
unfolding read_varint varint_loop
read_varint_bounds_example = read_varint_bounds (7 ∷ (0xac ∷ (2 ∷ []))) 1 300 3 refl

read_varint-encode_varint_example :
    read_varint ((7 ∷ []) ++ (encode_varint 300 ++ (5 ∷ []))) 1
    ≡ ok (300, 1 + length (encode_varint 300))
read_varint-encode_varint_example =
    read_varint-encode_varint (7 ∷ []) 300 (5 ∷ []) 1 (omega arith) refl

read_length_delimited-Frame_example : Frame (2 ∷ (8 ∷ (9 ∷ (1 ∷ [])))) 0 (8 ∷ (9 ∷ [])) 3
unfolding read_length_delimited read_varint varint_loop
read_length_delimited-Frame_example =
    read_length_delimited-Frame (2 ∷ (8 ∷ (9 ∷ (1 ∷ [])))) 0 (8 ∷ (9 ∷ [])) 3 refl

-- A tag with wire type 0.
scan_block_items-Settles_example : Settles (scan_block_items (0x08 ∷ (1 ∷ [])))
scan_block_items-Settles_example = scan_block_items-Settles (0x08 ∷ (1 ∷ []))

abbrev one_item : ScannedItem
one_item = record { field_number = 4; item_bytes = 0x22 ∷ (1 ∷ (9 ∷ [])) }

scan_block_items-IsTiled_example : IsTiled (0x0a ∷ (3 ∷ (0x22 ∷ (1 ∷ (9 ∷ []))))) 0 (one_item ∷ [])
unfolding scan_block_items items_loop push_item scan_item_kind kind_loop read_length_delimited
    read_varint varint_loop
scan_block_items-IsTiled_example =
    scan_block_items-IsTiled (0x0a ∷ (3 ∷ (0x22 ∷ (1 ∷ (9 ∷ []))))) (one_item ∷ []) refl

abbrev two_entries : List (ℕ × Bytes)
two_entries = (1, 9 ∷ []) ∷ ((4, []) ∷ [])

scan_block_items-encode_block_example :
    scan_block_items (encode_block two_entries) ≡ ok (map scanned two_entries)
unfolding encode_block encode_field encode_varint varint_groups
scan_block_items-encode_block_example =
    scan_block_items-encode_block two_entries (omega arith, (omega arith, tt)) (omega arith)

abbrev schnorr_signature : Bytes
schnorr_signature = replicate 2920 0

classify_layout_parts_example :
    ((classify_layout schnorr_signature).hints_verification_key
        ++ ((classify_layout schnorr_signature).hints_signature
            ++ (classify_layout schnorr_signature).suffix)
      ≡ schnorr_signature)
    × (((classify_layout schnorr_signature).path ≡ aggregate_schnorr)
        ↔ (length schnorr_signature ≡ 2920))
    × (((classify_layout schnorr_signature).path ≡ wraps_compressed_proof)
        ↔ (length schnorr_signature ≡ 3432))
classify_layout_parts_example = classify_layout_parts schnorr_signature

day_of-consensus_string_example :
    day_of (consensus_string (some (record { seconds = pos 86400; nanos = pos 5 })))
    ≡ day_from_seconds (pos 86400)
unfolding seconds_of InI64
day_of-consensus_string_example =
    day_of-consensus_string (some (record { seconds = pos 86400; nanos = pos 5 })) (omega arith)

-- The last day of 1969.
civil_from_days-next_day_example :
    (civil_from_days (pos 719467 +ℤ pos 1) ≡ next_day (civil_from_days (pos 719467)))
    × (civil_from_days (pos 719468) ≡ record { year = pos 1970; month = 1; day = 1 })
civil_from_days-next_day_example = civil_from_days-next_day (pos 719467)
