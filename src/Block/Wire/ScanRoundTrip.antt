-- ===== src/Block/Wire/ScanRoundTrip.antt =====
-- The scan of src/block/wire.rs reads back the items of a block from the wire format.
use hiero_streams_rs.Prelude.{
  ℕ, zero, suc, ◌+◌, ◌*◌, ◌≤◌, ◌<◌, ◌≡◌, refl, sym, ap, ◌∙◌, List, [], ◌∷◌, ◌++◌, map, append_assoc,
  append-nil, arith, length, Bytes, u64_mod, length-append, none, some, All,
}
use hiero_streams_rs.Result.{ok}
use hiero_streams_rs.Block.Wire.{
  read_varint, read_length_delimited, wire_type, field_of, kind_loop, scan_item_kind, push_item,
  items_loop, scan_block_items, ScannedItem,
}
use hiero_streams_rs.Block.Wire.Encoding.{
  encode_varint, encode_field, encode_block, scanned, IsFieldNumber, length-varint_groups,
}
use hiero_streams_rs.Block.Wire.RoundTrip.{reads_tag, reads_content}

kind_loop_done :
    (fuel : ℕ) (bytes : Bytes) (kind : ℕ)
    → kind_loop fuel bytes (length bytes) (some kind) ≡ ok kind
unfolding kind_loop
kind_loop_done zero bytes kind = ground arith
kind_loop_done (suc fuel) bytes kind = ground arith

length-encode_field :
    (field : ℕ) (content : Bytes) → 2 + length content ≤ length (encode_field field content)
unfolding encode_field encode_varint
length-encode_field field content = omega (
  arith,
  length-append (encode_varint (field * 8 + 2)) (encode_varint (length content) ++ content),
  length-append (encode_varint (length content)) content,
  length-varint_groups 9 (field * 8 + 2),
  length-varint_groups 9 (length content),
)

field_of-tag : (field : ℕ) → field_of (field * 8 + 2) ≡ field
field_of-tag field = omega arith

kind_loop_step :
    (fuel : ℕ) (bytes : Bytes) (offset tag after : ℕ) (content : Bytes) (next : ℕ)
    → offset < length bytes
    → read_varint bytes offset ≡ ok (tag, after)
    → wire_type tag ≡ 2
    → read_length_delimited bytes after ≡ ok (content, next)
    → kind_loop (suc fuel) bytes offset none ≡ kind_loop fuel bytes next (some (field_of tag))
unfolding kind_loop
kind_loop_step fuel bytes offset tag after content next h r w f = ground arith

kind_loop-encode_field :
    (fuel kind : ℕ) (content : Bytes)
    → 0 < fuel
    → kind * 8 + 2 < u64_mod
    → length (encode_field kind content) < u64_mod
    → kind_loop fuel (encode_field kind content) 0 none ≡ ok kind
kind_loop-encode_field zero kind content h hk fits = elim h [ ]
kind_loop-encode_field (suc fuel) kind content h hk fits =
    let item = encode_field kind content in
    kind_loop_step fuel item 0 (kind * 8 + 2) _ content (length item)
      (omega (arith, length-encode_field kind content))
      (rw append-nil at (reads_tag [] kind content [] hk)) (omega arith)
      (rw append-nil at (reads_content [] kind content [] (rw append-nil fits)))
    ∙ rw (field_of-tag kind) (kind_loop_done fuel item kind)

-- The kind of an item with one field is that field's number.
pub scan_item_kind-encode_field :
    (kind : ℕ) (content : Bytes)
    → kind * 8 + 2 < u64_mod
    → length (encode_field kind content) < u64_mod
    → scan_item_kind (encode_field kind content) ≡ ok kind
unfolding scan_item_kind
scan_item_kind-encode_field kind content hk fits =
    kind_loop-encode_field (length (encode_field kind content)) kind content
      (omega (arith, length-encode_field kind content)) hk fits

items_loop_step :
    (fuel : ℕ) (bytes : Bytes) (offset tag after : ℕ) (content : Bytes) (next : ℕ)
    (items items' : List ScannedItem)
    → offset < length bytes
    → read_varint bytes offset ≡ ok (tag, after)
    → wire_type tag ≡ 2
    → read_length_delimited bytes after ≡ ok (content, next)
    → push_item (field_of tag) content items ≡ ok items'
    → items_loop (suc fuel) bytes offset items ≡ items_loop fuel bytes next items'
unfolding items_loop
items_loop_step fuel bytes offset tag after content next items items' h r w f p = ground arith

push_item-encode_field :
    (kind : ℕ) (content : Bytes) (items : List ScannedItem)
    → kind * 8 + 2 < u64_mod
    → length (encode_field kind content) < u64_mod
    → push_item (field_of (1 * 8 + 2)) (encode_field kind content) items
      ≡ ok (items ++ (scanned (kind, content) ∷ []))
unfolding push_item scanned
push_item-encode_field kind content items hk fits =
    ground (arith, scan_item_kind-encode_field kind content hk fits)

items_loop_done :
    (fuel : ℕ) (bytes : Bytes) (items : List ScannedItem)
    → items_loop fuel bytes (length bytes) items ≡ ok items
unfolding items_loop
items_loop_done zero bytes items = ground arith
items_loop_done (suc fuel) bytes items = ground arith

block_not_empty :
    (kind : ℕ) (content rest : Bytes)
    → ¬ (length (encode_field 1 (encode_field kind content) ++ rest) ≤ 0)
block_not_empty kind content rest h = omega (
  arith,
  length-append (encode_field 1 (encode_field kind content)) rest,
  length-encode_field 1 (encode_field kind content),
)

-- `front` is what the loop has passed.
items_loop-encode_block :
    (entries : List (ℕ × Bytes)) (fuel : ℕ) (front : Bytes) (items : List ScannedItem)
    → All IsFieldNumber entries
    → length (front ++ encode_block entries) < u64_mod
    → length (encode_block entries) ≤ fuel
    → items_loop fuel (front ++ encode_block entries) (length front) items
      ≡ ok (items ++ map scanned entries)
unfolding encode_block
items_loop-encode_block [] fuel front items fields fits room =
    rw (append-nil, append-nil) (items_loop_done fuel front items)
items_loop-encode_block ((kind, content) ∷ entries) zero front items fields fits room =
    absurd (block_not_empty kind content (encode_block entries) room)
items_loop-encode_block ((kind, content) ∷ entries) (suc fuel) front items (hk, fields) fits room =
    let item = encode_field kind content in
    let frame = encode_field 1 item in
    let rest = encode_block entries in
    let sizes : length (front ++ (frame ++ rest)) ≡ length front + (length frame + length rest) =
      omega (arith, length-append front (frame ++ rest), length-append frame rest) in
    items_loop_step fuel (front ++ (frame ++ rest)) (length front) (1 * 8 + 2) _ item
      (length (front ++ frame)) items (items ++ (scanned (kind, content) ∷ []))
      (omega (arith, sizes, length-encode_field 1 item)) (reads_tag front 1 item rest (omega arith))
      refl (reads_content front 1 item rest fits)
      (push_item-encode_field kind content items hk
        (omega (arith, sizes, length-encode_field 1 item)))
    ∙ rw (sym (append_assoc front frame rest)) (
        items_loop-encode_block entries fuel (front ++ frame)
          (items ++ (scanned (kind, content) ∷ [])) fields (rw (append_assoc front frame rest) fits)
          (omega (arith, length-append frame rest, length-encode_field 1 item))
        ∙ ap ok (append_assoc items (scanned (kind, content) ∷ []) (map scanned entries)))

-- On the wire format of items with one field each, shorter than 2 ^ 64 bytes, `scan_block_items`
-- returns for each item, in order, the number of its field and its exact bytes.
pub scan_block_items-encode_block :
    (entries : List (ℕ × Bytes))
    → All IsFieldNumber entries
    → length (encode_block entries) < u64_mod
    → scan_block_items (encode_block entries) ≡ ok (map scanned entries)
unfolding scan_block_items
scan_block_items-encode_block entries fields fits =
    items_loop-encode_block entries (length (encode_block entries)) [] [] fields fits (omega arith)
