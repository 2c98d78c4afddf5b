-- ===== src/Block/Wire/Bounds.antt =====
-- The readers of src/block/wire.rs stay inside the slice, advance, and end on every input.
use Prim.Native.Nat.{bit_and}
use hiero_streams_rs.Prelude.{
  ℕ, zero, suc, ◌+◌, ◌*◌, ◌%◌, ◌^◌, ◌-◌, ◌≤◌, ◌<◌, ◌≡◌, ap, ◌∙◌, not, Option, none, some, List, [],
  ◌∷◌, arith, ltb, ◌==◌, length, take, drop, Bytes, u64_mod, length-drop, length-take,
}
use hiero_streams_rs.Prelude.Bits.{bit_or-lt}
use hiero_streams_rs.Result.{ok, Settles, Settles-bind, Settles-if, Settles-ok_or, >>=-eq-ok}
use hiero_streams_rs.Block.Wire.{
  varint_loop, read_varint, read_length_delimited, add_group, wire_type, field_of, is_some,
  kind_loop, scan_item_kind, push_item, items_loop, scan_block_items, ScannedItem,
}

add_group-lt : (value byte shift : ℕ) → value < u64_mod → add_group value byte shift < u64_mod
add_group-lt value byte shift h =
    bit_or-lt 64 value (bit_and byte 0x7f * 2 ^ shift % u64_mod) h (omega arith)

-- `j` bytes have been read.
varint_loop_bounds :
    (src : Bytes) (offset shift value j v next : ℕ)
    → shift ≡ 7 * j
    → j ≤ 9
    → value < u64_mod
    → varint_loop src offset shift value ≡ ok (v, next)
    → (v < u64_mod) × (offset < next) × (next ≤ offset + length src) × (next + j ≤ offset + 10)
unfolding varint_loop
varint_loop_bounds [] offset shift value j v next hs hj hv e = cc
varint_loop_bounds (b ∷ bs) offset shift value j v next hs hj hv e = ground (
  arith,
  add_group-lt value b shift hv,
  varint_loop_bounds bs (offset + 1) (shift + 7) (add_group value b shift) (j + 1) v next,
)

-- A varint that `read_varint` accepts is a u64, takes 1 to 10 bytes, and ends within the slice.
pub read_varint_bounds :
    (bytes : Bytes) (offset v next : ℕ)
    → read_varint bytes offset ≡ ok (v, next)
    → (v < u64_mod) × (offset < next) × (next ≤ length bytes) × (next ≤ offset + 10)
unfolding read_varint
read_varint_bounds bytes offset v next e =
    let b =
      varint_loop_bounds (drop offset bytes) offset 0 0 0 v next (omega arith) (omega arith)
        (omega arith) e in
    omega (arith, b, length-drop offset bytes)

varint_loop-Settles :
    (src : Bytes) (offset shift value : ℕ) → Settles (varint_loop src offset shift value)
unfolding varint_loop
varint_loop-Settles [] offset shift value = tt
varint_loop-Settles (b ∷ bs) offset shift value =
    ground (arith, varint_loop-Settles bs (offset + 1) (shift + 7) (add_group value b shift))

pub read_varint-Settles : (bytes : Bytes) (offset : ℕ) → Settles (read_varint bytes offset)
unfolding read_varint
read_varint-Settles bytes offset = varint_loop-Settles (drop offset bytes) offset 0 0

-- What a successful `read_length_delimited` has read.
pub record Frame (bytes : Bytes) (offset : ℕ) (content : Bytes) (next : ℕ) : Type 0 where
  pub start : ℕ
  pub prefix : read_varint bytes offset ≡ ok (length content, start)
  pub fits : next ≤ length bytes
  pub end_is : next ≡ start + length content
  pub content_is : content ≡ take (length content) (drop start bytes)

length_of_slice :
    (bytes : Bytes) (start count : ℕ)
    → start + count ≤ length bytes
    → length (take (start + count - start) (drop start bytes)) ≡ count
length_of_slice bytes start count h =
    omega (arith, length-take (start + count - start) (drop start bytes), length-drop start bytes)

-- A frame that `read_length_delimited` accepts is the part of the slice behind its length prefix.
pub read_length_delimited-Frame :
    (bytes : Bytes) (offset : ℕ) (content : Bytes) (next : ℕ)
    → read_length_delimited bytes offset ≡ ok (content, next)
    → Frame bytes offset content next
unfolding read_length_delimited
read_length_delimited-Frame bytes offset content next e =
    let ((count, start), r, k) = >>=-eq-ok (read_varint bytes offset) _ e in
    let parts : (start + count ≤ length bytes)
        × (content ≡ take (start + count - start) (drop start bytes))
        × (next ≡ start + count) =
      ground arith in
    let size : length content ≡ count =
      ap length parts.1 ∙ length_of_slice bytes start count parts.0 in
    let gap : start + count - start ≡ length content = omega arith in
    record {
      start = start;
      prefix = rw size r;
      fits = omega arith;
      end_is = omega arith;
      content_is = rw gap at parts.1;
    }

pub read_length_delimited_advances :
    (bytes : Bytes) (offset : ℕ) (content : Bytes) (next : ℕ)
    → read_length_delimited bytes offset ≡ ok (content, next)
    → (offset < next) × (next ≤ length bytes)
read_length_delimited_advances bytes offset content next e =
    let f = read_length_delimited-Frame bytes offset content next e in
    omega (arith, read_varint_bounds bytes offset _ _ f.prefix, f.fits, f.end_is)

pub read_length_delimited-Settles :
    (bytes : Bytes) (offset : ℕ) → Settles (read_length_delimited bytes offset)
unfolding read_length_delimited
read_length_delimited-Settles bytes offset = ground (arith, read_varint-Settles bytes offset)

kind_loop-Settles :
    (fuel : ℕ) (bytes : Bytes) (offset : ℕ) (found : Option ℕ)
    → length bytes ≤ offset + fuel
    → Settles (kind_loop fuel bytes offset found)
unfolding kind_loop
kind_loop-Settles zero bytes offset found h = ground arith
kind_loop-Settles (suc fuel) bytes offset found h =
    Settles-if (ltb offset (length bytes)) _ _
      (λ more.
        Settles-bind (read_varint bytes offset) _ (read_varint-Settles bytes offset)
          λ (tag, after) r.
            Settles-if (not (wire_type tag == 2)) _ _ (λ _. tt)
              λ _.
                Settles-bind (read_length_delimited bytes after) _
                  (read_length_delimited-Settles bytes after)
                  λ (content, next) f.
                    Settles-if (is_some found) _ _ (λ _. tt)
                      λ _. kind_loop-Settles fuel bytes next (some (field_of tag)) (
                        omega (
                          arith,
                          read_varint_bounds bytes offset tag after r,
                          read_length_delimited_advances bytes after content next f,
                        )))
      (λ _. Settles-ok_or found _)

-- `scan_item_kind` returns or fails on every input: it does not panic, and its loop ends.
pub scan_item_kind-Settles : (item_bytes : Bytes) → Settles (scan_item_kind item_bytes)
unfolding scan_item_kind
scan_item_kind-Settles item_bytes =
    kind_loop-Settles (length item_bytes) item_bytes 0 none (omega arith)

push_item-Settles :
    (field : ℕ) (item_bytes : Bytes) (items : List ScannedItem)
    → Settles (push_item field item_bytes items)
unfolding push_item
push_item-Settles field item_bytes items =
    Settles-if (field == 1) _ _
      (λ _.
        Settles-bind (scan_item_kind item_bytes) _ (scan_item_kind-Settles item_bytes) (λ _ _. tt))
      (λ _. tt)

items_loop-Settles :
    (fuel : ℕ) (bytes : Bytes) (offset : ℕ) (items : List ScannedItem)
    → length bytes ≤ offset + fuel
    → Settles (items_loop fuel bytes offset items)
unfolding items_loop
items_loop-Settles zero bytes offset items h = ground arith
items_loop-Settles (suc fuel) bytes offset items h =
    Settles-if (ltb offset (length bytes)) _ _
      (λ more.
        Settles-bind (read_varint bytes offset) _ (read_varint-Settles bytes offset)
          λ (tag, after) r.
            Settles-if (not (wire_type tag == 2)) _ _ (λ _. tt)
              λ _.
                Settles-bind (read_length_delimited bytes after) _
                  (read_length_delimited-Settles bytes after)
                  λ (content, next) f.
                    Settles-bind (push_item (field_of tag) content items) _
                      (push_item-Settles (field_of tag) content items)
                      λ items' _. items_loop-Settles fuel bytes next items' (
                        omega (
                          arith,
                          read_varint_bounds bytes offset tag after r,
                          read_length_delimited_advances bytes after content next f,
                        )))
      (λ _. tt)

-- On every byte string, well formed or not, `scan_block_items` returns its items or an error: it
-- does not panic, and its loops end.
pub scan_block_items-Settles : (block_bytes : Bytes) → Settles (scan_block_items block_bytes)
unfolding scan_block_items
scan_block_items-Settles block_bytes =
    items_loop-Settles (length block_bytes) block_bytes 0 [] (omega arith)
