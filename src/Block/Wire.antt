-- ===== src/Block/Wire.antt =====
-- src/block/wire.rs: the shallow scan of a `Block` message. A byte slice is a list of numbers below
-- 256, an offset is a position in it, and the 64-bit words keep their wrap-around. A loop that
-- advances an offset is a recursion on fuel, `stuck` when that runs out.
pub mod Field
pub mod Bounds
pub mod Encoding
pub mod RoundTrip
pub mod ScanRoundTrip
pub mod Scanned
pub mod Tiled
use Prim.Native.Nat.{bit_and, bit_or}
use hiero_streams_rs.Prelude.{
  ℕ, zero, suc, ◌+◌, ◌*◌, ◌/◌, ◌%◌, ◌^◌, ◌-◌, Bool, not, Option, none, some, List, [], ◌∷◌, ◌++◌,
  ltb, leb, ◌==◌, if◌then◌else◌, length, take, drop, Bytes, u64_mod,
}
use hiero_streams_rs.Result.{
  Result, ok, err, stuck, ◌>>=◌, ok_or, proof, truncated_varint, varint_exceeds_64_bits,
  length_overflow, field_exceeds_available_bytes, unsupported_block_wire_type,
  unsupported_block_item_wire_type, multiple_oneof_fields, empty_block_item,
}

pub record ScannedItem : Type 0 where
  pub field_number : ℕ
  pub item_bytes : Bytes

-- `value |= u64::from(byte & 0x7f) << shift`
abbrev pub add_group : ℕ → ℕ → ℕ → ℕ
add_group value byte shift = bit_or value (bit_and byte 0x7f * 2 ^ shift % u64_mod)

-- The loop of `read_varint`: the list is what lies at `offset` and behind it.
unfoldable pub varint_loop : Bytes → ℕ → ℕ → ℕ → Result (ℕ × ℕ)
varint_loop [] offset shift value = err (proof truncated_varint)
varint_loop (byte ∷ rest) offset shift value =
    let value' = add_group value byte shift in
    let more = varint_loop rest (offset + 1) (shift + 7) value' in
    if bit_and byte 0x80 == 0
    then ok (value', offset + 1)
    else if ltb 63 (shift + 7)
    then err (proof varint_exceeds_64_bits)
    else more

unfoldable pub read_varint : Bytes → ℕ → Result (ℕ × ℕ)
read_varint bytes offset = varint_loop (drop offset bytes) offset 0 0

-- `usize::try_from` of a u64 does not fail on a 64-bit target; the sum is checked.
unfoldable pub read_length_delimited : Bytes → ℕ → Result (Bytes × ℕ)
read_length_delimited bytes offset = do
  (count, start) ← read_varint bytes offset
  let end = start + count
  if leb u64_mod end
      then err (proof length_overflow)
      else if ltb (length bytes) end
      then err (proof field_exceeds_available_bytes)
      else ok (take (end - start) (drop start bytes), end)

abbrev pub wire_type : ℕ → ℕ
wire_type tag = tag % 8

abbrev pub field_of : ℕ → ℕ
field_of tag = tag / 8

-- `found.replace(field_number).is_some()`
abbrev pub is_some {ℓ} : {A : Type ℓ} → Option A → Bool
is_some none = Bool.false
is_some (some a) = Bool.true

unfoldable pub kind_loop : ℕ → Bytes → ℕ → Option ℕ → Result ℕ
kind_loop zero bytes offset found =
    if ltb offset (length bytes) then stuck else ok_or found (proof empty_block_item)
kind_loop (suc fuel) bytes offset found =
    let round : Result ℕ = (do
      (tag, after_tag) ← read_varint bytes offset
      let rest = (do
        (_, next) ← read_length_delimited bytes after_tag
        let more = kind_loop fuel bytes next (some (field_of tag))
        if is_some found then err (proof multiple_oneof_fields) else more)
      if not (wire_type tag == 2)
          then err (proof (unsupported_block_item_wire_type (wire_type tag) (field_of tag)))
          else rest) in
    if ltb offset (length bytes) then round else ok_or found (proof empty_block_item)

-- Each round passes a byte at least, so that `length` rounds are enough.
unfoldable pub scan_item_kind : Bytes → Result ℕ
scan_item_kind item_bytes = kind_loop (length item_bytes) item_bytes 0 none

-- The items of one round: those found so far, and the frame's content if its field is 1.
unfoldable pub push_item : ℕ → Bytes → List ScannedItem → Result (List ScannedItem)
push_item field item_bytes items =
    if field == 1
    then (do
      kind ← scan_item_kind item_bytes
      ok (items ++ (record { field_number = kind; item_bytes = item_bytes } ∷ [])))
    else ok items

unfoldable pub items_loop : ℕ → Bytes → ℕ → List ScannedItem → Result (List ScannedItem)
items_loop zero bytes offset items = if ltb offset (length bytes) then stuck else ok items
items_loop (suc fuel) bytes offset items =
    let round : Result (List ScannedItem) = (do
      (tag, after_tag) ← read_varint bytes offset
      let rest = (do
        (item_bytes, next) ← read_length_delimited bytes after_tag
        items' ← push_item (field_of tag) item_bytes items
        items_loop fuel bytes next items')
      if not (wire_type tag == 2)
          then err (proof (unsupported_block_wire_type (wire_type tag) (field_of tag)))
          else rest) in
    if ltb offset (length bytes) then round else ok items

unfoldable pub scan_block_items : Bytes → Result (List ScannedItem)
scan_block_items block_bytes = items_loop (length block_bytes) block_bytes 0 []
