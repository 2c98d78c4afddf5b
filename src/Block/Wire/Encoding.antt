-- ===== src/Block/Wire/Encoding.antt =====
-- The protobuf wire format of a `Block`, as its writer lays it out: base-128 varints, lowest group
-- first, and length-delimited fields. It is the reference that the scan is held against.
use hiero_streams_rs.Prelude.{
  ℕ, zero, suc, ◌+◌, ◌*◌, ◌/◌, ◌%◌, ◌<◌, ◌≤◌, List, [], ◌∷◌, ◌++◌, ltb, if◌then◌else◌, length,
  Bytes, arith, u64_mod,
}
use hiero_streams_rs.Block.Wire.{ScannedItem}

-- The groups of seven bits of `v`, for `v` below 128 ^ (k + 1).
unfoldable pub varint_groups : ℕ → ℕ → Bytes
varint_groups zero v = v ∷ []
varint_groups (suc k) v =
    let rest = varint_groups k (v / 128) in if ltb v 128 then v ∷ [] else (v % 128 + 128) ∷ rest

-- Ten groups hold every u64.
unfoldable pub encode_varint : ℕ → Bytes
encode_varint v = varint_groups 9 v

-- A length-delimited field: the tag with wire type 2, the length, the content.
unfoldable pub encode_field : ℕ → Bytes → Bytes
encode_field field content =
    encode_varint (field * 8 + 2) ++ (encode_varint (length content) ++ content)

-- A block whose items hold one oneof field each: its number and its content.
unfoldable pub encode_block : List (ℕ × Bytes) → Bytes
encode_block [] = []
encode_block ((kind, content) ∷ items) =
    encode_field 1 (encode_field kind content) ++ encode_block items

unfoldable pub scanned : ℕ × Bytes → ScannedItem
scanned (kind, content) = record { field_number = kind; item_bytes = encode_field kind content }

-- A tag with this field number fits a u64.
abbrev pub IsFieldNumber : ℕ × Bytes → Type 0
IsFieldNumber item = item.0 * 8 + 2 < u64_mod

pub length-varint_groups : (k v : ℕ) → 1 ≤ length (varint_groups k v)
unfolding varint_groups
length-varint_groups zero v = omega arith
length-varint_groups (suc k) v = ground arith
