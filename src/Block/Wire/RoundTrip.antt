-- ===== src/Block/Wire/RoundTrip.antt =====
-- The readers of src/block/wire.rs read back a varint and a field from the wire format.
use native.Mathlib.Nat.{div-add-mod}
use native.Mathlib.Numerals.{towards_suc}
use hiero_streams_rs.Prelude.{
  ℕ, zero, suc, ◌+◌, ◌*◌, ◌/◌, ◌%◌, ◌^◌, ◌-◌, ◌≤◌, ◌<◌, ◌≡◌, refl, sym, ap, ◌∙◌, ◌∷◌, ◌++◌,
  append_assoc, arith, length, drop, Bytes, u64_mod, length-append, drop-length_append,
  take-length_append,
}
use hiero_streams_rs.Prelude.Bits.{bit_or-shifted, low_bits, top_bit}
use hiero_streams_rs.Result.{ok}
use hiero_streams_rs.Block.Wire.{varint_loop, read_varint, read_length_delimited, add_group}
use hiero_streams_rs.Block.Wire.Encoding.{varint_groups, encode_varint, encode_field}

-- One group of seven bits joins the value without a carry.
add_group-eq-add :
    (value b shift : ℕ)
    → b < 256
    → value < 2 ^ shift
    → value + b % 128 * 2 ^ shift < u64_mod
    → add_group value b shift ≡ value + b % 128 * 2 ^ shift
add_group-eq-add value b shift hb hv fits =
    let e : b % 128 * 2 ^ shift % u64_mod ≡ b % 128 * 2 ^ shift = omega arith in
    rw (low_bits b hb) (rw e (bit_or-shifted shift value (b % 128) hv))

power_seven : (s : ℕ) → 2 ^ (s + 7) ≡ 128 * 2 ^ s
power_seven s = simp towards_suc (omega arith)

group_fits : (value g s : ℕ) → value < 2 ^ s → g < 128 → value + g * 2 ^ s < 2 ^ (s + 7)
group_fits value g s hv hg = grind (arith, power_seven s)

split_value : (w s : ℕ) → w * 2 ^ s ≡ w % 128 * 2 ^ s + w / 128 * 2 ^ (s + 7)
split_value w s = omega (
  arith,
  ap (λ (t : ℕ). t * 2 ^ s) (div-add-mod w 128),
  ap (λ (t : ℕ). w / 128 * t) (power_seven s),
)

last_group :
    (w offset shift value : ℕ) (rest : Bytes)
    → w < 128
    → value < 2 ^ shift
    → value + w * 2 ^ shift < u64_mod
    → varint_loop (w ∷ rest) offset shift value ≡ ok (value + w * 2 ^ shift, offset + 1)
unfolding varint_loop
last_group w offset shift value rest hw hv fits =
    let e : w % 128 ≡ w = omega arith in
    ground (arith, top_bit w, add_group-eq-add value w shift, e)

inner_group :
    (g offset shift value : ℕ) (rest : Bytes)
    → g < 128
    → shift + 7 ≤ 63
    → value < 2 ^ shift
    → value + g * 2 ^ shift < u64_mod
    → varint_loop ((g + 128) ∷ rest) offset shift value
      ≡ varint_loop rest (offset + 1) (shift + 7) (value + g * 2 ^ shift)
unfolding varint_loop
inner_group g offset shift value rest hg hs hv fits =
    let e : (g + 128) % 128 ≡ g = omega arith in
    ground
      (arith, top_bit (g + 128), rw e at (add_group-eq-add value (g + 128) shift (omega arith) hv))

-- `w` is what is still to be read; it counts from bit `shift` on.
varint_loop-groups :
    (k w offset shift value : ℕ) (rest : Bytes)
    → w < 128 ^ suc k
    → shift + 7 * k ≤ 63
    → value < 2 ^ shift
    → value + w * 2 ^ shift < u64_mod
    → varint_loop (varint_groups k w ++ rest) offset shift value
      ≡ ok (value + w * 2 ^ shift, offset + length (varint_groups k w))
unfolding varint_groups
varint_loop-groups zero w offset shift value rest hw hs hv fits =
    last_group w offset shift value rest hw hv fits
varint_loop-groups (suc k) w offset shift value rest hw hs hv fits = ground (
  arith,
  last_group w offset shift value rest,
  split_value w shift,
  group_fits value (w % 128) shift hv (omega arith),
  inner_group (w % 128) offset shift value (varint_groups k (w / 128) ++ rest),
  varint_loop-groups k (w / 128) (offset + 1) (shift + 7) (value + w % 128 * 2 ^ shift) rest
      (omega arith),
)

value_one : (v : ℕ) → 0 + v * 2 ^ 0 ≡ v
value_one v = omega arith

-- `read_varint` reads back any u64 that stands at the offset, and stops behind it.
pub read_varint-encode_varint :
    (front : Bytes) (v : ℕ) (rest : Bytes) (offset : ℕ)
    → v < u64_mod
    → offset ≡ length front
    → read_varint (front ++ (encode_varint v ++ rest)) offset
      ≡ ok (v, offset + length (encode_varint v))
unfolding read_varint encode_varint
read_varint-encode_varint front v rest offset h e =
    rw (drop-length_append front (varint_groups 9 v ++ rest) offset e) (
      varint_loop-groups 9 v offset 0 0 rest (omega arith) (omega arith) (omega arith) (omega arith)
      ∙ simp value_one (unfold varint_groups in refl))

read_length_delimited-encode :
    (front content rest : Bytes) (offset : ℕ)
    → length (front ++ (encode_varint (length content) ++ (content ++ rest))) < u64_mod
    → offset ≡ length front
    → read_length_delimited (front ++ (encode_varint (length content) ++ (content ++ rest))) offset
      ≡ ok (content, offset + length (encode_varint (length content)) + length content)
unfolding read_length_delimited
read_length_delimited-encode front content rest offset fits e =
    let size = encode_varint (length content) in
    let total : length (front ++ (size ++ (content ++ rest)))
        ≡ length front + (length size + (length content + length rest)) =
      omega (
        arith,
        length-append front (size ++ (content ++ rest)),
        length-append size (content ++ rest),
        length-append content rest,
      ) in
    let start = offset + length size in
    let gap : start + length content - start ≡ length content = omega arith in
    let behind : drop start (front ++ (size ++ (content ++ rest))) ≡ content ++ rest =
      rw (sym (append_assoc front size (content ++ rest))) (
        drop-length_append (front ++ size) (content ++ rest) start
          (omega (arith, length-append front size))) in
    rw (read_varint-encode_varint front (length content) (content ++ rest) offset (omega arith) e)
      (ground (arith, gap, behind, take-length_append content rest (length content) refl))

-- One field that stands behind `front` and before `rest`.
module _ (front : Bytes) (field : ℕ) (content rest : Bytes) where
  abbrev pub tag_bytes : Bytes
  tag_bytes = encode_varint (field * 8 + 2)

  pub reads_tag :
      field * 8 + 2 < u64_mod
      → read_varint (front ++ (encode_field field content ++ rest)) (length front)
        ≡ ok (field * 8 + 2, length (front ++ tag_bytes))
  unfolding encode_field
  reads_tag h = rw (append_assoc tag_bytes (encode_varint (length content) ++ content) rest) (
      read_varint-encode_varint front (field * 8 + 2) _ (length front) h refl
      ∙ ap (λ (t : ℕ). ok (field * 8 + 2, t)) (sym (length-append front tag_bytes)))

  pub reads_content :
      length (front ++ (encode_field field content ++ rest)) < u64_mod
      → read_length_delimited
          (front ++ (encode_field field content ++ rest))
          (length (front ++ tag_bytes))
        ≡ ok (content, length (front ++ encode_field field content))
  unfolding encode_field
  reads_content fits =
      let size = encode_varint (length content) in
      let shape : front ++ ((tag_bytes ++ (size ++ content)) ++ rest)
          ≡ (front ++ tag_bytes) ++ (size ++ (content ++ rest)) =
        simp append_assoc in
      let here : length (front ++ tag_bytes) + length size + length content
          ≡ length (front ++ (tag_bytes ++ (size ++ content))) =
        omega (
          arith,
          length-append front tag_bytes,
          length-append front (tag_bytes ++ (size ++ content)),
          length-append tag_bytes (size ++ content),
          length-append size content,
        ) in
      rw shape (
        read_length_delimited-encode (front ++ tag_bytes) content rest _ (rw shape at fits) refl
        ∙ ap (λ (t : ℕ). ok (content, t)) here)
