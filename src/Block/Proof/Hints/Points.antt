-- ===== src/Block/Proof/Hints/Points.antt =====
-- src/block/proof/hints.rs: points in the ZCash convention, read uncompressed and written compressed.
use Prim.Native.Nat.{bit_or}
use hiero_streams_rs.Prelude.{
  ℕ, ◌/◌, Bool, ◌&&◌, ◌||◌, not, [], ◌∷◌, ◌++◌, reverse, ltb, if◌then◌else◌, take, drop, replicate,
  Bytes,
}
use hiero_streams_rs.Prelude.Encode.{be_bytes}
use hiero_streams_rs.Result.{
  Result, ok, err, ◌>>=◌, proof, malformed_fq, g1_outside_subgroup, g2_outside_subgroup,
}
use hiero_streams_rs.Hapi.{value, failure}
use hiero_streams_rs.Block.Proof.Curves.{Bls}

-- `bytes[from..from + count]`, of a slice that is long enough.
abbrev pub part : ℕ → ℕ → Bytes → Bytes
part from count b = take count (drop from b)

abbrev pub flag_compressed : ℕ
flag_compressed = 0x80

abbrev pub flag_infinity : ℕ
flag_infinity = 0x40

abbrev pub flag_y_negative : ℕ
flag_y_negative = 0x20

-- `buf[0] |= flag`
unfoldable pub set_flag : ℕ → Bytes → Bytes
set_flag flag [] = []
set_flag flag (b ∷ bs) = bit_or b flag ∷ bs

unfoldable pub set_flag_if : Bool → ℕ → Bytes → Bytes
set_flag_if c flag b = if c then set_flag flag b else b

module _ ⦃bls : Bls⦄ where
  unfoldable pub fq_from_be : Bytes → Result bls.Fq
  fq_from_be b = elim (bls.fq_deserialize (reverse b)) [
    | value x ↦ ok x
    | failure e ↦ err (proof (malformed_fq e))
  ]

  unfoldable pub checked_g1 : bls.Fq → bls.Fq → Result bls.G1
  checked_g1 x y =
      let point = bls.g1_new_unchecked x y in
      if bls.fq_is_zero x && bls.fq_is_zero y
      then ok bls.g1_identity
      else if not (bls.g1_is_on_curve point) || not (bls.g1_in_subgroup point)
      then err (proof g1_outside_subgroup)
      else ok point

  unfoldable pub read_g1_uncompressed : Bytes → Result bls.G1
  read_g1_uncompressed b = do
    x ← fq_from_be (part 0 48 b)
    y ← fq_from_be (part 48 48 b)
    checked_g1 x y

  unfoldable pub checked_g2 : bls.Fq → bls.Fq → bls.Fq → bls.Fq → Result bls.G2
  checked_g2 x_c0 x_c1 y_c0 y_c1 =
      let point = bls.g2_new_unchecked x_c0 x_c1 y_c0 y_c1 in
      if bls.fq_is_zero x_c0
        && (bls.fq_is_zero x_c1 && (bls.fq_is_zero y_c0 && bls.fq_is_zero y_c1))
      then ok bls.g2_identity
      else if not (bls.g2_is_on_curve point) || not (bls.g2_in_subgroup point)
      then err (proof g2_outside_subgroup)
      else ok point

  unfoldable pub read_g2_uncompressed : Bytes → Result bls.G2
  read_g2_uncompressed b = do
    x_c1 ← fq_from_be (part 0 48 b)
    x_c0 ← fq_from_be (part 48 48 b)
    y_c1 ← fq_from_be (part 96 48 b)
    y_c0 ← fq_from_be (part 144 48 b)
    checked_g2 x_c0 x_c1 y_c0 y_c1

  unfoldable pub fq_to_be48 : bls.Fq → Bytes
  fq_to_be48 v = be_bytes 48 (bls.fq_into_bigint v)

  -- `y > (p-1)/2`, with the odd modulus halved downwards.
  unfoldable pub fq_is_negative : bls.Fq → Bool
  fq_is_negative v = ltb (bls.fq_modulus / 2) (bls.fq_into_bigint v)

  unfoldable pub compress_g1 : bls.G1 → Bytes
  compress_g1 point =
      if bls.g1_is_zero point
      then bit_or flag_compressed flag_infinity ∷ replicate 47 0
      else set_flag_if (fq_is_negative (bls.g1_y point)) flag_y_negative
          (set_flag flag_compressed (fq_to_be48 (bls.g1_x point)))

  unfoldable pub y_negative : bls.G2 → Bool
  y_negative point =
      if bls.fq_is_zero (bls.g2_y_c1 point)
      then fq_is_negative (bls.g2_y_c0 point)
      else fq_is_negative (bls.g2_y_c1 point)

  unfoldable pub compress_g2 : bls.G2 → Bytes
  compress_g2 point =
      if bls.g2_is_zero point
      then bit_or flag_compressed flag_infinity ∷ replicate 95 0
      else set_flag_if (y_negative point) flag_y_negative (
          set_flag flag_compressed
            (fq_to_be48 (bls.g2_x_c1 point) ++ fq_to_be48 (bls.g2_x_c0 point)))
