-- ===== src/Block/Proof/Wraps/Limbs.antt =====
-- src/block/proof/wraps.rs: a coordinate as five limbs of 55 bits, the lowest first.
use Prim.Native.Nat.{bit_or}
use hiero_streams_rs.Prelude.{
  ℕ, zero, suc, ◌+◌, ◌*◌, ◌/◌, ◌%◌, ◌^◌, Option, none, some, List, [], ◌∷◌, ◌++◌, map, ◌==◌,
  if◌then◌else◌, get_elem?, Bytes,
}
use hiero_streams_rs.Prelude.Encode.{le_bytes}
use hiero_streams_rs.Block.Proof.Curves.{Bn254}

abbrev pub bits_per_limb : ℕ
bits_per_limb = 55

-- `get(i).copied().unwrap_or(0)`
unfoldable pub byte_at : Bytes → ℕ → ℕ
byte_at bytes i = elim (get_elem? bytes i) [ none ↦ 0 | some b ↦ b ]

-- `byte >> (bit_index % 8) & 1`
unfoldable pub bit_at : Bytes → ℕ → ℕ
bit_at bytes bit_index = byte_at bytes (bit_index / 8) / 2 ^ (bit_index % 8) % 2

-- The inner loop from `bit`, for `count` more bits of the limb that starts at bit `start`.
unfoldable pub limb_bits : Bytes → ℕ → ℕ → ℕ → ℕ → ℕ
limb_bits bytes start zero bit value = value
limb_bits bytes start (suc count) bit value =
    limb_bits bytes start count (suc bit)
      (if bit_at bytes (start + bit) == 1 then bit_or value (2 ^ bit) else value)

unfoldable pub limb : Bytes → ℕ → ℕ
limb bytes i = limb_bits bytes (i * bits_per_limb) bits_per_limb 0 0

-- The five values before `Fr::from`.
unfoldable pub limbs_of : Bytes → List ℕ
limbs_of bytes = map (limb bytes) (0 ∷ (1 ∷ (2 ∷ (3 ∷ (4 ∷ [])))))

module _ ⦃bn : Bn254⦄ where
  unfoldable pub fq_to_limbs : bn.Fq → List bn.Fr
  fq_to_limbs v = map bn.fr_from_u64 (limbs_of (le_bytes 32 (bn.fq_into_bigint v)))

  unfoldable pub xy_or_zero : Option (bn.Fq × bn.Fq) → bn.Fq × bn.Fq
  xy_or_zero none = (bn.fq_zero, bn.fq_zero)
  xy_or_zero (some xy) = xy

  unfoldable pub g1_to_nonnative : bn.G1 → List bn.Fr
  g1_to_nonnative point = let (x, y) = xy_or_zero (bn.g1_xy point) in fq_to_limbs x ++ fq_to_limbs y
