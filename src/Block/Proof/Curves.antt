-- ===== src/Block/Proof/Curves.antt =====
-- What src/block/proof uses of the arkworks crates, and of the `sha2` and `blake2` crates.
use hiero_streams_rs.Prelude.{ℕ, ◌≡◌, Bool, Option, List, Bytes, length}
use hiero_streams_rs.Hapi.{Decoded}

-- BLS12-381: its scalar field `Fr`, its base field `Fq`, and the groups G1 and G2. A G2 point has two
-- coordinates of two components each, `c0` and `c1`.
pub record Bls : Type 1 where
  pub Fr : Type 0
  pub Fq : Type 0
  pub G1 : Type 0
  pub G2 : Type 0
  pub fr_from_le_bytes_mod_order : Bytes → Fr
  pub fr_from_be_bytes_mod_order : Bytes → Fr
  pub fr_from_u64 : ℕ → Fr
  pub fr_into_bigint : Fr → ℕ
  pub fr_eq : Fr → Fr → Bool
  pub fr_one : Fr
  pub fr_add : Fr → Fr → Fr
  pub fr_sub : Fr → Fr → Fr
  pub fr_mul : Fr → Fr → Fr
  pub fr_pow : Fr → ℕ → Fr
  pub fr_inverse : Fr → Option Fr
  pub get_root_of_unity : ℕ → Option Fr
  pub fq_modulus : ℕ
  pub fq_deserialize : Bytes → Decoded Fq
  pub fq_is_zero : Fq → Bool
  pub fq_into_bigint : Fq → ℕ
  pub g1_identity : G1
  pub g1_is_zero : G1 → Bool
  pub g1_new_unchecked : Fq → Fq → G1
  pub g1_is_on_curve : G1 → Bool
  pub g1_in_subgroup : G1 → Bool
  pub g1_x : G1 → Fq
  pub g1_y : G1 → Fq
  pub g1_add : G1 → G1 → G1
  pub g1_sub : G1 → G1 → G1
  pub g1_neg : G1 → G1
  pub g1_mul : G1 → Fr → G1
  pub g2_identity : G2
  pub g2_is_zero : G2 → Bool
  pub g2_new_unchecked : Fq → Fq → Fq → Fq → G2
  pub g2_is_on_curve : G2 → Bool
  pub g2_in_subgroup : G2 → Bool
  pub g2_x_c0 : G2 → Fq
  pub g2_x_c1 : G2 → Fq
  pub g2_y_c0 : G2 → Fq
  pub g2_y_c1 : G2 → Fq
  pub g2_sub : G2 → G2 → G2
  pub g2_mul : G2 → Fr → G2
  -- `MapToCurveBasedHasher::new(dst)`, and its `hash`.
  pub new_hasher : Bytes → Decoded (Bytes → Decoded G2)
  -- `multi_pairing(..).0.is_one()`
  pub pairing_is_one : List (G1 × G2) → Bool

-- SHA-256.
pub record Sha256 : Type 0 where
  pub digest256 : Bytes → Bytes
  pub length-digest256 : (b : Bytes) → length (digest256 b) ≡ 32

-- BabyJubjub, `ark_ed_on_bn254`, and Blake2s-256.
pub record Jubjub : Type 1 where
  pub Scalar : Type 0
  pub Point : Type 0
  pub from_le_bytes_mod_order : Bytes → Scalar
  pub scalar_eq : Scalar → Scalar → Bool
  pub identity : Point
  pub is_zero : Point → Bool
  pub add : Point → Point → Point
  pub mul : Point → Scalar → Point
  pub generator : Point
  pub deserialize_uncompressed : Bytes → Decoded Point
  pub serialize_uncompressed : Point → Bytes
  pub blake2s : Bytes → Bytes

-- BN254: its fields, its groups, its readers, which give what they leave of their input, and the
-- Poseidon sponge over the scalar field, absorbing all its input and squeezing one element.
pub record Bn254 : Type 1 where
  pub Fr : Type 0
  pub Fq : Type 0
  pub G1 : Type 0
  pub G2 : Type 0
  pub fr_from_le_bytes_mod_order : Bytes → Fr
  pub fr_from_u64 : ℕ → Fr
  pub fr_into_bigint : Fr → ℕ
  pub fr_eq : Fr → Fr → Bool
  pub fr_is_zero : Fr → Bool
  pub fr_zero : Fr
  pub fq_zero : Fq
  pub fq_into_bigint : Fq → ℕ
  -- `xy()`, which the identity has not.
  pub g1_xy : G1 → Option (Fq × Fq)
  pub g1_is_zero : G1 → Bool
  pub g1_add : G1 → G1 → G1
  pub g1_sub : G1 → G1 → G1
  pub g1_neg : G1 → G1
  pub g1_mul : G1 → Fr → G1
  pub g2_sub : G2 → G2 → G2
  pub g2_neg : G2 → G2
  pub g2_mul : G2 → Fr → G2
  pub pairing_is_one : List (G1 × G2) → Bool
  pub read_fr : Bytes → Decoded (Fr × Bytes)
  pub read_g1 : Bytes → Decoded (G1 × Bytes)
  pub read_g2 : Bytes → Decoded (G2 × Bytes)
  pub read_fr_vec : Bytes → Decoded (List Fr × Bytes)
  pub read_g1_vec : Bytes → Decoded (List G1 × Bytes)
  pub poseidon_sponge : List Fr → Fr
