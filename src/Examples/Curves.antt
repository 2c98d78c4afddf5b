-- ===== src/Examples/Curves.antt =====
-- Concrete instances of the curve interfaces, in which every group is the natural numbers.
use hiero_streams_rs.Prelude.{
  ℕ, ◌+◌, ◌-◌, ◌*◌, refl, true, none, some, List, [], ◌∷◌, ◌==◌, replicate, Bytes,
}
use hiero_streams_rs.Hapi.{Decoded, value}
use hiero_streams_rs.Block.Proof.Curves.{Bls, Sha256, Jubjub, Bn254}

abbrev byte_sum : Bytes → ℕ
byte_sum [] = 0
byte_sum (b ∷ bs) = b + byte_sum bs

abbrev pub flat_bls : Bls
flat_bls = record {
  Fr = ℕ;
  Fq = ℕ;
  G1 = ℕ;
  G2 = ℕ;
  fr_from_le_bytes_mod_order = byte_sum;
  fr_from_be_bytes_mod_order = byte_sum;
  fr_from_u64 = λ n. n;
  fr_into_bigint = λ n. n;
  fr_eq = λ a b. true;
  fr_one = 1;
  fr_add = λ a b. a + b;
  fr_sub = λ a b. a - b;
  fr_mul = λ a b. a * b;
  fr_pow = λ a n. a;
  fr_inverse = λ a. some a;
  get_root_of_unity = λ n. some 1;
  fq_modulus = 7;
  fq_deserialize = λ b. value 0;
  fq_is_zero = λ a. a == 0;
  fq_into_bigint = λ a. a;
  g1_identity = 0;
  g1_is_zero = λ p. p == 0;
  g1_new_unchecked = λ x y. x;
  g1_is_on_curve = λ p. true;
  g1_in_subgroup = λ p. true;
  g1_x = λ p. p;
  g1_y = λ p. p;
  g1_add = λ p q. p + q;
  g1_sub = λ p q. p - q;
  g1_neg = λ p. p;
  g1_mul = λ p n. p * n;
  g2_identity = 0;
  g2_is_zero = λ p. p == 0;
  g2_new_unchecked = λ a b c d. a;
  g2_is_on_curve = λ p. true;
  g2_in_subgroup = λ p. true;
  g2_x_c0 = λ p. p;
  g2_x_c1 = λ p. p;
  g2_y_c0 = λ p. p;
  g2_y_c1 = λ p. p;
  g2_sub = λ p q. p - q;
  g2_mul = λ p n. p * n;
  new_hasher = λ dst. value (λ b. value 0);
  pairing_is_one = λ pairs. true;
}

abbrev pub flat_sha256 : Sha256
flat_sha256 = record { digest256 = λ b. replicate 32 0; length-digest256 = λ b. refl }

abbrev pub flat_jubjub : Jubjub
flat_jubjub = record {
  Scalar = ℕ;
  Point = ℕ;
  from_le_bytes_mod_order = byte_sum;
  scalar_eq = λ a b. true;
  identity = 0;
  is_zero = λ p. p == 0;
  add = λ p q. p + q;
  mul = λ p n. p * n;
  generator = 1;
  deserialize_uncompressed = λ b. value 1;
  serialize_uncompressed = λ p. replicate 64 0;
  blake2s = λ b. replicate 32 0;
}

-- A G1 point takes all that is left; the vector has 41 points at the end and 2 before.
abbrev read_points : Bytes → Decoded (List ℕ × Bytes)
read_points [] = value (replicate 41 0, [])
read_points (b ∷ bs) = value (replicate 2 0, b ∷ bs)

abbrev pub flat_bn254 : Bn254
flat_bn254 = record {
  Fr = ℕ;
  Fq = ℕ;
  G1 = ℕ;
  G2 = ℕ;
  fr_from_le_bytes_mod_order = byte_sum;
  fr_from_u64 = λ n. n;
  fr_into_bigint = λ n. n;
  fr_eq = λ a b. true;
  fr_is_zero = λ a. a == 0;
  fr_zero = 0;
  fq_zero = 0;
  fq_into_bigint = λ n. n;
  g1_xy = λ p. none;
  g1_is_zero = λ p. p == 0;
  g1_add = λ p q. p + q;
  g1_sub = λ p q. p - q;
  g1_neg = λ p. p;
  g1_mul = λ p n. p * n;
  g2_sub = λ p q. p - q;
  g2_neg = λ p. p;
  g2_mul = λ p n. p * n;
  pairing_is_one = λ pairs. true;
  read_fr = λ b. value (5, b);
  read_g1 = λ b. value (0, []);
  read_g2 = λ b. value (0, b);
  read_fr_vec = λ b. value (replicate 2 0, b);
  read_g1_vec = read_points;
  poseidon_sponge = λ inputs. 0;
}
