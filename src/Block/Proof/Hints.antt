-- ===== src/Block/Proof/Hints.antt =====
-- src/block/proof/hints.rs: the hinTS threshold signature over a block root. The products of the
-- threshold test wrap around at 2 ^ 128, as they do in a release build.
pub mod Points
pub mod Transcript
pub mod Threshold
pub mod Expand
use hiero_streams_rs.Prelude.{
  ℕ, ◌+◌, ◌-◌, ◌*◌, ◌%◌, ◌^◌, Bool, ◌&&◌, List, [], ◌∷◌, ltb, leb, if◌then◌else◌, Bytes, u64_mod,
}
use hiero_streams_rs.Result.{
  Result, ok, err, ◌>>=◌, ok_or, expect, proof, weight_exceeds_128_bits, hash_to_curve_init,
  hash_to_curve, no_root_of_unity, omega_is_zero,
}
use hiero_streams_rs.Hapi.{Decoded, value, failure}
use hiero_streams_rs.Block.Material.{ProofLayout}
use hiero_streams_rs.Block.Proof.Curves.{Bls, Sha256}
use hiero_streams_rs.Block.Proof.Hints.Transcript.{
  HintsVk, HintsSignature, hash_to_g2_dst, deserialize_vk, deserialize_signature,
  fiat_shamir_challenge,
}

abbrev pub u128_mod : ℕ
u128_mod = 2 ^ 128

abbrev pub threshold_numerator : ℕ
threshold_numerator = 1

abbrev pub threshold_denominator : ℕ
threshold_denominator = 3

pub record HintsChecks : Type 0 where
  pub threshold_met : Bool
  pub bls_signature_valid : Bool
  pub merged_kzg_valid : Bool
  pub parsum_kzg_valid : Bool
  pub b_sk_identity_valid : Bool
  pub parsum_accumulation_valid : Bool
  pub parsum_constraint_valid : Bool
  pub bitmap_well_formedness_valid : Bool
  pub bitmap_constraint_valid : Bool
  pub degree_check_valid : Bool

unfoldable pub all_passed : HintsChecks → Bool
all_passed c =
    c.threshold_met
    && (c.bls_signature_valid
        && (c.merged_kzg_valid
            && (c.parsum_kzg_valid
                && (c.b_sk_identity_valid
                    && (c.parsum_accumulation_valid
                        && (c.parsum_constraint_valid
                            && (c.bitmap_well_formedness_valid
                                && (c.bitmap_constraint_valid && c.degree_check_valid))))))))

module _ ⦃bls : Bls⦄ where
  -- `limbs[2] != 0 || limbs[3] != 0` of the canonical value.
  unfoldable pub fr_to_u128 : bls.Fr → Result ℕ
  fr_to_u128 v =
      if leb u128_mod (bls.fr_into_bigint v)
      then err (proof weight_exceeds_128_bits)
      else ok (bls.fr_into_bigint v)

  unfoldable pub threshold : HintsVk → HintsSignature → Result Bool
  threshold vk sig = do
    agg_weight ← fr_to_u128 sig.agg_weight
    total_weight ← fr_to_u128 vk.total_weight
    ok (
        ltb (threshold_numerator * total_weight % u128_mod)
          (threshold_denominator * agg_weight % u128_mod))

  unfoldable pub hash_to_g2 : Bytes → Result bls.G2
  hash_to_g2 block_root = elim (bls.new_hasher hash_to_g2_dst) [
    | failure e ↦ err (proof (hash_to_curve_init e))
    | value hash ↦ elim (hash block_root) [
      | failure e ↦ err (proof (hash_to_curve e))
      | value p ↦ ok p
    ]
  ]

  -- `a / b` in the field panics where `b` has no inverse.
  unfoldable pub fr_div : bls.Fr → bls.Fr → Result bls.Fr
  fr_div a b = do inverse ← expect (bls.fr_inverse b); ok (bls.fr_mul a inverse)

  -- `commitment - g0 * eval`
  unfoldable pub opened : HintsVk → bls.G1 → bls.Fr → bls.G1
  opened vk commitment eval = bls.g1_sub commitment (bls.g1_mul vk.g0 eval)

  -- `h1 - h0 * at`
  unfoldable pub shifted : HintsVk → bls.Fr → bls.G2
  shifted vk at_point = bls.g2_sub vk.h1 (bls.g2_mul vk.h0 at_point)

  -- The loop that batches the openings with powers of `r`.
  unfoldable pub merge : bls.Fr → List bls.G1 → bls.Fr → bls.G1 → bls.G1
  merge r [] r_pow merged = merged
  merge r (arg ∷ args) r_pow merged =
      merge r args (bls.fr_mul r_pow r) (bls.g1_add merged (bls.g1_mul arg r_pow))

  unfoldable pub merged_kzg : HintsVk → HintsSignature → bls.Fr → Bool
  merged_kzg vk sig r =
      let w_adjusted =
        bls.g1_sub vk.w_of_tau_com (bls.g1_mul vk.ln_minus_1_of_tau_com sig.agg_weight) in
      let merged =
        merge r
          (opened vk w_adjusted sig.w_of_r
            ∷ (opened vk sig.b_of_tau_com sig.b_of_r
                ∷ (opened vk sig.q1_of_tau_com sig.q1_of_r
                    ∷ (opened vk sig.q3_of_tau_com sig.q3_of_r
                        ∷ (opened vk sig.q2_of_tau_com sig.q2_of_r
                            ∷ (opened vk sig.q4_of_tau_com sig.q4_of_r ∷ []))))))
          r (opened vk sig.parsum_of_tau_com sig.parsum_of_r) in
      bls.pairing_is_one ((merged, vk.h0) ∷ ((bls.g1_neg sig.opening_proof_r, shifted vk r) ∷ []))

  unfoldable pub parsum_kzg : HintsVk → HintsSignature → bls.Fr → Bool
  parsum_kzg vk sig r_div_omega = bls.pairing_is_one (
      (opened vk sig.parsum_of_tau_com sig.parsum_of_r_div_omega, vk.h0)
      ∷ ((bls.g1_neg sig.opening_proof_r_div_omega, shifted vk r_div_omega) ∷ []))

  unfoldable pub b_sk_identity : HintsVk → HintsSignature → Bool
  b_sk_identity vk sig = bls.pairing_is_one (
      (sig.b_of_tau_com, vk.sk_of_tau_com)
      ∷ ((bls.g1_neg sig.qz_of_tau_com, vk.z_of_tau_com)
          ∷ ((bls.g1_neg sig.qx_of_tau_com, vk.h1) ∷ ((bls.g1_neg sig.agg_pk, vk.h0) ∷ []))))

  -- `L_{n-1}(r)`; `n - 1` wraps around in a u64.
  unfoldable pub ln_minus_1 : HintsVk → bls.Fr → bls.Fr → bls.Fr → Result bls.Fr
  ln_minus_1 vk omega r vanishing_of_r = do
    let power = bls.fr_pow omega ((vk.n + u64_mod - 1) % u64_mod)
    left ← fr_div power (bls.fr_from_u64 vk.n)
    right ← fr_div vanishing_of_r (bls.fr_sub r power)
    ok (bls.fr_mul left right)

  -- The checks, from the values that the steps before them found.
  unfoldable pub checks_of :
      HintsVk → HintsSignature → bls.G2 → Bool → bls.Fr → bls.Fr → bls.Fr → bls.Fr → HintsChecks
  checks_of vk sig h_msg threshold_met r r_div_omega vanishing_of_r ln_minus_1_of_r = record {
    threshold_met = threshold_met;
    bls_signature_valid =
        bls.pairing_is_one ((sig.agg_pk, h_msg) ∷ ((bls.g1_neg vk.g0, sig.agg_sig) ∷ []));
    merged_kzg_valid = merged_kzg vk sig r;
    parsum_kzg_valid = parsum_kzg vk sig r_div_omega;
    b_sk_identity_valid = b_sk_identity vk sig;
    parsum_accumulation_valid =
        bls.fr_eq
          (bls.fr_sub (bls.fr_sub sig.parsum_of_r sig.parsum_of_r_div_omega)
            (bls.fr_mul sig.w_of_r sig.b_of_r))
          (bls.fr_mul sig.q1_of_r vanishing_of_r);
    parsum_constraint_valid =
        bls.fr_eq (bls.fr_mul ln_minus_1_of_r sig.parsum_of_r)
          (bls.fr_mul vanishing_of_r sig.q3_of_r);
    bitmap_well_formedness_valid =
        bls.fr_eq (bls.fr_sub (bls.fr_mul sig.b_of_r sig.b_of_r) sig.b_of_r)
          (bls.fr_mul sig.q2_of_r vanishing_of_r);
    bitmap_constraint_valid =
        bls.fr_eq (bls.fr_mul ln_minus_1_of_r (bls.fr_sub sig.b_of_r bls.fr_one))
          (bls.fr_mul vanishing_of_r sig.q4_of_r);
    degree_check_valid =
        bls.pairing_is_one
          ((sig.qx_of_tau_com, vk.h1) ∷ ((bls.g1_neg sig.qx_of_tau_mul_tau_com, vk.h0) ∷ []));
  }

  module _ ⦃s : Sha256⦄ where
    unfoldable pub verify_hints : ProofLayout → Bytes → Result HintsChecks
    verify_hints layout block_root = do
      vk ← deserialize_vk layout.hints_verification_key
      sig ← deserialize_signature layout.hints_signature
      threshold_met ← threshold vk sig
      h_msg ← hash_to_g2 block_root
      let r = fiat_shamir_challenge vk sig
      omega ← ok_or (bls.get_root_of_unity vk.n) (proof (no_root_of_unity vk.n))
      inverse ← ok_or (bls.fr_inverse omega) (proof omega_is_zero)
      let vanishing_of_r = bls.fr_sub (bls.fr_pow r vk.n) bls.fr_one
      ln_minus_1_of_r ← ln_minus_1 vk omega r vanishing_of_r
      ok (
          checks_of vk sig h_msg threshold_met r (bls.fr_mul r inverse) vanishing_of_r
            ln_minus_1_of_r)
