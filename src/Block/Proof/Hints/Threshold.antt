-- ===== src/Block/Proof/Hints/Threshold.antt =====
-- The threshold of src/block/proof/hints.rs: what a test that passes says of the weights.
use hiero_streams_rs.Prelude.{
  ℕ, ◌*◌, ◌%◌, ◌<◌, ◌≡◌, ◌↔◌, refl, sym, ap, ◌∙◌, inl, inr, Bool, true, arith, ltb, ltb→lt, lt→ltb,
  leb, and_true, leb→le, Bool-cases, Bytes, [], ◌∷◌,
}
use hiero_streams_rs.Result.{
  ok, >>=-eq-ok, ok_injective, else_part, proof, weight_exceeds_128_bits, ok_or, no_root_of_unity,
  omega_is_zero,
}
use hiero_streams_rs.Block.Material.{ProofLayout}
use hiero_streams_rs.Block.Proof.Curves.{Bls, Sha256}
use hiero_streams_rs.Block.Proof.Hints.Transcript.{
  HintsVk, HintsSignature, deserialize_vk, deserialize_signature, fiat_shamir_challenge,
}
use hiero_streams_rs.Block.Proof.Hints.{
  HintsChecks, all_passed, fr_to_u128, threshold, threshold_numerator, threshold_denominator,
  u128_mod, verify_hints, hash_to_g2, checks_of, ln_minus_1,
}

-- The products of the test, with the wrap-around.
wrapped_threshold :
    (total agg : ℕ)
    → total < u128_mod
    → ltb (threshold_numerator * total % u128_mod) (threshold_denominator * agg % u128_mod) ≡ true
    → total < 3 * agg
wrapped_threshold total agg small h =
    let less =
      ltb→lt (threshold_numerator * total % u128_mod) (threshold_denominator * agg % u128_mod) h in
    omega (arith, less, small)

exact_threshold :
    (total agg : ℕ)
    → total < u128_mod
    → 3 * agg < u128_mod
    → total < 3 * agg
    → ltb (threshold_numerator * total % u128_mod) (threshold_denominator * agg % u128_mod) ≡ true
exact_threshold total agg small room h = lt→ltb _ _ (omega (arith, small, room, h))

all_passed_first :
    (c : HintsChecks)
    → all_passed c ≡ true
    → (c.threshold_met ≡ true) × (c.bls_signature_valid ≡ true)
unfolding all_passed
all_passed_first c h =
    let (weighed, rest) = and_true c.threshold_met _ h in
    (weighed, (and_true c.bls_signature_valid _ rest).0)

module _ ⦃bls : Bls⦄ where
  fr_to_u128-value :
      (v : bls.Fr) {n : ℕ} → fr_to_u128 v ≡ ok n → (n ≡ bls.fr_into_bigint v) × (n < u128_mod)
  unfolding fr_to_u128
  fr_to_u128-value v {n} h =
      let (small, same) =
        else_part (leb u128_mod (bls.fr_into_bigint v)) (proof weight_exceeds_128_bits) _ h in
      let value : bls.fr_into_bigint v ≡ n = ok_injective same in
      (sym value, ground (arith, value, small))

  fr_to_u128-small :
      (v : bls.Fr) → bls.fr_into_bigint v < u128_mod → fr_to_u128 v ≡ ok (bls.fr_into_bigint v)
  unfolding fr_to_u128
  fr_to_u128-small v h = elim (Bool-cases (leb u128_mod (bls.fr_into_bigint v))) [
    | inl large ↦ absurd (omega (arith, leb→le _ _ large))
    | inr small ↦ rw small refl
  ]

  -- Where the test passes, three times the signers' weight exceeds the total weight, although the
  -- products of the code wrap around at 2 ^ 128.
  pub threshold_sound :
      (vk : HintsVk) (sig : HintsSignature)
      → threshold vk sig ≡ ok true
      → bls.fr_into_bigint vk.total_weight < 3 * bls.fr_into_bigint sig.agg_weight
  unfolding threshold
  threshold_sound vk sig h =
      let (agg, a, h₁) = >>=-eq-ok (fr_to_u128 sig.agg_weight) _ h in
      let (total, t, h₂) = >>=-eq-ok (fr_to_u128 vk.total_weight) _ h₁ in
      let (agg_is, _) = fr_to_u128-value sig.agg_weight a in
      let (total_is, small) = fr_to_u128-value vk.total_weight t in
      let less = wrapped_threshold total agg small (ok_injective h₂) in
      rw (← agg_is, ← total_is) less

  -- Where the total weight and three times the signers' weight are below 2 ^ 128, the test passes
  -- exactly when the signers' weight is more than a third of the total weight.
  pub threshold_iff :
      (vk : HintsVk) (sig : HintsSignature)
      → bls.fr_into_bigint vk.total_weight < u128_mod
      → 3 * bls.fr_into_bigint sig.agg_weight < u128_mod
      → (threshold vk sig ≡ ok true)
        ↔ (bls.fr_into_bigint vk.total_weight < 3 * bls.fr_into_bigint sig.agg_weight)
  unfolding threshold
  threshold_iff vk sig small room = (threshold_sound vk sig, λ less. exact less)
    where
      exact :
          bls.fr_into_bigint vk.total_weight < 3 * bls.fr_into_bigint sig.agg_weight
          → threshold vk sig ≡ ok true
      exact less =
          rw (fr_to_u128-small sig.agg_weight (omega arith), fr_to_u128-small vk.total_weight small)
            (ap ok (exact_threshold _ _ small room less))

  checks_of-passed :
      (vk : HintsVk) (sig : HintsSignature) (h_msg : bls.G2) (met : Bool)
      (r r_div_omega vanishing_of_r ln_minus_1_of_r : bls.Fr) (checks : HintsChecks)
      → checks_of vk sig h_msg met r r_div_omega vanishing_of_r ln_minus_1_of_r ≡ checks
      → all_passed checks ≡ true
      → (met ≡ true)
        × (bls.pairing_is_one ((sig.agg_pk, h_msg) ∷ ((bls.g1_neg vk.g0, sig.agg_sig) ∷ [])) ≡ true)
  unfolding checks_of
  checks_of-passed vk sig h_msg met r r_div_omega vanishing_of_r ln_minus_1_of_r checks shown
        passed =
      let (weighed, paired) = all_passed_first checks passed in
      (ap (λ c. c.threshold_met) shown ∙ weighed, ap (λ c. c.bls_signature_valid) shown ∙ paired)

  module _ ⦃s : Sha256⦄ where
    -- If `verify_hints` returns checks that all passed, the key and the signature of the layout read
    -- well, the signers' weight is more than a third of the total weight, and the signature's pairing
    -- equation holds for the hash of the given root.
    pub verify_hints-all_passed :
        (layout : ProofLayout) (block_root : Bytes) (checks : HintsChecks)
        → verify_hints layout block_root ≡ ok checks
        → all_passed checks ≡ true
        → (vk : HintsVk) × (sig : HintsSignature) × (h_msg : bls.G2) × (deserialize_vk
              layout.hints_verification_key
            ≡ ok vk)
          × (deserialize_signature layout.hints_signature ≡ ok sig)
          × (hash_to_g2 block_root ≡ ok h_msg)
          × (bls.fr_into_bigint vk.total_weight < 3 * bls.fr_into_bigint sig.agg_weight)
          × (bls.pairing_is_one ((sig.agg_pk, h_msg) ∷ ((bls.g1_neg vk.g0, sig.agg_sig) ∷ []))
              ≡ true)
    unfolding verify_hints
    verify_hints-all_passed layout block_root checks h passed =
        let (vk, v, h₁) = >>=-eq-ok (deserialize_vk layout.hints_verification_key) _ h in
        let (sig, g, h₂) = >>=-eq-ok (deserialize_signature layout.hints_signature) _ h₁ in
        let (met, t, h₃) = >>=-eq-ok (threshold vk sig) _ h₂ in
        let (h_msg, m, h₄) = >>=-eq-ok (hash_to_g2 block_root) _ h₃ in
        let (omega_of, o, h₅) =
          >>=-eq-ok (ok_or (bls.get_root_of_unity vk.n) (proof (no_root_of_unity vk.n))) _ h₄ in
        let (inverse, i, h₆) =
          >>=-eq-ok (ok_or (bls.fr_inverse omega_of) (proof omega_is_zero)) _ h₅ in
        let r = fiat_shamir_challenge vk sig in
        let (ln, l, h₇) =
          >>=-eq-ok (ln_minus_1 vk omega_of r (bls.fr_sub (bls.fr_pow r vk.n) bls.fr_one)) _ h₆ in
        let (weighed, paired) =
          checks_of-passed vk sig h_msg met r _ _ ln checks (ok_injective h₇) passed in
        (vk, sig, h_msg, v, g, m, threshold_sound vk sig (t ∙ ap ok weighed), paired)
