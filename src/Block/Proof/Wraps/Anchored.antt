-- ===== src/Block/Proof/Wraps/Anchored.antt =====
-- What a WRAPS proof that src/block/proof/wraps.rs accepts says of the ledger and of the hinTS key.
use hiero_streams_rs.Prelude.{
  ◌<◌, ◌≡◌, ap, ◌∙◌, true, not, not-false, and_true, length, get_elem?, ◌==◌, ==_iff, ltb→lt, some,
}
use hiero_streams_rs.Result.{
  ok, >>=-eq-ok, ok_injective, else_part, expect-ok, expect, proof, not_wraps_path,
  bad_wraps_suffix, bad_verifier_param,
}
use hiero_streams_rs.Block.Material.{ProofLayout, Bootstrap}
use hiero_streams_rs.Block.Proof.Curves.{Bn254}
use hiero_streams_rs.Block.Proof.Poseidon.{hash_hints_vk}
use hiero_streams_rs.Block.Proof.Wraps.Wire.{
  ProofData, VerifierParam, deserialize_exact, read_proof_data, read_verifier_param,
}
use hiero_streams_rs.Block.Proof.Wraps

module _ ⦃bn : Bn254⦄ where
  -- What a WRAPS proof that passes every check says.
  pub record Anchored (layout : ProofLayout) (bootstrap : Bootstrap) (data_of : ProofData)
      (vp : VerifierParam) : Type 0 where
    pub ledger_id_sized : length bootstrap.ledger_id ≡ 32
    pub z_0_first : bn.Fr
    pub z_0_is : get_elem? data_of.z_0 0 ≡ some z_0_first
    pub starts_at_ledger :
        bn.fr_eq z_0_first (bn.fr_from_le_bytes_mod_order bootstrap.ledger_id) ≡ true
    pub z_i_second : bn.Fr
    pub z_i_is : get_elem? data_of.z_i 1 ≡ some z_i_second
    pub ends_at_key : bn.fr_eq z_i_second (hash_hints_vk layout.hints_verification_key) ≡ true
    pub folded : 1 < bn.fr_into_bigint data_of.i

  check_steps-Anchored :
      (layout : ProofLayout) (bootstrap : Bootstrap) (data_of : ProofData) (vp : VerifierParam)
      (c : Wraps.WrapsChecks)
      → Wraps.check_steps layout bootstrap data_of vp ≡ ok c
      → Wraps.all_passed c ≡ true
      → Anchored layout bootstrap data_of vp
  unfolding Wraps.check_steps Wraps.all_passed
  check_steps-Anchored layout bootstrap data_of vp c h passed =
      let (z, ez, h₁) = >>=-eq-ok (expect (get_elem? data_of.z_0 0)) _ h in
      let (y, ey, h₂) = >>=-eq-ok (expect (get_elem? data_of.z_i 1)) _ h₁ in
      let (p, ep, h₃) = >>=-eq-ok (expect (get_elem? data_of.running_commitments 0)) _ h₂ in
      let (p', ep', h₄) = >>=-eq-ok (expect (get_elem? data_of.running_commitments 1)) _ h₃ in
      let (q, eq, h₅) = >>=-eq-ok (expect (get_elem? data_of.instance_commitments 0)) _ h₄ in
      let (q', eq', h₆) = >>=-eq-ok (expect (get_elem? data_of.instance_commitments 1)) _ h₅ in
      let (g, eg, h₇) = >>=-eq-ok (Wraps.groth16_valid _ _ _ _ vp) _ h₆ in
      let shown = ok_injective h₇ in
      let (ledger, rest) = and_true c.ledger_id_match _ passed in
      let (key, rest') = and_true c.hints_vk_hash_match _ rest in
      let (guard, _) = and_true c.iteration_guard _ rest' in
      let (sized, starts) =
        and_true (length bootstrap.ledger_id == 32) _
          (ap (λ c. c.ledger_id_match) shown ∙ ledger) in
      record {
        ledger_id_sized = (==_iff _ _).0 sized;
        z_0_first = z;
        z_0_is = expect-ok (get_elem? data_of.z_0 0) ez;
        starts_at_ledger = starts;
        z_i_second = y;
        z_i_is = expect-ok (get_elem? data_of.z_i 1) ey;
        ends_at_key = ap (λ c. c.hints_vk_hash_match) shown ∙ key;
        folded = ltb→lt _ _ (ap (λ c. c.iteration_guard) shown ∙ guard);
      }

  -- If `verify_wraps` returns checks that all passed, the suffix has 704 bytes and the verifier's
  -- parameter 1768, both read well with nothing left over, the first state is the ledger ID of 32
  -- bytes, the last one holds the hash of the hinTS key, and more than one step was folded.
  pub verify_wraps-Anchored :
      (layout : ProofLayout) (bootstrap : Bootstrap) (c : Wraps.WrapsChecks)
      → Wraps.verify_wraps layout bootstrap ≡ ok c
      → Wraps.all_passed c ≡ true
      → (length layout.suffix ≡ Wraps.suffix_length)
        × (length bootstrap.history_proof_verification_key ≡ Wraps.verifier_param_length)
        × ((data_of : ProofData) × (vp : VerifierParam) × (deserialize_exact read_proof_data
                layout.suffix "WRAPS proof"
              ≡ ok data_of)
            × (deserialize_exact read_verifier_param bootstrap.history_proof_verification_key
                  "verifier param"
                ≡ ok vp)
            × Anchored layout bootstrap data_of vp)
  unfolding Wraps.verify_wraps
  verify_wraps-Anchored layout bootstrap c h passed =
      let key = bootstrap.history_proof_verification_key in
      let (_, h₁) = else_part (not (Wraps.is_wraps layout.path)) (proof not_wraps_path) _ h in
      let (sized, h₂) =
        else_part (not (length layout.suffix == Wraps.suffix_length))
          (proof (bad_wraps_suffix (length layout.suffix))) _ h₁ in
      let (key_sized, h₃) =
        else_part (not (length key == Wraps.verifier_param_length))
          (proof (bad_verifier_param (length key))) _ h₂ in
      let (data_of, d, h₄) =
        >>=-eq-ok (deserialize_exact read_proof_data layout.suffix "WRAPS proof") _ h₃ in
      let (vp, v, h₅) =
        >>=-eq-ok (deserialize_exact read_verifier_param key "verifier param") _ h₄ in
      let (_, _, h₆) = >>=-eq-ok (Wraps.check_lengths data_of) _ h₅ in
      (
        (==_iff _ _).0 (not-false _ sized),
        (==_iff _ _).0 (not-false _ key_sized),
        (data_of, vp, d, v, check_steps-Anchored layout bootstrap data_of vp c h₆ passed),
      )
