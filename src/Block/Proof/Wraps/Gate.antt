-- ===== src/Block/Proof/Wraps/Gate.antt =====
-- The length of the public input of src/block/proof/wraps.rs, which its `debug_assert_eq!` states, and
-- what an accepted proof says of the ledger.
use Prim.Native.String.{String}
use hiero_streams_rs.Prelude.{
  ◌+◌, ◌≡◌, refl, inl, inr, not, not-false, List, [], ◌∷◌, ◌++◌, arith, length, length-append, ◌==◌,
  ==_iff, Bool-cases, Bytes,
}
use hiero_streams_rs.Result.{
  Result, ok, err, ◌>>=◌, >>=-eq-ok, Settles, Settles-bind, Settles-if, proof, malformed,
}
use hiero_streams_rs.Hapi.{Decoded, value, failure}
use hiero_streams_rs.Block.Material.{ProofLayout, Bootstrap}
use hiero_streams_rs.Block.Proof.Curves.{Bn254}
use hiero_streams_rs.Block.Proof.Wraps.Wire.{
  ProofData, VerifierParam, Reader, deserialize_exact, ended, read_proof_data, read_verifier_param,
}
use hiero_streams_rs.Block.Proof.Wraps.Limbs.{g1_to_nonnative, fq_to_limbs}
use hiero_streams_rs.Block.Proof.Wraps

two_elements {ℓ} :
    {T : Type ℓ} (xs : List T) → length xs ≡ 2 → (x : T) × (y : T) × (xs ≡ x ∷ (y ∷ []))
two_elements [] h = absurd (omega arith)
two_elements (x ∷ []) h = absurd (omega arith)
two_elements (x ∷ (y ∷ [])) h = (x, y, refl)
two_elements (x ∷ (y ∷ (z ∷ zs))) h = absurd (omega arith)

expect_two-length :
    {T : Type 0} (name : String) (xs : List T) {u : Unit {0}}
    → Wraps.expect_two name xs ≡ ok u
    → length xs ≡ 2
unfolding Wraps.expect_two
expect_two-length name xs h = elim (Bool-cases (length xs == 2)) [
  | inl e ↦ (==_iff _ _).0 e
  | inr e ↦ absurd (cc (rw e at h))
]

deserialize_exact-Settles :
    {T : Type 0} (read : Reader T) (b : Bytes) (what : String)
    → Settles (deserialize_exact read b what)
unfolding deserialize_exact ended
deserialize_exact-Settles read b what = go (read b)
  where
    close : {T : Type 0} (t : T) (rest : Bytes) → Settles (ended what t rest)
    close t [] = tt
    close t (x ∷ xs) = tt

    go :
        {T : Type 0} (d : Decoded (T × Bytes))
        → Settles (elim d as (λ _. Result T) [
          | failure e ↦ err (proof (malformed what e))
          | value (t, rest) ↦ ended what t rest
        ])
    go (failure e) = tt
    go (value (t, rest)) = close t rest

length-four_parts {ℓ} :
    {T : Type ℓ} (xs ys ps qs rest : List T)
    → length (xs ++ (ys ++ (ps ++ (qs ++ rest))))
      ≡ length xs + length ys + length ps + length qs + length rest
length-four_parts xs ys ps qs rest = omega (
  arith,
  length-append xs (ys ++ (ps ++ (qs ++ rest))),
  length-append ys (ps ++ (qs ++ rest)),
  length-append ps (qs ++ rest),
  length-append qs rest,
)

module _ ⦃bn : Bn254⦄ where
  length-g1_to_nonnative : (p : bn.G1) → length (g1_to_nonnative p) ≡ 10
  unfolding g1_to_nonnative fq_to_limbs Wraps.Limbs.limbs_of
  length-g1_to_nonnative p = refl

  -- The public input of a proof whose `z_0` and `z_i` have two elements has 40 elements.
  pub length-public_input_of :
      (vp : VerifierParam) (data_of : ProofData) (cm_w_final cm_e_final : bn.G1)
      → length data_of.z_0 ≡ 2
      → length data_of.z_i ≡ 2
      → length (Wraps.public_input_of vp data_of cm_w_final cm_e_final) ≡ Wraps.public_input_length
  unfolding Wraps.public_input_of
  length-public_input_of vp data_of cm_w_final cm_e_final h k =
      let rest =
        data_of.eth_proof.kzg_challenges.0
        ∷ (data_of.eth_proof.kzg_challenges.1
            ∷ (data_of.eth_proof.kzg_proofs.0.eval
                ∷ (data_of.eth_proof.kzg_proofs.1.eval
                    ∷ g1_to_nonnative data_of.eth_proof.cm_t))) in
      omega (
        arith,
        h,
        k,
        length-four_parts data_of.z_0 data_of.z_i (g1_to_nonnative cm_w_final)
            (g1_to_nonnative cm_e_final) rest,
        length-g1_to_nonnative cm_w_final,
        length-g1_to_nonnative cm_e_final,
        length-g1_to_nonnative data_of.eth_proof.cm_t,
      )

  groth16_valid-Settles :
      (inputs : List bn.Fr) (a : bn.G1) (b : bn.G2) (c : bn.G1) (vp : VerifierParam)
      → Settles (Wraps.groth16_valid inputs a b c vp)
  unfolding Wraps.groth16_valid Wraps.prepare
  groth16_valid-Settles inputs a b c vp =
      Settles-if (not (length vp.gamma_abc_g1 == length inputs + 1)) _ _ (λ _. tt)
        (λ fits.
          Settles-bind (Wraps.prepare inputs vp.gamma_abc_g1) _
            (prepared vp.gamma_abc_g1 ((==_iff _ _).0 (not-false _ fits))) (λ _ _. tt))
    where
      prepared :
          (cs : List bn.G1) → length cs ≡ length inputs + 1 → Settles (Wraps.prepare inputs cs)
      prepared [] e = absurd (omega arith)
      prepared (x ∷ xs) e = tt

  check_steps-Settles :
      (layout : ProofLayout) (bootstrap : Bootstrap) (data_of : ProofData) (vp : VerifierParam)
      → length data_of.z_0 ≡ 2
      → length data_of.z_i ≡ 2
      → length data_of.running_commitments ≡ 2
      → length data_of.instance_commitments ≡ 2
      → Settles (Wraps.check_steps layout bootstrap data_of vp)
  unfolding Wraps.check_steps
  check_steps-Settles layout bootstrap data_of vp h k r u =
      let (z, z', ez) = two_elements data_of.z_0 h in
      let (y, y', ey) = two_elements data_of.z_i k in
      let (p, p', ep) = two_elements data_of.running_commitments r in
      let (q, q', eq) = two_elements data_of.instance_commitments u in
      rw (ez, ey, ep, eq)
        (Settles-bind (Wraps.groth16_valid _ _ _ _ vp) _ (groth16_valid-Settles _ _ _ _ vp)
          (λ _ _. tt))

  check_lengths-two :
      (data_of : ProofData) {u : Unit {0}}
      → Wraps.check_lengths data_of ≡ ok u
      → (length data_of.z_0 ≡ 2)
        × (length data_of.z_i ≡ 2)
        × (length data_of.running_commitments ≡ 2)
        × (length data_of.instance_commitments ≡ 2)
  unfolding Wraps.check_lengths
  check_lengths-two data_of h =
      let (_, e₀, h₁) = >>=-eq-ok (Wraps.expect_two "z_0" data_of.z_0) _ h in
      let (_, e₁, h₂) = >>=-eq-ok (Wraps.expect_two "z_i" data_of.z_i) _ h₁ in
      let (_, e₂, h₃) = >>=-eq-ok (Wraps.expect_two "U_i" data_of.running_commitments) _ h₂ in
      (
        expect_two-length "z_0" data_of.z_0 e₀,
        expect_two-length "z_i" data_of.z_i e₁,
        expect_two-length "U_i" data_of.running_commitments e₂,
        expect_two-length "u_i" data_of.instance_commitments h₃,
      )

  expect_two-Settles :
      {T : Type 0} (name : String) (xs : List T) → Settles (Wraps.expect_two name xs)
  unfolding Wraps.expect_two
  expect_two-Settles name xs = Settles-if (length xs == 2) _ _ (λ _. tt) (λ _. tt)

  check_lengths-Settles : (data_of : ProofData) → Settles (Wraps.check_lengths data_of)
  unfolding Wraps.check_lengths
  check_lengths-Settles data_of =
      Settles-bind (Wraps.expect_two "z_0" data_of.z_0) _ (expect_two-Settles _ data_of.z_0) (λ _ _.
        Settles-bind (Wraps.expect_two "z_i" data_of.z_i) _ (expect_two-Settles _ data_of.z_i)
          (λ _ _.
            Settles-bind (Wraps.expect_two "U_i" data_of.running_commitments) _
              (expect_two-Settles _ data_of.running_commitments)
              (λ _ _. expect_two-Settles _ data_of.instance_commitments)))

  -- `verify_wraps` never panics: no index of it is out of range, whatever the proof and the bootstrap.
  pub verify_wraps-Settles :
      (layout : ProofLayout) (bootstrap : Bootstrap) → Settles (Wraps.verify_wraps layout bootstrap)
  unfolding Wraps.verify_wraps
  verify_wraps-Settles layout bootstrap =
      Settles-if (not (Wraps.is_wraps layout.path)) _ _ (λ _. tt)
        (λ _.
          Settles-if (not (length layout.suffix == Wraps.suffix_length)) _ _ (λ _. tt)
            (λ _.
              Settles-if
                (not
                  (length bootstrap.history_proof_verification_key == Wraps.verifier_param_length))
                _ _ (λ _. tt) (λ _. read)))
    where
      checked :
          (data_of : ProofData) (vp : VerifierParam) {u : Unit {0}}
          → Wraps.check_lengths data_of ≡ ok u
          → Settles (Wraps.check_steps layout bootstrap data_of vp)
      checked data_of vp h =
          let (a, b, c, d) = check_lengths-two data_of h in
          check_steps-Settles layout bootstrap data_of vp a b c d

      read : Settles (do
        data_of ← deserialize_exact read_proof_data layout.suffix "WRAPS proof"
        vp ←
            deserialize_exact read_verifier_param bootstrap.history_proof_verification_key
              "verifier param"
        _ ← Wraps.check_lengths data_of
        Wraps.check_steps layout bootstrap data_of vp)
      read =
          Settles-bind (deserialize_exact read_proof_data layout.suffix "WRAPS proof") _
            (deserialize_exact-Settles read_proof_data _ _)
            (λ data_of _.
              Settles-bind
                (deserialize_exact read_verifier_param bootstrap.history_proof_verification_key
                  "verifier param")
                _ (deserialize_exact-Settles read_verifier_param _ _)
                (λ vp _.
                  Settles-bind (Wraps.check_lengths data_of) _ (check_lengths-Settles data_of)
                    (λ _ h. checked data_of vp h)))
