-- ===== src/Block/Proof/Wraps/Wire.antt =====
-- src/block/proof/wraps.rs: the wire structs of the WRAPS proof and of the verifier's parameter. A
-- reader takes its value from the front of its input and leaves the rest, as `&mut reader` does.
use Prim.Native.String.{String}
use hiero_streams_rs.Prelude.{ℕ, zero, suc, List, [], ◌∷◌, Bytes, length}
use hiero_streams_rs.Result.{Result, ok, err, proof, malformed, trailing_bytes}
use hiero_streams_rs.Hapi.{Decoded, value, failure}
use hiero_streams_rs.Block.Proof.Curves.{Bn254}

abbrev pub Reader : Type 0 → Type 0
Reader T = Bytes → Decoded (T × Bytes)

abbrev pub pure : {T : Type 0} → T → Reader T
pure t b = value (t, b)

-- `?` between two reads.
abbrev pub continue_with :
    {T U : Type 0} → Decoded (T × Bytes) → (T → Reader U) → Decoded (U × Bytes)
continue_with (failure e) rest = failure e
continue_with (value (t, b)) rest = rest t b

infixl 5 ◌>>=◌
abbrev pub ◌>>=◌ : {T U : Type 0} → Reader T → (T → Reader U) → Reader U
(read >>= rest) b = continue_with (read b) rest

-- `n` values one after the other, each through `?`.
unfoldable pub deserialize_fixed_array : {T : Type 0} → Reader T → ℕ → Reader (List T)
deserialize_fixed_array read zero = pure []
deserialize_fixed_array read (suc n) = do
  t ← read
  ts ← deserialize_fixed_array read n
  pure (t ∷ ts)

-- An array of two elements, which the type of the field asks for.
unfoldable pub deserialize_pair : {T : Type 0} → Reader T → Reader (T × T)
deserialize_pair read = do t ← read; u ← read; pure (t, u)

unfoldable pub ended : {T : Type 0} → String → T → Bytes → Result T
ended what t [] = ok t
ended what t (b ∷ bs) = err (proof (trailing_bytes what (length (b ∷ bs))))

unfoldable pub deserialize_exact : {T : Type 0} → Reader T → Bytes → String → Result T
deserialize_exact read b what = elim (read b) [
  | failure e ↦ err (proof (malformed what e))
  | value (t, rest) ↦ ended what t rest
]

module _ ⦃bn : Bn254⦄ where
  pub record KzgEvalProof : Type 0 where
    pub eval : bn.Fr
    pub proof : bn.G1

  pub record EthProof : Type 0 where
    pub a : bn.G1
    pub b : bn.G2
    pub c : bn.G1
    pub kzg_proofs : KzgEvalProof × KzgEvalProof
    pub cm_t : bn.G1
    pub r : bn.Fr
    pub kzg_challenges : bn.Fr × bn.Fr

  pub record ProofData : Type 0 where
    pub i : bn.Fr
    pub z_0 : List bn.Fr
    pub z_i : List bn.Fr
    pub running_commitments : List bn.G1
    pub instance_commitments : List bn.G1
    pub eth_proof : EthProof

  pub record KzgVerifierKey : Type 0 where
    pub g : bn.G1
    pub gamma_g : bn.G1
    pub h : bn.G2
    pub beta_h : bn.G2

  pub record VerifierParam : Type 0 where
    pub pp_hash : bn.Fr
    pub alpha_g1 : bn.G1
    pub beta_g2 : bn.G2
    pub gamma_g2 : bn.G2
    pub delta_g2 : bn.G2
    pub gamma_abc_g1 : List bn.G1
    pub kzg_vk : KzgVerifierKey

  unfoldable pub read_kzg_eval_proof : Reader KzgEvalProof
  read_kzg_eval_proof = do
    eval ← bn.read_fr
    witness ← bn.read_g1
    pure (record { eval = eval; proof = witness })

  unfoldable pub read_eth_proof : Reader EthProof
  read_eth_proof = do
    a ← bn.read_g1
    b ← bn.read_g2
    c ← bn.read_g1
    kzg_proofs ← deserialize_pair read_kzg_eval_proof
    cm_t ← bn.read_g1
    r ← bn.read_fr
    kzg_challenges ← deserialize_pair bn.read_fr
    pure (record {
      a = a;
      b = b;
      c = c;
      kzg_proofs = kzg_proofs;
      cm_t = cm_t;
      r = r;
      kzg_challenges = kzg_challenges;
    })

  unfoldable pub read_proof_data : Reader ProofData
  read_proof_data = do
    i ← bn.read_fr
    z_0 ← bn.read_fr_vec
    z_i ← bn.read_fr_vec
    running_commitments ← bn.read_g1_vec
    instance_commitments ← bn.read_g1_vec
    eth_proof ← read_eth_proof
    pure (record {
      i = i;
      z_0 = z_0;
      z_i = z_i;
      running_commitments = running_commitments;
      instance_commitments = instance_commitments;
      eth_proof = eth_proof;
    })

  unfoldable pub read_kzg_verifier_key : Reader KzgVerifierKey
  read_kzg_verifier_key = do
    g ← bn.read_g1
    gamma_g ← bn.read_g1
    h ← bn.read_g2
    beta_h ← bn.read_g2
    pure (record { g = g; gamma_g = gamma_g; h = h; beta_h = beta_h })

  unfoldable pub read_verifier_param : Reader VerifierParam
  read_verifier_param = do
    pp_hash ← bn.read_fr
    alpha_g1 ← bn.read_g1
    beta_g2 ← bn.read_g2
    gamma_g2 ← bn.read_g2
    delta_g2 ← bn.read_g2
    gamma_abc_g1 ← bn.read_g1_vec
    kzg_vk ← read_kzg_verifier_key
    pure (record {
      pp_hash = pp_hash;
      alpha_g1 = alpha_g1;
      beta_g2 = beta_g2;
      gamma_g2 = gamma_g2;
      delta_g2 = delta_g2;
      gamma_abc_g1 = gamma_abc_g1;
      kzg_vk = kzg_vk;
    })
