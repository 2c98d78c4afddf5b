-- ===== src/Block/Proof/Hints/Expand.antt =====
-- The length of the expanded message of src/block/proof/hints.rs, and of the transcript.
use hiero_streams_rs.Prelude.{
  ℕ, zero, suc, ◌+◌, ◌*◌, ◌/◌, ◌≡◌, refl, ap, ◌∙◌, inl, inr, Bool, true, false, Bool-cases, [], ◌∷◌,
  ◌++◌, arith, length, length-take, length-append, Bytes,
}
use hiero_streams_rs.Prelude.Encode.{be_bytes, length-be_bytes}
use hiero_streams_rs.Block.Proof.Curves.{Bls, Sha256}
use hiero_streams_rs.Block.Proof.Hints.Points.{
  set_flag, set_flag_if, compress_g1, compress_g2, fq_to_be48,
}
use hiero_streams_rs.Block.Proof.Hints.Transcript.{expand_blocks, arkworks_expand_message_xmd}

module _ ⦃s : Sha256⦄ where
  length-expand_blocks :
      (dst_prime b0 : Bytes) (rounds i : ℕ) (prev : Bytes)
      → length (expand_blocks dst_prime b0 rounds i prev) ≡ 32 * rounds
  unfolding expand_blocks
  length-expand_blocks dst_prime b0 zero i prev = refl
  length-expand_blocks dst_prime b0 (suc rounds) i prev = omega (
    arith,
    length-append (s.digest256 _) (expand_blocks dst_prime b0 rounds (suc i) _),
    s.length-digest256 _,
    length-expand_blocks dst_prime b0 rounds (suc i) _,
  )

  -- The expansion of any message gives exactly as many bytes as were asked for.
  pub length-arkworks_expand_message_xmd :
      (msg dst : Bytes) (len_in_bytes : ℕ)
      → length (arkworks_expand_message_xmd msg dst len_in_bytes) ≡ len_in_bytes
  unfolding arkworks_expand_message_xmd
  length-arkworks_expand_message_xmd msg dst len_in_bytes = omega (
    arith,
    length-take len_in_bytes (expand_blocks _ _ ((len_in_bytes + 31) / 32) 1 _),
    length-expand_blocks _ _ ((len_in_bytes + 31) / 32) 1 _,
  )

length-set_flag : (flag : ℕ) (b : Bytes) → length (set_flag flag b) ≡ length b
unfolding set_flag
length-set_flag flag [] = refl
length-set_flag flag (b ∷ bs) = refl

length-set_flag_if : (c : Bool) (flag : ℕ) (b : Bytes) → length (set_flag_if c flag b) ≡ length b
unfolding set_flag_if
length-set_flag_if true flag b = length-set_flag flag b
length-set_flag_if false flag b = refl

module _ ⦃bls : Bls⦄ where
  length-compress_g1 : (p : bls.G1) → length (compress_g1 p) ≡ 48
  unfolding compress_g1 fq_to_be48
  length-compress_g1 p = elim (Bool-cases (bls.g1_is_zero p)) [
    | inl e ↦ rw e refl
    | inr e ↦ rw e (
        length-set_flag_if _ _ (set_flag _ (be_bytes 48 (bls.fq_into_bigint (bls.g1_x p))))
        ∙ length-set_flag _ (be_bytes 48 (bls.fq_into_bigint (bls.g1_x p)))
        ∙ length-be_bytes 48 (bls.fq_into_bigint (bls.g1_x p)))
  ]

  length-compress_g2 : (p : bls.G2) → length (compress_g2 p) ≡ 96
  unfolding compress_g2 fq_to_be48
  length-compress_g2 p = elim (Bool-cases (bls.g2_is_zero p)) [
    | inl e ↦ rw e refl
    | inr e ↦
        let c1 = be_bytes 48 (bls.fq_into_bigint (bls.g2_x_c1 p)) in
        let c0 = be_bytes 48 (bls.fq_into_bigint (bls.g2_x_c0 p)) in
        rw e (
          length-set_flag_if _ _ (set_flag _ (c1 ++ c0))
          ∙ length-set_flag _ (c1 ++ c0)
          ∙ length-append c1 c0
          ∙ ap (λ n. n + length c0) (length-be_bytes 48 (bls.fq_into_bigint (bls.g2_x_c1 p)))
          ∙ ap (λ n. 48 + n) (length-be_bytes 48 (bls.fq_into_bigint (bls.g2_x_c0 p))))
  ]
