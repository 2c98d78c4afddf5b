-- ===== src/Block/Proof/Hints/Transcript.antt =====
-- src/block/proof/hints.rs: the wire layouts of the hinTS key and signature, and the Fiat-Shamir
-- transcript over them.
use Prim.Native.Nat.{bit_xor}
use hiero_streams_rs.Prelude.{
  ℕ, zero, suc, ◌+◌, ◌*◌, ◌/◌, ◌%◌, not, [], ◌∷◌, ◌++◌, ◌==◌, if◌then◌else◌, length, take,
  replicate, Bytes,
}
use hiero_streams_rs.Prelude.Encode.{be_bytes, le_bytes}
use hiero_streams_rs.Text.{codes}
use hiero_streams_rs.Result.{Result, ok, err, ◌>>=◌, proof, bad_hints_vk, bad_hints_signature}
use hiero_streams_rs.Block.Proof.Curves.{Bls, Sha256}
use hiero_streams_rs.Block.Proof.Hints.Points.{
  part, read_g1_uncompressed, read_g2_uncompressed, compress_g1, compress_g2,
}

abbrev pub vk_length : ℕ
vk_length = 1096

abbrev pub sig_length : ℕ
sig_length = 1632

abbrev pub hash_to_g2_dst : Bytes
hash_to_g2_dst = codes "BLS_SIG_BLS12381G2_XMD:SHA-256_SSWU_RO_POP_"

abbrev pub fiat_shamir_dst : Bytes
fiat_shamir_dst = codes "HINTS_SIG_BLS12381:FIAT_SHAMIR"

-- A little-endian u64 in the bytes of the list.
unfoldable pub from_le_bytes : Bytes → ℕ
from_le_bytes [] = 0
from_le_bytes (b ∷ bs) = b + 256 * from_le_bytes bs

module _ ⦃bls : Bls⦄ where
  pub record HintsVk : Type 0 where
    pub n : ℕ
    pub total_weight : bls.Fr
    pub g0 : bls.G1
    pub h0 : bls.G2
    pub h1 : bls.G2
    pub ln_minus_1_of_tau_com : bls.G1
    pub w_of_tau_com : bls.G1
    pub sk_of_tau_com : bls.G2
    pub z_of_tau_com : bls.G2

  pub record HintsSignature : Type 0 where
    pub agg_pk : bls.G1
    pub agg_weight : bls.Fr
    pub agg_sig : bls.G2
    pub b_of_tau_com : bls.G1
    pub qx_of_tau_com : bls.G1
    pub qx_of_tau_mul_tau_com : bls.G1
    pub qz_of_tau_com : bls.G1
    pub parsum_of_tau_com : bls.G1
    pub q1_of_tau_com : bls.G1
    pub q3_of_tau_com : bls.G1
    pub q2_of_tau_com : bls.G1
    pub q4_of_tau_com : bls.G1
    pub opening_proof_r : bls.G1
    pub opening_proof_r_div_omega : bls.G1
    pub parsum_of_r : bls.Fr
    pub parsum_of_r_div_omega : bls.Fr
    pub w_of_r : bls.Fr
    pub b_of_r : bls.Fr
    pub q1_of_r : bls.Fr
    pub q3_of_r : bls.Fr
    pub q2_of_r : bls.Fr
    pub q4_of_r : bls.Fr

  unfoldable pub read_fr_le : Bytes → bls.Fr
  read_fr_le b = bls.fr_from_le_bytes_mod_order b

  unfoldable pub g1_at : Bytes → ℕ → Result bls.G1
  g1_at b offset = read_g1_uncompressed (part offset 96 b)

  unfoldable pub g2_at : Bytes → ℕ → Result bls.G2
  g2_at b offset = read_g2_uncompressed (part offset 192 b)

  unfoldable pub fr_at : Bytes → ℕ → bls.Fr
  fr_at b offset = read_fr_le (part offset 32 b)

  unfoldable pub read_vk : Bytes → Result HintsVk
  read_vk b = do
    g0 ← g1_at b 40
    h0 ← g2_at b 136
    h1 ← g2_at b 328
    ln_minus_1_of_tau_com ← g1_at b 520
    w_of_tau_com ← g1_at b 616
    sk_of_tau_com ← g2_at b 712
    z_of_tau_com ← g2_at b 904
    ok (record {
      n = from_le_bytes (part 0 8 b);
      total_weight = fr_at b 8;
      g0 = g0;
      h0 = h0;
      h1 = h1;
      ln_minus_1_of_tau_com = ln_minus_1_of_tau_com;
      w_of_tau_com = w_of_tau_com;
      sk_of_tau_com = sk_of_tau_com;
      z_of_tau_com = z_of_tau_com;
    })

  unfoldable pub deserialize_vk : Bytes → Result HintsVk
  deserialize_vk b =
      if not (length b == vk_length) then err (proof (bad_hints_vk (length b))) else read_vk b

  unfoldable pub read_signature : Bytes → Result HintsSignature
  read_signature b = do
    agg_pk ← g1_at b 0
    agg_sig ← g2_at b 128
    b_of_tau_com ← g1_at b 320
    qx_of_tau_com ← g1_at b 416
    qx_of_tau_mul_tau_com ← g1_at b 512
    qz_of_tau_com ← g1_at b 608
    parsum_of_tau_com ← g1_at b 704
    q1_of_tau_com ← g1_at b 800
    q3_of_tau_com ← g1_at b 896
    q2_of_tau_com ← g1_at b 992
    q4_of_tau_com ← g1_at b 1088
    opening_proof_r ← g1_at b 1184
    opening_proof_r_div_omega ← g1_at b 1280
    ok (record {
      agg_pk = agg_pk;
      agg_weight = fr_at b 96;
      agg_sig = agg_sig;
      b_of_tau_com = b_of_tau_com;
      qx_of_tau_com = qx_of_tau_com;
      qx_of_tau_mul_tau_com = qx_of_tau_mul_tau_com;
      qz_of_tau_com = qz_of_tau_com;
      parsum_of_tau_com = parsum_of_tau_com;
      q1_of_tau_com = q1_of_tau_com;
      q3_of_tau_com = q3_of_tau_com;
      q2_of_tau_com = q2_of_tau_com;
      q4_of_tau_com = q4_of_tau_com;
      opening_proof_r = opening_proof_r;
      opening_proof_r_div_omega = opening_proof_r_div_omega;
      parsum_of_r = fr_at b 1376;
      parsum_of_r_div_omega = fr_at b 1408;
      w_of_r = fr_at b 1440;
      b_of_r = fr_at b 1472;
      q1_of_r = fr_at b 1504;
      q3_of_r = fr_at b 1536;
      q2_of_r = fr_at b 1568;
      q4_of_r = fr_at b 1600;
    })

  unfoldable pub deserialize_signature : Bytes → Result HintsSignature
  deserialize_signature b =
      if not (length b == sig_length)
      then err (proof (bad_hints_signature (length b)))
      else read_signature b

unfoldable pub xor_bytes : Bytes → Bytes → Bytes
xor_bytes [] ys = []
xor_bytes (x ∷ xs) [] = []
xor_bytes (x ∷ xs) (y ∷ ys) = bit_xor x y ∷ xor_bytes xs ys

module _ ⦃s : Sha256⦄ where
  -- The blocks `i` to `i + rounds - 1` of the expansion, behind the block `prev`.
  unfoldable pub expand_blocks : Bytes → Bytes → ℕ → ℕ → Bytes → Bytes
  expand_blocks dst_prime b0 zero i prev = []
  expand_blocks dst_prime b0 (suc rounds) i prev =
      let seed = if i == 1 then b0 else xor_bytes b0 prev in
      let block = s.digest256 (seed ++ ((i % 256) ∷ dst_prime)) in
      block ++ expand_blocks dst_prime b0 rounds (suc i) block

  -- The tag's length is pushed as one byte; both tags of the source are shorter than 256 bytes.
  unfoldable pub arkworks_expand_message_xmd : Bytes → Bytes → ℕ → Bytes
  arkworks_expand_message_xmd msg dst len_in_bytes =
      let ell = (len_in_bytes + 31) / 32 in
      let dst_prime = dst ++ (length dst ∷ []) in
      let b0 = s.digest256 (
        replicate len_in_bytes 0
        ++ (msg ++ (be_bytes 2 (len_in_bytes % 65536) ++ (0 ∷ dst_prime)))) in
      take len_in_bytes (expand_blocks dst_prime b0 ell 1 b0)

  module _ ⦃bls : Bls⦄ where
    unfoldable pub hash_to_fr : Bytes → Bytes → bls.Fr
    hash_to_fr data_bytes dst =
        bls.fr_from_be_bytes_mod_order (arkworks_expand_message_xmd data_bytes dst 48)

    unfoldable pub transcript : HintsVk → HintsSignature → Bytes
    transcript vk sig =
        compress_g2 vk.sk_of_tau_com
        ++ (compress_g2 vk.h1
            ++ (compress_g1 sig.agg_pk
                ++ (le_bytes 32 (bls.fr_into_bigint sig.agg_weight)
                    ++ (compress_g1 vk.w_of_tau_com
                        ++ (compress_g1 sig.b_of_tau_com
                            ++ (compress_g1 sig.parsum_of_tau_com
                                ++ (compress_g1 sig.qx_of_tau_com
                                    ++ (compress_g1 sig.qz_of_tau_com
                                        ++ (compress_g1 sig.qx_of_tau_mul_tau_com
                                            ++ (compress_g1 sig.q1_of_tau_com
                                                ++ (compress_g1 sig.q2_of_tau_com
                                                    ++ (compress_g1 sig.q3_of_tau_com
                                                        ++ compress_g1 sig.q4_of_tau_com))))))))))))

    unfoldable pub fiat_shamir_challenge : HintsVk → HintsSignature → bls.Fr
    fiat_shamir_challenge vk sig = hash_to_fr (transcript vk sig) fiat_shamir_dst
