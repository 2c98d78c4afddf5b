-- ===== src/Block/Proof/Poseidon.antt =====
-- src/block/proof/poseidon.rs: the hash of the hinTS verification key. The sponge itself, with its
-- constants, is the `ark-crypto-primitives` crate's.
use hiero_streams_rs.Prelude.{ℕ, zero, suc, List, [], ◌∷◌, map, take, drop, length, Bytes}
use hiero_streams_rs.Block.Proof.Curves.{Bn254}

-- `chunks(32)`; each round takes a byte at least, so that `length` rounds are enough.
unfoldable pub chunks_32 : ℕ → Bytes → List Bytes
chunks_32 zero b = []
chunks_32 (suc fuel) [] = []
chunks_32 (suc fuel) (b ∷ bs) = take 32 (b ∷ bs) ∷ chunks_32 fuel (drop 32 (b ∷ bs))

module _ ⦃bn : Bn254⦄ where
  unfoldable pub poseidon_hash : List bn.Fr → bn.Fr
  poseidon_hash inputs = bn.poseidon_sponge inputs

  unfoldable pub hash_hints_vk : Bytes → bn.Fr
  hash_hints_vk vk_bytes =
      poseidon_hash (map bn.fr_from_le_bytes_mod_order (chunks_32 (length vk_bytes) vk_bytes))
