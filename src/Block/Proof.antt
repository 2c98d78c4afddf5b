-- ===== src/Block/Proof.antt =====
-- src/block/proof: the verification of a block's in-band proof. The curves come from the arkworks
-- crates, and enter as the interfaces of `Curves`; an affine and a projective point are one value.
pub mod Curves
pub mod Poseidon
pub mod Schnorr
pub mod Hints
pub mod Wraps
pub mod Verify
