-- ===== src/Block.antt =====
-- The block-stream era (src/block).
pub mod Wire
pub mod Merkle
pub mod Material
pub mod Parser
pub mod Proof
