-- ===== src/Hex.antt =====
-- The `hex` crate, as an interface.
use hiero_streams_rs.Prelude.{◌≡◌, Bytes}
use hiero_streams_rs.Text.{Text}

-- `hex::encode`, which writes different bytes as different texts.
pub record Hex : Type 0 where
  pub encode : Bytes → Text
  pub encode_injective : (a b : Bytes) → encode a ≡ encode b → a ≡ b
