-- ===== src/Etl/Parquet.antt =====
-- src/cli/etl/parquet.rs: the rows of the two Parquet files of a day. The writer is the `parquet` crate.
use hiero_streams_rs.Prelude.{Option, none, some, List, [], ◌∷◌, ◌++◌, map}
use hiero_streams_rs.Prelude.Int.{ℤ, pos, negsuc}
use hiero_streams_rs.Text.{Text, show_ℤ}
use hiero_streams_rs.Transaction.{
  AccountId, TransferLeg, TokenTransferLeg, NftTransfer, ParsedTransaction,
}
use hiero_streams_rs.Json.{show_account, show_token}

pub record LegRow : Type 0 where
  pub consensus_timestamp : Text
  pub account : Text
  pub amount : ℤ
  pub token : Option Text

-- "shard.realm.num#serial"
unfoldable pub serial_token : NftTransfer → Text
serial_token leg = show_token leg.token ++ (b'#' ∷ show_ℤ leg.serial_number)

-- One side of an NFT leg, or no row where it is missing.
unfoldable pub side_row : Text → Text → ℤ → Option AccountId → List LegRow
side_row timestamp token amount none = []
side_row timestamp token amount (some account) =
    record {
      consensus_timestamp = timestamp;
      account = show_account account;
      amount = amount;
      token = some token;
    }
    ∷ []

unfoldable pub nft_leg_rows : Text → NftTransfer → List LegRow
nft_leg_rows timestamp leg =
    let token = serial_token leg in
    side_row timestamp token (negsuc 0) leg.sender ++ side_row timestamp token (pos 1) leg.receiver

unfoldable pub hbar_row : Text → TransferLeg → LegRow
hbar_row timestamp leg = record {
  consensus_timestamp = timestamp;
  account = leg.account;
  amount = leg.amount;
  token = none;
}

unfoldable pub token_row : Text → TokenTransferLeg → LegRow
token_row timestamp leg = record {
  consensus_timestamp = timestamp;
  account = leg.account;
  amount = leg.amount;
  token = some leg.token;
}

-- `flat_map`
unfoldable pub concat_map : {A B : Type 0} → (A → List B) → List A → List B
concat_map f [] = []
concat_map f (x ∷ xs) = f x ++ concat_map f xs

-- The rows of one transaction: its HBAR legs, its token legs, its NFT legs.
unfoldable pub transaction_legs : ParsedTransaction → List LegRow
transaction_legs tx =
    map (hbar_row tx.consensus_timestamp) tx.transfers
    ++ (map (token_row tx.consensus_timestamp) tx.token_transfers
        ++ concat_map (nft_leg_rows tx.consensus_timestamp) tx.nft_transfers)

unfoldable pub leg_rows : List ParsedTransaction → List LegRow
leg_rows rows = concat_map transaction_legs rows
