-- ===== src/Examples/Json.antt =====
-- An example for the canonical JSON.
use hiero_streams_rs.Prelude.{◌≡◌, true, none, some, [], ◌∷◌}
use hiero_streams_rs.Prelude.Int.{pos, negsuc}
use hiero_streams_rs.Text.{codes}
use hiero_streams_rs.Transaction.{ParsedTransaction}
use hiero_streams_rs.Block.Parser.{ParsedBlock}
use hiero_streams_rs.Record.{ParsedRecordFile}
use hiero_streams_rs.Json.{block_to_json_value, record_file_to_json_value}
use hiero_streams_rs.Json.Access.{index, as_str}
use hiero_streams_rs.Json.ReadBack.{
  as_number, read_integer, read_array, read_transaction, read_block, read_block-block_to_json_value,
}

-- A mint of an NFT, with a payment.
abbrev mint : ParsedTransaction
mint = record {
  consensus_timestamp = codes "5.000000006";
  day = codes "1970-01-01";
  payer = codes "0.0.7";
  transaction_id = codes "0.0.7@4.0";
  tx_type = codes "tokenMint";
  result_code = pos 22;
  result = codes "SUCCESS";
  charged_fee_tinybar = 9007199254740993;
  transfers = record { account = codes "0.0.7"; amount = negsuc 4 } ∷ [];
  token_transfers = record { token = codes "0.0.9"; account = codes "0.0.7"; amount = pos 1 } ∷ [];
  nft_transfers =
      record {
        sender = none;
        receiver = some (record { shard_num = pos 0; realm_num = pos 0; account_num = pos 7 });
        token = record { shard_num = pos 0; realm_num = pos 0; token_num = pos 9 };
        serial_number = pos 1;
        is_approval = true;
      }
      ∷ [];
}

abbrev minted_block : ParsedBlock
minted_block = record {
  block_number = 8;
  hapi_version = codes "0.47.0";
  rounds = 3 ∷ (4 ∷ []);
  transactions = mint ∷ [];
}

abbrev minted_file : ParsedRecordFile
minted_file = record {
  version = pos 6;
  block_number = pos 8;
  start_running_hash = [];
  end_running_hash = [];
  hapi_version = codes "0.47.0";
  transactions = mint ∷ (mint ∷ []);
}

read_block-block_to_json_value_example :
    (read_block (block_to_json_value minted_block) ≡ some minted_block)
    × (as_number (index (record_file_to_json_value minted_file) "version") ≡ some (pos 6))
    × (read_integer (index (record_file_to_json_value minted_file) "blockNumber") ≡ some (pos 8))
    × (as_str (index (record_file_to_json_value minted_file) "hapiVersion") ≡ some (codes "0.47.0"))
    × (read_array read_transaction (index (record_file_to_json_value minted_file) "transactions")
        ≡ some (mint ∷ (mint ∷ [])))
read_block-block_to_json_value_example = read_block-block_to_json_value minted_block minted_file
