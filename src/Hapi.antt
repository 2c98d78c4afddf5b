-- ===== src/Hapi.antt =====
-- The protobuf messages of the block era (proto-hapi), as far as the source reads their fields, and
-- the decoders that `prost` generates for them, as an interface.
use Prim.Native.String.{String}
use hiero_streams_rs.Prelude.{ℕ, Option, none, some, List, Bytes, Bool}
use hiero_streams_rs.Prelude.Int.{ℤ}
use hiero_streams_rs.Text.{Text}
use hiero_streams_rs.Result.{Result, ok, err, decode_error}

pub record Timestamp : Type 0 where
  pub seconds : ℤ
  pub nanos : ℤ

pub record SemanticVersion : Type 0 where
  pub major : ℤ
  pub minor : ℤ
  pub patch : ℤ

-- The `account` oneof: a number, or an alias.
pub data Account : Type 0 where
  account_num : ℤ → Account
  alias : Bytes → Account

pub record AccountId : Type 0 where
  pub shard_num : ℤ
  pub realm_num : ℤ
  pub account : Option Account

pub record TokenId : Type 0 where
  pub shard_num : ℤ
  pub realm_num : ℤ
  pub token_num : ℤ

pub record TransactionId : Type 0 where
  pub account_id : Option AccountId
  pub transaction_valid_start : Option Timestamp

pub record AccountAmount : Type 0 where
  pub account_id : Option AccountId
  pub amount : ℤ

pub record NftTransfer : Type 0 where
  pub sender_account_id : Option AccountId
  pub receiver_account_id : Option AccountId
  pub serial_number : ℤ
  pub is_approval : Bool

pub record TokenTransferList : Type 0 where
  pub token : Option TokenId
  pub transfers : List AccountAmount
  pub nft_transfers : List NftTransfer

pub record TransferList : Type 0 where
  pub account_amounts : List AccountAmount

pub record LedgerIdNodeContribution : Type 0 where
  pub node_id : ℕ
  pub weight : ℕ
  pub history_proof_key : Bytes

pub record LedgerIdPublication : Type 0 where
  pub ledger_id : Bytes
  pub history_proof_verification_key : Bytes
  pub node_contributions : List LedgerIdNodeContribution

-- The `data` oneof: its `Debug` text, in the pieces that the formatter writes, and the publication
-- where that is the case it holds.
pub record BodyData : Type 0 where
  pub debug : List Text
  pub ledger_id_publication : Option LedgerIdPublication

pub record TransactionBody : Type 0 where
  pub transaction_id : Option TransactionId
  pub body_data : Option BodyData

pub record SignedTransaction : Type 0 where
  pub body_bytes : Bytes

pub record TransactionResult : Type 0 where
  pub status : ℤ
  pub consensus_timestamp : Option Timestamp
  pub transaction_fee_charged : ℕ
  pub transfer_list : Option TransferList
  pub token_transfer_lists : List TokenTransferList

pub record BlockHeader : Type 0 where
  pub hapi_proto_version : Option SemanticVersion
  pub number : ℕ
  pub block_timestamp : Option Timestamp

pub record BlockFooter : Type 0 where
  pub previous_block_root_hash : Bytes
  pub root_hash_of_all_block_hashes_tree : Bytes
  pub start_of_block_state_root_hash : Bytes

-- The `proof` oneof of a `BlockProof`.
pub data Proof : Type 0 where
  signed_block_proof : Bytes → Proof
  block_state_proof signed_record_file_proof : Proof

pub record BlockProof : Type 0 where
  pub proof : Option Proof

-- The creator of an event, where the header has an `event_core`.
pub record EventHeader : Type 0 where
  pub creator_node_id : Option ℤ

-- The `item` oneof; the cases that no code reads carry their field number.
pub data Item : Type 0 where
  block_header : BlockHeader → Item
  event_header : EventHeader → Item
  round_header : ℕ → Item
  signed_transaction : Bytes → Item
  transaction_result : TransactionResult → Item
  block_proof : BlockProof → Item
  block_footer : BlockFooter → Item
  other_item : ℕ → Item

-- What a generated `decode` gives.
pub data Decoded {ℓ} (A : Type ℓ) : Type ℓ where
  value : A → Decoded A
  failure : String → Decoded A

-- The `?` on a `decode`, and its `.ok()`.
abbrev pub or_decode_error {ℓ} : {A : Type ℓ} → Decoded A → Result A
or_decode_error (value a) = ok a
or_decode_error (failure e) = err (decode_error e)

abbrev pub decoded_ok {ℓ} : {A : Type ℓ} → Decoded A → Option A
decoded_ok (value a) = some a
decoded_ok (failure e) = none

pub record Prost : Type 0 where
  pub decode_block : Bytes → Decoded (List (Option Item))
  pub decode_block_item : Bytes → Decoded (Option Item)
  pub decode_signed_transaction : Bytes → Decoded SignedTransaction
  pub decode_transaction_body : Bytes → Decoded TransactionBody
  pub encode_timestamp : Timestamp → Bytes
  -- `ResponseCodeEnum::try_from(code)` and its `as_str_name`.
  pub response_code : ℤ → Option Text
