-- ===== src/Proto.antt =====
-- The protobuf messages of the record era (proto), as far as the source reads their fields, and the
-- decoders that `prost` generates for them, as an interface. The messages that both eras share are
-- those of `Hapi`.
use hiero_streams_rs.Prelude.{ℕ, Option, List, Bytes}
use hiero_streams_rs.Prelude.Int.{ℤ}
use hiero_streams_rs.Text.{Text}
use hiero_streams_rs.Hapi
use hiero_streams_rs.Hapi.{Decoded}

pub record HashObject : Type 0 where
  pub hash : Bytes

pub record SignatureObject : Type 0 where
  pub hash_object : Option HashObject
  pub signature : Bytes

pub record SignatureFile : Type 0 where
  pub file_signature : Option SignatureObject
  pub metadata_signature : Option SignatureObject

pub record NodeAddress : Type 0 where
  pub node_account_id : Option Hapi.AccountId
  pub rsa_pub_key : Text

pub record NodeAddressBook : Type 0 where
  pub node_address : List NodeAddress

pub record Transaction : Type 0 where
  pub signed_transaction_bytes : Bytes
  pub body_bytes : Bytes
  pub body : Option Hapi.TransactionBody

pub record TransactionReceipt : Type 0 where
  pub status : ℤ

pub record TransactionRecord : Type 0 where
  pub receipt : Option TransactionReceipt
  pub transaction_id : Option Hapi.TransactionId
  pub consensus_timestamp : Option Hapi.Timestamp
  pub transaction_fee : ℕ
  pub transfer_list : Option Hapi.TransferList
  pub token_transfer_lists : List Hapi.TokenTransferList

pub record RecordStreamItem : Type 0 where
  pub transaction : Option Transaction
  pub transaction_record : Option TransactionRecord

pub record RecordStreamFile : Type 0 where
  pub hapi_proto_version : Option Hapi.SemanticVersion
  pub start_object_running_hash : Option HashObject
  pub record_stream_items : List RecordStreamItem
  pub end_object_running_hash : Option HashObject
  pub block_number : ℤ

pub record Proto : Type 0 where
  pub decode_signature_file : Bytes → Decoded SignatureFile
  pub decode_node_address_book : Bytes → Decoded NodeAddressBook
  pub decode_record_stream_file : Bytes → Decoded RecordStreamFile
  pub decode_signed_transaction : Bytes → Decoded Hapi.SignedTransaction
  pub decode_transaction_body : Bytes → Decoded Hapi.TransactionBody
  -- `ResponseCodeEnum::try_from(code)` and its `as_str_name`.
  pub response_code : ℤ → Option Text
