-- ===== src/Record.antt =====
-- src/record/mod.rs: the parser of v6 record files. `Record.Verify` has src/record/verify.rs.
pub mod Verify
pub mod Parse
use hiero_streams_rs.Prelude.{
  ℕ, ◌+◌, Bool, Option, none, some, List, [], ◌∷◌, map, ltb, if◌then◌else◌, length, drop, Bytes,
  not,
}
use hiero_streams_rs.Prelude.Int.{ℤ, pos, eqb_ℤ}
use hiero_streams_rs.Result.{Result, ok, err, ◌>>=◌, too_short, unsupported_version}
use hiero_streams_rs.Text.{Text, show_ℤ}
use hiero_streams_rs.Stream.{Gzip, inflate, i32_from_be_bytes}
use hiero_streams_rs.Hapi
use hiero_streams_rs.Hapi.{
  Prost, SemanticVersion, TransactionBody, TransactionId, decoded_ok, or_decode_error,
}
use hiero_streams_rs.Proto
use hiero_streams_rs.Proto.{
  HashObject, Transaction, TransactionReceipt, TransactionRecord, RecordStreamItem,
  RecordStreamFile,
}
use hiero_streams_rs.Transaction.{
  ParsedTransaction, dotted, account_entity_id, consensus_string, transaction_id_string, tx_type_of,
  transfer_legs, token_legs, nft_legs, seconds_of,
}
use hiero_streams_rs.Transaction.Calendar.{day_from_seconds}

pub record ParsedRecordFile : Type 0 where
  pub version : ℤ
  pub block_number : ℤ
  pub start_running_hash : Bytes
  pub end_running_hash : Bytes
  pub hapi_version : Text
  pub transactions : List ParsedTransaction

abbrev pub no_version : SemanticVersion
no_version = record { major = pos 0; minor = pos 0; patch = pos 0 }

-- `unwrap_or_default` on a version, and on the hash of a hash object.
unfoldable pub version_or_default : Option SemanticVersion → SemanticVersion
version_or_default none = no_version
version_or_default (some v) = v

unfoldable pub hash_or_default : Option HashObject → Bytes
hash_or_default none = []
hash_or_default (some h) = h.hash

pub payer_of : Option TransactionId → Text
payer_of none = []
payer_of (some id) = account_entity_id id.account_id

status_of : Option TransactionReceipt → ℤ
status_of none = pos 0
status_of (some r) = r.status

-- The version in the first four bytes, and what follows them.
unfoldable pub split_header : Bytes → Result (ℤ × Bytes)
split_header (a ∷ (b ∷ (c ∷ (d ∷ rest)))) = ok (i32_from_be_bytes a b c d, rest)
split_header _ = err too_short

unfoldable pub filter_map {ℓ κ} : {A : Type ℓ} {B : Type κ} → (A → Option B) → List A → List B
filter_map f [] = []
filter_map f (x ∷ xs) = elim (f x) [ none ↦ filter_map f xs | some y ↦ y ∷ filter_map f xs ]

module _ ⦃pr : Proto.Proto⦄ where
  -- `decode(bytes).ok()` of a signed transaction and of its body.
  body_of_signed : Bytes → Option TransactionBody
  body_of_signed signed_transaction_bytes =
      elim (pr.decode_signed_transaction signed_transaction_bytes) [
        | Hapi.Decoded.failure _ ↦ none
        | Hapi.Decoded.value signed ↦ decoded_ok (pr.decode_transaction_body signed.body_bytes)
      ]

  pub decode_body : Option Transaction → Option TransactionBody
  decode_body none = none
  decode_body (some tx) = elim tx.signed_transaction_bytes [
    | b ∷ bs ↦ body_of_signed (b ∷ bs)
    | [] ↦ elim tx.body_bytes [
      | b ∷ bs ↦ decoded_ok (pr.decode_transaction_body (b ∷ bs))
      | [] ↦ tx.body
    ]
  ]

  module _ ⦃pb : Prost⦄ where
    -- The record era's names first, then the block era's, then the number.
    pub response_code_name : ℤ → Text
    response_code_name code = elim (pr.response_code code) [
      | some name ↦ name
      | none ↦ elim (pb.response_code code) [ some name ↦ name | none ↦ show_ℤ code ]
    ]

    transaction_of : Option TransactionBody → TransactionRecord → ParsedTransaction
    transaction_of body r =
        let result_code = status_of r.receipt in
        record {
          consensus_timestamp = consensus_string r.consensus_timestamp;
          day = day_from_seconds (seconds_of r.consensus_timestamp);
          payer = payer_of r.transaction_id;
          transaction_id = transaction_id_string r.transaction_id;
          tx_type = tx_type_of body;
          result_code = result_code;
          result = response_code_name result_code;
          charged_fee_tinybar = r.transaction_fee;
          transfers = transfer_legs r.transfer_list;
          token_transfers = token_legs r.token_transfer_lists;
          nft_transfers = nft_legs r.token_transfer_lists;
        }

    pub parse_item : RecordStreamItem → Option ParsedTransaction
    parse_item item = elim item.transaction_record [
      | none ↦ none
      | some r ↦ some (transaction_of (decode_body item.transaction) r)
    ]

    unfoldable pub parsed_file : ℤ → RecordStreamFile → ParsedRecordFile
    parsed_file version file =
        let v = version_or_default file.hapi_proto_version in
        record {
          version = version;
          block_number = file.block_number;
          start_running_hash = hash_or_default file.start_object_running_hash;
          end_running_hash = hash_or_default file.end_object_running_hash;
          hapi_version = dotted v.major v.minor v.patch;
          transactions = filter_map parse_item file.record_stream_items;
        }

    module _ ⦃gz : Gzip⦄ where
      unfoldable pub parse_record_file : Bytes → Result ParsedRecordFile
      parse_record_file bytes = do
        buf ← inflate bytes
        (version, message) ← split_header buf
        if not (eqb_ℤ version (pos 6)) then err (unsupported_version version) else (do
          file ← or_decode_error (pr.decode_record_stream_file message)
          ok (parsed_file version file))
