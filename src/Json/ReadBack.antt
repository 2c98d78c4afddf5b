-- ===== src/Json/ReadBack.antt =====
-- A reader of the canonical JSON of src/json.rs, by the keys of its objects, and what it reads of what
-- the source writes.
use hiero_streams_rs.Prelude.{ℕ, ◌≡◌, refl, ◌∙◌, Option, none, some, List, [], ◌∷◌, ◌++◌}
use hiero_streams_rs.Prelude.Int.{ℤ}
use hiero_streams_rs.Text.{Text, show_ℕ, show_ℤ, text_leb}
use hiero_streams_rs.Transaction.{
  AccountId, TokenId, TransferLeg, TokenTransferLeg, NftTransfer, ParsedTransaction, dotted,
}
use hiero_streams_rs.Transaction.Calendar.DayOf.{parse_magnitude, parse_magnitude-show_ℕ}
use hiero_streams_rs.Block.Parser.{ParsedBlock}
use hiero_streams_rs.Record.{ParsedRecordFile}
use hiero_streams_rs.Json.{
  Json, text, number, boolean, array, object, null, Elements, no_elements, element, elements,
  json_object, insert_members, insert_member, show_account, show_token, show_account_or_empty,
  transfer_value, token_transfer_value, nft_transfer_value, transaction_value, block_to_json_value,
  record_file_to_json_value,
}
use hiero_streams_rs.Json.Access.{member_of, index, as_str, as_bool}
use hiero_streams_rs.Json.Decimal.{◌>>=◌, big_int, big_int-show_ℤ, read_dotted, read_dotted-dotted}

unfoldable pub as_number : Json → Option ℤ
as_number (number n) = some n
as_number (text t) = none
as_number (object fs) = none
as_number (boolean b) = none
as_number null = none
as_number (array xs) = none

unfoldable pub read_elements {ℓ} : {A : Type ℓ} → (Json → Option A) → Elements → Option (List A)
read_elements read no_elements = some []
read_elements read (element x xs) =
    read x >>= (λ a. read_elements read xs >>= (λ rest. some (a ∷ rest)))

unfoldable pub read_array {ℓ} : {A : Type ℓ} → (Json → Option A) → Json → Option (List A)
read_array read (array xs) = read_elements read xs
read_array read (number n) = none
read_array read (text t) = none
read_array read (object fs) = none
read_array read (boolean b) = none
read_array read null = none

abbrev pub read_natural : Json → Option ℕ
read_natural v = as_str v >>= parse_magnitude

abbrev pub read_integer : Json → Option ℤ
read_integer v = as_str v >>= big_int

unfoldable pub read_account : Text → Option (Option AccountId)
read_account [] = some none
read_account (c ∷ cs) =
    read_dotted (λ a b n. some (record { shard_num = a; realm_num = b; account_num = n })) (c ∷ cs)

unfoldable pub read_token : Text → Option TokenId
read_token t = read_dotted (λ a b n. record { shard_num = a; realm_num = b; token_num = n }) t

unfoldable pub read_transfer : Json → Option TransferLeg
read_transfer v = do
  account ← as_str (index v "account")
  amount ← read_integer (index v "amount")
  some (record { account = account; amount = amount })

unfoldable pub read_token_transfer : Json → Option TokenTransferLeg
read_token_transfer v = do
  token ← as_str (index v "token")
  account ← as_str (index v "account")
  amount ← read_integer (index v "amount")
  some (record { token = token; account = account; amount = amount })

unfoldable pub read_nft_transfer : Json → Option NftTransfer
read_nft_transfer v = do
  sender ← as_str (index v "sender") >>= read_account
  receiver ← as_str (index v "receiver") >>= read_account
  token ← as_str (index v "token") >>= read_token
  serial_number ← read_integer (index v "serialNumber")
  is_approval ← as_bool (index v "isApproval")
  some (record {
    sender = sender;
    receiver = receiver;
    token = token;
    serial_number = serial_number;
    is_approval = is_approval;
  })

unfoldable pub read_transaction : Json → Option ParsedTransaction
read_transaction v = do
  consensus_timestamp ← as_str (index v "consensusTimestamp")
  day ← as_str (index v "day")
  payer ← as_str (index v "payer")
  transaction_id ← as_str (index v "transactionId")
  tx_type ← as_str (index v "type")
  result_code ← as_number (index v "resultCode")
  result ← as_str (index v "result")
  charged_fee_tinybar ← read_natural (index v "chargedFeeTinybar")
  transfers ← read_array read_transfer (index v "transfers")
  token_transfers ← read_array read_token_transfer (index v "tokenTransfers")
  nft_transfers ← read_array read_nft_transfer (index v "nftTransfers")
  some (record {
    consensus_timestamp = consensus_timestamp;
    day = day;
    payer = payer;
    transaction_id = transaction_id;
    tx_type = tx_type;
    result_code = result_code;
    result = result;
    charged_fee_tinybar = charged_fee_tinybar;
    transfers = transfers;
    token_transfers = token_transfers;
    nft_transfers = nft_transfers;
  })

unfoldable pub read_block : Json → Option ParsedBlock
read_block v = do
  block_number ← read_natural (index v "blockNumber")
  hapi_version ← as_str (index v "hapiVersion")
  rounds ← read_array read_natural (index v "rounds")
  transactions ← read_array read_transaction (index v "transactions")
  some (record {
    block_number = block_number;
    hapi_version = hapi_version;
    rounds = rounds;
    transactions = transactions;
  })

read_elements-elements {ℓ} :
    {A : Type ℓ} (read : Json → Option A) (write : A → Json)
    → ((x : A) → read (write x) ≡ some x)
    → (xs : List A) → read_elements read (elements write xs) ≡ some xs
unfolding read_elements elements
read_elements-elements read write h [] = refl
read_elements-elements read write h (x ∷ xs) = rw (h x, read_elements-elements read write h xs) refl

-- A text with a dot in it is not empty.
read_account_nonempty :
    (xs rest : Text)
    → read_account (xs ++ (b'.' ∷ rest))
      ≡ read_dotted
          (λ a b n. some (record { shard_num = a; realm_num = b; account_num = n }))
          (xs ++ (b'.' ∷ rest))
unfolding read_account
read_account_nonempty [] rest = refl
read_account_nonempty (x ∷ xs) rest = refl

read_account-show : (o : Option AccountId) → read_account (show_account_or_empty o) ≡ some o
unfolding show_account_or_empty show_account dotted read_account
read_account-show none = refl
read_account-show (some a) =
    read_account_nonempty (show_ℤ a.shard_num) _
    ∙ read_dotted-dotted (λ s r n. some (record { shard_num = s; realm_num = r; account_num = n }))
        a.shard_num a.realm_num a.account_num

read_token-show : (t : TokenId) → read_token (show_token t) ≡ some t
unfolding read_token show_token
read_token-show t =
    read_dotted-dotted (λ s r n. record { shard_num = s; realm_num = r; token_num = n }) t.shard_num
      t.realm_num t.token_num

read_transfer-value : (l : TransferLeg) → read_transfer (transfer_value l) ≡ some l
unfolding read_transfer transfer_value index member_of as_str json_object insert_members
    insert_member text_leb
read_transfer-value l = rw (big_int-show_ℤ l.amount) refl

read_token_transfer-value :
    (l : TokenTransferLeg) → read_token_transfer (token_transfer_value l) ≡ some l
unfolding read_token_transfer token_transfer_value index member_of as_str json_object insert_members
    insert_member text_leb
read_token_transfer-value l = rw (big_int-show_ℤ l.amount) refl

read_nft_transfer-value : (l : NftTransfer) → read_nft_transfer (nft_transfer_value l) ≡ some l
unfolding read_nft_transfer nft_transfer_value index member_of as_str as_bool json_object
    insert_members insert_member text_leb
read_nft_transfer-value l =
    rw
      (
        read_account-show l.sender,
        read_account-show l.receiver,
        read_token-show l.token,
        big_int-show_ℤ l.serial_number,
      )
      refl

read_transaction-value : (t : ParsedTransaction) → read_transaction (transaction_value t) ≡ some t
unfolding read_transaction transaction_value index member_of as_str as_number read_array json_object
    insert_members insert_member text_leb
read_transaction-value t =
    rw
      (
        parse_magnitude-show_ℕ t.charged_fee_tinybar,
        read_elements-elements read_transfer transfer_value read_transfer-value t.transfers,
        read_elements-elements read_token_transfer token_transfer_value read_token_transfer-value
            t.token_transfers,
        read_elements-elements read_nft_transfer nft_transfer_value read_nft_transfer-value
            t.nft_transfers,
      )
      refl

-- A reader that goes by the keys gets every block back from its JSON, with all of its transactions and
-- their legs, and the number, the version and all transactions of every record file; each integer but
-- a result code and a record file's version is read from a decimal text, so that none is rounded.
pub read_block-block_to_json_value :
    (block : ParsedBlock) (file : ParsedRecordFile)
    → (read_block (block_to_json_value block) ≡ some block)
      × (as_number (index (record_file_to_json_value file) "version") ≡ some file.version)
      × (read_integer (index (record_file_to_json_value file) "blockNumber")
          ≡ some file.block_number)
      × (as_str (index (record_file_to_json_value file) "hapiVersion") ≡ some file.hapi_version)
      × (read_array read_transaction (index (record_file_to_json_value file) "transactions")
          ≡ some file.transactions)
unfolding read_block block_to_json_value record_file_to_json_value index member_of as_str as_number
    read_array json_object insert_members insert_member text_leb
read_block-block_to_json_value block file = (
  rw
      (
        parse_magnitude-show_ℕ block.block_number,
        read_elements-elements read_natural (λ r. text (show_ℕ r)) parse_magnitude-show_ℕ
            block.rounds,
        read_elements-elements read_transaction transaction_value read_transaction-value
            block.transactions,
      )
      refl,
  refl,
  big_int-show_ℤ file.block_number,
  refl,
  read_elements-elements read_transaction transaction_value read_transaction-value
      file.transactions,
)
