-- ===== src/Json.antt =====
-- src/json.rs: the canonical JSON of a parsed block and of a parsed record file; the outcome of a block
-- proof is in Proof.
pub mod Proof
pub mod Access
pub mod Decimal
pub mod ReadBack
use Prim.Native.String.{String}
use hiero_streams_rs.Prelude.{
  ℕ, Bool, Option, none, some, List, [], ◌∷◌, ◌++◌, bytes_eq, if◌then◌else◌,
}
use hiero_streams_rs.Prelude.Int.{ℤ}
use hiero_streams_rs.Text.{Text, codes, show_ℕ, show_ℤ, text_leb}
use hiero_streams_rs.Transaction.{
  AccountId, TokenId, TransferLeg, TokenTransferLeg, NftTransfer, ParsedTransaction, dotted,
}
use hiero_streams_rs.Block.Parser.{ParsedBlock}
use hiero_streams_rs.Record.{ParsedRecordFile}

-- `serde_json::Value`, as far as it is built here.
mutual
  pub data Json : Type 0 where
    text : Text → Json
    number : ℤ → Json
    boolean : Bool → Json
    null : Json
    array : Elements → Json
    object : Members → Json

  pub data Elements : Type 0 where
    no_elements : Elements
    element : Json → Elements → Elements

  pub data Members : Type 0 where
    no_members : Members
    member : String → Json → Members → Members

-- `serde_json::Map`: an object keeps its members in the order of their keys, and the later of two
-- members with one key.
unfoldable pub insert_member : String → Json → Members → Members
insert_member k x no_members = member k x no_members
insert_member k x (member k' x' rest) =
    let below = insert_member k x rest in
    if bytes_eq (codes k) (codes k')
    then member k x rest
    else if text_leb (codes k) (codes k')
    then member k x (member k' x' rest)
    else member k' x' below

unfoldable pub insert_members : Members → Members → Members
insert_members no_members map = map
insert_members (member k x rest) map = insert_members rest (insert_member k x map)

-- `json!` of the members that the source writes.
unfoldable pub json_object : Members → Json
json_object written = object (insert_members written no_members)

-- `iter().map(f).collect::<Vec<_>>()` as a JSON array.
pub elements {ℓ} : {A : Type ℓ} → (A → Json) → List A → Elements
elements f [] = no_elements
elements f (x ∷ xs) = element (f x) (elements f xs)

-- `Display` of an account and of a token, and "" for a missing account.
pub show_account : AccountId → Text
show_account a = dotted a.shard_num a.realm_num a.account_num

pub show_token : TokenId → Text
show_token t = dotted t.shard_num t.realm_num t.token_num

pub show_account_or_empty : Option AccountId → Text
show_account_or_empty none = []
show_account_or_empty (some a) = show_account a

pub transfer_value : TransferLeg → Json
transfer_value l =
    json_object
      (member "account" (text l.account) (member "amount" (text (show_ℤ l.amount)) no_members))

pub token_transfer_value : TokenTransferLeg → Json
token_transfer_value l = json_object (
    member "token" (text l.token)
      (member "account" (text l.account) (member "amount" (text (show_ℤ l.amount)) no_members)))

pub nft_transfer_value : NftTransfer → Json
nft_transfer_value l = json_object (
    member "sender" (text (show_account_or_empty l.sender)) (
      member "receiver" (text (show_account_or_empty l.receiver)) (
        member "token" (text (show_token l.token)) (
          member "serialNumber" (text (show_ℤ l.serial_number))
            (member "isApproval" (boolean l.is_approval) no_members)))))

pub transaction_value : ParsedTransaction → Json
transaction_value t = json_object (
    member "consensusTimestamp" (text t.consensus_timestamp) (
      member "day" (text t.day) (
        member "payer" (text t.payer) (
          member "transactionId" (text t.transaction_id) (
            member "type" (text t.tx_type) (
              member "resultCode" (number t.result_code) (
                member "result" (text t.result) (
                  member "chargedFeeTinybar" (text (show_ℕ t.charged_fee_tinybar)) (
                    member "transfers" (array (elements transfer_value t.transfers)) (
                      member "tokenTransfers"
                        (array (elements token_transfer_value t.token_transfers))
                        (member "nftTransfers" (array (elements nft_transfer_value t.nft_transfers))
                          no_members)))))))))))

pub block_to_json_value : ParsedBlock → Json
block_to_json_value block = json_object (
    member "format" (text (codes "block-stream")) (
      member "blockNumber" (text (show_ℕ block.block_number)) (
        member "hapiVersion" (text block.hapi_version) (
          member "rounds" (array (elements (λ r. text (show_ℕ r)) block.rounds)) (
            member "transactions" (array (elements transaction_value block.transactions))
              no_members)))))

pub record_file_to_json_value : ParsedRecordFile → Json
record_file_to_json_value f = json_object (
    member "version" (number f.version) (
      member "blockNumber" (text (show_ℤ f.block_number)) (
        member "hapiVersion" (text f.hapi_version)
          (member "transactions" (array (elements transaction_value f.transactions)) no_members))))
