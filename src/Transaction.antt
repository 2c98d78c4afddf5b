-- ===== src/Transaction.antt =====
-- src/transaction.rs: the transactions that both eras' parsers produce; and the conversions from the
-- messages that src/block/mod.rs and src/record/mod.rs each hold a copy of. The two generated
-- namespaces give these messages the same fields, so that one definition stands for both copies.
pub mod Calendar
use hiero_streams_rs.Prelude.{
  ℕ, ◌+◌, Bool, true, false, ◌||◌, Option, none, some, List, [], ◌∷◌, ◌++◌, map, ◌==◌, leb, ◌&&◌,
  if◌then◌else◌,
}
use hiero_streams_rs.Prelude.Int.{ℤ, pos}
use hiero_streams_rs.Text.{Text, codes, show_ℤ, show_padded}
use hiero_streams_rs.Hapi

pub record AccountId : Type 0 where
  pub shard_num : ℤ
  pub realm_num : ℤ
  pub account_num : ℤ

pub record TokenId : Type 0 where
  pub shard_num : ℤ
  pub realm_num : ℤ
  pub token_num : ℤ

pub record TransferLeg : Type 0 where
  pub account : Text
  pub amount : ℤ

pub record TokenTransferLeg : Type 0 where
  pub token : Text
  pub account : Text
  pub amount : ℤ

pub record NftTransfer : Type 0 where
  pub sender : Option AccountId
  pub receiver : Option AccountId
  pub token : TokenId
  pub serial_number : ℤ
  pub is_approval : Bool

pub record ParsedTransaction : Type 0 where
  pub consensus_timestamp : Text
  pub day : Text
  pub payer : Text
  pub transaction_id : Text
  pub tx_type : Text
  pub result_code : ℤ
  pub result : Text
  pub charged_fee_tinybar : ℕ
  pub transfers : List TransferLeg
  pub token_transfers : List TokenTransferLeg
  pub nft_transfers : List NftTransfer

-- `format!("{}.{}.{}", a, b, c)`
unfoldable pub dotted : ℤ → ℤ → ℤ → Text
dotted a b c = show_ℤ a ++ (b'.' ∷ (show_ℤ b ++ (b'.' ∷ show_ℤ c)))

-- The number of an account; an alias, or none, is 0.
account_num_of : Option Hapi.Account → ℤ
account_num_of (some (Hapi.Account.account_num n)) = n
account_num_of _ = pos 0

pub account_entity_id : Option Hapi.AccountId → Text
account_entity_id none = []
account_entity_id (some a) = dotted a.shard_num a.realm_num (account_num_of a.account)

pub account_id : Option Hapi.AccountId → Option AccountId
account_id none = none
account_id (some a) = some (record {
  shard_num = a.shard_num;
  realm_num = a.realm_num;
  account_num = account_num_of a.account;
})

pub token_entity_id : Option Hapi.TokenId → Text
token_entity_id none = []
token_entity_id (some t) = dotted t.shard_num t.realm_num t.token_num

pub token_id : Option Hapi.TokenId → TokenId
token_id none = record { shard_num = pos 0; realm_num = pos 0; token_num = pos 0 }
token_id (some t) = record {
  shard_num = t.shard_num;
  realm_num = t.realm_num;
  token_num = t.token_num;
}

pub consensus_string : Option Hapi.Timestamp → Text
consensus_string none = show_ℤ (pos 0) ++ (b'.' ∷ show_padded 9 (pos 0))
consensus_string (some t) = show_ℤ t.seconds ++ (b'.' ∷ show_padded 9 t.nanos)

pub transaction_id_string : Option Hapi.TransactionId → Text
transaction_id_string none = []
transaction_id_string (some id) = elim id.account_id [
  | none ↦ []
  | some a ↦ elim id.transaction_valid_start [
    | none ↦ []
    | some t ↦ account_entity_id (some a) ++ (b'@' ∷ consensus_string (some t))
  ]
]

-- The characters that end a variant's name in its `Debug` text.
is_delimiter : ℕ → Bool
is_delimiter c = (c == b'(') || ((c == b' ') || (c == b'{'))

-- The sink `Prefix`: what it has captured when the writer stops.
captured : Text → Text
captured [] = []
captured (c ∷ cs) = if is_delimiter c then [] else c ∷ captured cs

-- Whether a piece stops the formatter.
stops : Text → Bool
stops [] = false
stops (c ∷ cs) = if is_delimiter c then true else stops cs

captured_pieces : List Text → Text
captured_pieces [] = []
captured_pieces (piece ∷ pieces) =
    let rest = captured_pieces pieces in
    if stops piece then captured piece else captured piece ++ rest

-- `char::to_lowercase` on an ASCII character; a variant's name begins with one.
to_lowercase : ℕ → ℕ
to_lowercase c = if leb b'A' c && leb c b'Z' then c + 32 else c

-- The argument is the `Debug` text, in the pieces that the formatter writes.
pub debug_variant_camel : List Text → Text
debug_variant_camel data_debug = elim (captured_pieces data_debug) [
  | [] ↦ codes "unknown"
  | first ∷ rest ↦ to_lowercase first ∷ rest
]

pub tx_type_of : Option Hapi.TransactionBody → Text
tx_type_of none = codes "unknown"
tx_type_of (some b) = elim b.body_data [
  | none ↦ codes "unknown"
  | some d ↦ debug_variant_camel d.debug
]

pub transfer_legs : Option Hapi.TransferList → List TransferLeg
transfer_legs none = []
transfer_legs (some l) =
    map (λ leg. record { account = account_entity_id leg.account_id; amount = leg.amount })
      l.account_amounts

-- `flat_map` over the lists of one transaction.
flat_map {ℓ κ} : {A : Type ℓ} {B : Type κ} → (A → List B) → List A → List B
flat_map f [] = []
flat_map f (x ∷ xs) = f x ++ flat_map f xs

pub token_legs : List Hapi.TokenTransferList → List TokenTransferLeg
token_legs = flat_map λ l.
    map
      (λ leg. record {
        token = token_entity_id l.token;
        account = account_entity_id leg.account_id;
        amount = leg.amount;
      })
      l.transfers

pub nft_legs : List Hapi.TokenTransferList → List NftTransfer
nft_legs = flat_map λ l.
    map
      (λ leg. record {
        sender = account_id leg.sender_account_id;
        receiver = account_id leg.receiver_account_id;
        token = token_id l.token;
        serial_number = leg.serial_number;
        is_approval = leg.is_approval;
      })
      l.nft_transfers

unfoldable pub seconds_of : Option Hapi.Timestamp → ℤ
seconds_of none = pos 0
seconds_of (some t) = t.seconds
