-- ===== src/Block/Parser.antt =====
-- src/block/mod.rs: the block parser and the activity of a block's nodes. The conversions it shares
-- with the record parser are in `Transaction`.
pub mod Pairing
use hiero_streams_rs.Prelude.{
  ℕ, ◌+◌, ◌%◌, Bool, Option, none, some, List, [], ◌∷◌, ◌++◌, if◌then◌else◌, Bytes, u64_mod,
}
use hiero_streams_rs.Prelude.Int.{ℤ, pos, eqb_ℤ}
use hiero_streams_rs.Result.{Result, ok, ◌>>=◌}
use hiero_streams_rs.Text.{Text, codes, show_ℤ}
use hiero_streams_rs.Stream.{Gzip, inflate}
use hiero_streams_rs.Hapi
use hiero_streams_rs.Hapi.{
  Prost, Item, BlockHeader, EventHeader, SemanticVersion, TransactionBody, TransactionResult,
  TransactionId, decoded_ok, or_decode_error,
}
use hiero_streams_rs.Transaction.{
  ParsedTransaction, dotted, account_entity_id, consensus_string, transaction_id_string, tx_type_of,
  transfer_legs, token_legs, nft_legs, seconds_of,
}
use hiero_streams_rs.Transaction.Calendar.{day_from_seconds}

pub record ParsedBlock : Type 0 where
  pub block_number : ℕ
  pub hapi_version : Text
  pub rounds : List ℕ
  pub transactions : List ParsedTransaction

-- The id of a body, and its payer.
transaction_id_of : Option TransactionBody → Option TransactionId
transaction_id_of none = none
transaction_id_of (some b) = b.transaction_id

payer_of : Option TransactionId → Text
payer_of none = []
payer_of (some id) = account_entity_id id.account_id

version_or : Text → Option SemanticVersion → Text
version_or old none = old
version_or old (some v) = dotted v.major v.minor v.patch

-- The variables of the loop of `parse_block`.
pub record Parsing : Type 0 where
  pub block_number : ℕ
  pub hapi_version : Text
  pub rounds : List ℕ
  pub transactions : List ParsedTransaction
  pub pending : Option TransactionBody

abbrev pub new_parsing : Parsing
new_parsing = record {
  block_number = 0;
  hapi_version = codes "0.0.0";
  rounds = [];
  transactions = [];
  pending = none;
}

module _ ⦃pb : Prost⦄ where
  pub body_of : Bytes → Option TransactionBody
  body_of signed_transaction_bytes = elim (pb.decode_signed_transaction signed_transaction_bytes) [
    | Hapi.Decoded.failure _ ↦ none
    | Hapi.Decoded.value signed ↦ decoded_ok (pb.decode_transaction_body signed.body_bytes)
  ]

  result_name : ℤ → Text
  result_name code = elim (pb.response_code code) [ some name ↦ name | none ↦ show_ℤ code ]

  pub transaction_from : Option TransactionBody → TransactionResult → ParsedTransaction
  transaction_from body result =
      let transaction_id = transaction_id_of body in
      record {
        consensus_timestamp = consensus_string result.consensus_timestamp;
        day = day_from_seconds (seconds_of result.consensus_timestamp);
        payer = payer_of transaction_id;
        transaction_id = transaction_id_string transaction_id;
        tx_type = tx_type_of body;
        result_code = result.status;
        result = result_name result.status;
        charged_fee_tinybar = result.transaction_fee_charged;
        transfers = transfer_legs result.transfer_list;
        token_transfers = token_legs result.token_transfer_lists;
        nft_transfers = nft_legs result.token_transfer_lists;
      }

  pub parse_step : Parsing → Option Item → Parsing
  parse_step s (some (Item.block_header h)) = record s {
    block_number = h.number;
    hapi_version = version_or s.hapi_version h.hapi_proto_version;
  }
  parse_step s (some (Item.round_header r)) = record s { rounds = s.rounds ++ (r ∷ []) }
  parse_step s (some (Item.signed_transaction bytes)) = record s { pending = body_of bytes }
  parse_step s (some (Item.transaction_result result)) = record s {
    transactions = s.transactions ++ (transaction_from s.pending result ∷ []);
    pending = none;
  }
  parse_step s _ = s

  unfoldable pub parse_steps : Parsing → List (Option Item) → Parsing
  parse_steps s [] = s
  parse_steps s (item ∷ items) = parse_steps (parse_step s item) items

pub record BlockActivity : Type 0 where
  pub block_number : ℕ
  pub rounds : List ℕ
  pub events_by_node : List (ℤ × ℕ)

-- `*entry(creator).or_insert(0) += 1` on the map of counts, which no code reads in its order here.
unfoldable pub count_event : ℤ → List (ℤ × ℕ) → List (ℤ × ℕ)
count_event creator [] = (creator, 1) ∷ []
count_event creator ((node, n) ∷ counts) =
    let rest = count_event creator counts in
    if eqb_ℤ creator node then (node, n + 1) ∷ counts else (node, n) ∷ rest

-- `values().sum()`
pub total_events : List (ℤ × ℕ) → ℕ
total_events [] = 0
total_events ((node, n) ∷ counts) = n + total_events counts

unfoldable pub creator_of : EventHeader → ℤ
creator_of h = elim h.creator_node_id [ none ↦ pos 0 | some c ↦ c ]

unfoldable pub activity_step : BlockActivity → Option Item → BlockActivity
activity_step a (some (Item.block_header h)) = record a { block_number = h.number }
activity_step a (some (Item.round_header r)) = record a { rounds = a.rounds ++ (r ∷ []) }
activity_step a (some (Item.event_header h)) = record a {
  events_by_node = count_event (creator_of h) a.events_by_node;
}
activity_step a _ = a

unfoldable pub activity_steps : BlockActivity → List (Option Item) → BlockActivity
activity_steps a [] = a
activity_steps a (item ∷ items) = activity_steps (activity_step a item) items

module _ ⦃gz : Gzip⦄ ⦃pb : Prost⦄ where
  unfoldable pub block_activity : Bytes → Result BlockActivity
  block_activity bytes = do
    raw ← inflate bytes
    items ← or_decode_error (pb.decode_block raw)
    ok (activity_steps (record { block_number = 0; rounds = []; events_by_node = [] }) items)

  unfoldable pub parse_block : Bytes → Result ParsedBlock
  parse_block bytes = do
    raw ← inflate bytes
    items ← or_decode_error (pb.decode_block raw)
    let s = parse_steps new_parsing items
    ok (record {
      block_number = s.block_number;
      hapi_version = s.hapi_version;
      rounds = s.rounds;
      transactions = s.transactions;
    })
