-- ===== src/Block/Wire/Field.antt =====
-- The field numbers of the `BlockItem` oneof, from src/block/wire.rs.
use hiero_streams_rs.Prelude.{ℕ}

abbrev pub block_header : ℕ
block_header = 1

abbrev pub event_header : ℕ
event_header = 2

abbrev pub round_header : ℕ
round_header = 3

abbrev pub signed_transaction : ℕ
signed_transaction = 4

abbrev pub transaction_result : ℕ
transaction_result = 5

abbrev pub transaction_output : ℕ
transaction_output = 6

abbrev pub state_changes : ℕ
state_changes = 7

abbrev pub filtered_single_item : ℕ
filtered_single_item = 8

abbrev pub block_proof : ℕ
block_proof = 9

abbrev pub record_file : ℕ
record_file = 10

abbrev pub trace_data : ℕ
trace_data = 11

abbrev pub block_footer : ℕ
block_footer = 12

abbrev pub redacted_item : ℕ
redacted_item = 19
