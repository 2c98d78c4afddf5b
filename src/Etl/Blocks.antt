-- ===== src/Etl/Blocks.antt =====
-- src/cli/etl/block.rs: the block files of a directory, in the order of their block numbers.
pub mod Gapless
use Prim.Native.String.{String}
use hiero_streams_rs.Prelude.{
  ℕ, zero, suc, ◌+◌, Bool, true, false, not, Option, none, some, List, [], ◌∷◌, ◌++◌, ltb, leb,
  ◌==◌, if◌then◌else◌, length, bytes_eq, Bytes, u64_mod,
}
use hiero_streams_rs.Text.{Text, text_leb}
use hiero_streams_rs.Hapi.{Decoded, value, failure, Prost}
use hiero_streams_rs.Stream.{Gzip}
use hiero_streams_rs.Transaction.{ParsedTransaction}
use hiero_streams_rs.Block.Merkle.{Sha384}
use hiero_streams_rs.Block.Material.{BlockChainInfo, block_chain_info}
use hiero_streams_rs.Block.Parser.{ParsedBlock, parse_block}
use hiero_streams_rs.Etl.Types.{
  Failure, read_failed, parse_failed, chain_info_failed, block_gap, root_break, Job, done, failed,
  ◌>>=◌, or_failed, Files,
}
use hiero_streams_rs.Etl.Workers.{parse_all}
use hiero_streams_rs.Etl.Records.{sort_rows, write_partition}

pub record BlockFile : Type 0 where
  pub name : Text
  pub info : BlockChainInfo
  pub transactions : List ParsedTransaction

-- A stable sort by the block number.
unfoldable pub insert_block : BlockFile → List BlockFile → List BlockFile
insert_block b [] = b ∷ []
insert_block b (c ∷ cs) =
    if leb b.info.block_number c.info.block_number then b ∷ (c ∷ cs) else c ∷ insert_block b cs

unfoldable pub sort_blocks : List BlockFile → List BlockFile
sort_blocks [] = []
sort_blocks (b ∷ bs) = insert_block b (sort_blocks bs)

-- `Some(next) != prev.checked_add(1)`
unfoldable pub is_gap : ℕ → ℕ → Bool
is_gap prev next = if ltb (prev + 1) u64_mod then not (next == prev + 1) else true

-- One window of two blocks.
unfoldable pub check_pair : BlockFile → BlockFile → Job (Unit {0})
check_pair prev next =
    if is_gap prev.info.block_number next.info.block_number
    then failed (block_gap prev.name prev.info.block_number next.name next.info.block_number)
    else if not (bytes_eq next.info.previous_block_root prev.info.block_root)
    then failed (root_break next.name next.info.block_number prev.name prev.info.block_number)
    else done tt

-- The loop over `windows(2)`.
unfoldable pub check_windows : List BlockFile → Job (Unit {0})
check_windows [] = done tt
check_windows (b ∷ []) = done tt
check_windows (b ∷ (c ∷ cs)) = do _ ← check_pair b c; check_windows (c ∷ cs)

unfoldable pub check_if : Bool → List BlockFile → Job (Unit {0})
check_if false blocks = done tt
check_if true blocks = check_windows blocks

-- One day's rows, with the day.
pub record DayRows : Type 0 where
  pub day : Text
  pub rows : List ParsedTransaction

-- `days.entry(tx.day.clone()).or_default().push(tx)` on a map that keeps its keys in order.
unfoldable pub push_row : ParsedTransaction → List DayRows → List DayRows
push_row tx [] = record { day = tx.day; rows = tx ∷ [] } ∷ []
push_row tx (d ∷ days) =
    if bytes_eq tx.day d.day
    then record d { rows = d.rows ++ (tx ∷ []) } ∷ days
    else if text_leb tx.day d.day
    then record { day = tx.day; rows = tx ∷ [] } ∷ (d ∷ days)
    else d ∷ push_row tx days

unfoldable pub push_rows : List ParsedTransaction → List DayRows → List DayRows
push_rows [] days = days
push_rows (tx ∷ txs) days = push_rows txs (push_row tx days)

unfoldable pub partition_days : List BlockFile → List DayRows → List DayRows
partition_days [] days = days
partition_days (b ∷ bs) days = partition_days bs (push_rows b.transactions days)

-- The last loop; it gives the number of transactions written.
unfoldable pub write_days : Files → Bool → List DayRows → Job ℕ
write_days fs with_transfers [] = done 0
write_days fs with_transfers (d ∷ days) = do
  let rows = sort_rows d.rows
  _ ← write_partition fs with_transfers d.day rows
  rest ← write_days fs with_transfers days
  done (length rows + rest)

-- `chunks(chunk)` of no names is no chunk; `div_ceil` panics at no threads before.
module _ ⦃gz : Gzip⦄ ⦃sha : Sha384⦄ ⦃pb : Prost⦄ where
  unfoldable pub block_file : Text → Bytes → Job BlockFile
  block_file name bytes = do
    parsed ← or_failed (parse_failed name) (parse_block bytes)
    info ← or_failed (chain_info_failed name) (block_chain_info bytes)
    done (record { name = name; info = info; transactions = parsed.transactions })

  -- One worker's step.
  unfoldable pub parse_block_file : Files → Text → Job BlockFile
  parse_block_file fs name = elim (fs.read name) [
    | failure e ↦ failed (read_failed name e)
    | value bytes ↦ block_file name bytes
  ]

  unfoldable pub run : Files → ℕ → Bool → Bool → List Text → Job ℕ
  run fs threads verify_chain with_transfers names = do
    parsed ← parse_all threads (parse_block_file fs) names
    let blocks = sort_blocks parsed
    _ ← check_if verify_chain blocks
    write_days fs with_transfers (partition_days blocks [])
