-- ===== src/Etl/Records.antt =====
-- src/cli/etl/record.rs: the record files of a directory, by days. File names are ASCII text.
pub mod Groups
pub mod Chain
use hiero_streams_rs.Prelude.{
  ℕ, zero, suc, Bool, true, false, Option, none, some, List, [], ◌∷◌, ◌++◌, leb, if◌then◌else◌,
  length, get_elem?, take, bytes_eq, Bytes,
}
use hiero_streams_rs.Text.{Text, text_leb}
use hiero_streams_rs.Hapi.{Decoded, value, failure, Prost}
use hiero_streams_rs.Proto.{Proto}
use hiero_streams_rs.Stream.{Gzip}
use hiero_streams_rs.Transaction.{ParsedTransaction}
use hiero_streams_rs.Record.{ParsedRecordFile, parse_record_file}
use hiero_streams_rs.Record.Verify.{ChainBreak, verify_running_hash_chain}
use hiero_streams_rs.Etl.Types.{
  Failure, no_day_prefix, read_failed, parse_failed, boundary_break, day_break, write_failed, Job,
  done, failed, ◌>>=◌, or_failed, Files,
}
use hiero_streams_rs.Etl.Workers.{parse_all}

-- One day's files, with the day.
pub record Day : Type 0 where
  pub day : Text
  pub files : List Text

-- `days.entry(day).or_default().push(name)` on a map that keeps its keys in order.
unfoldable pub push_file : Text → Text → List Day → List Day
push_file day name [] = record { day = day; files = name ∷ [] } ∷ []
push_file day name (d ∷ days) =
    if bytes_eq day d.day
    then record d { files = d.files ++ (name ∷ []) } ∷ days
    else if text_leb day d.day
    then record { day = day; files = name ∷ [] } ∷ (d ∷ days)
    else d ∷ push_file day name days

-- The loop over the names; `get(..10)` fails on a shorter one.
unfoldable pub group_days : List Text → List Day → Job (List Day)
group_days [] days = done days
group_days (name ∷ names) days =
    if leb 10 (length name)
    then group_days names (push_file (take 10 name) name days)
    else failed (no_day_prefix name)

unfoldable pub last_of : List ParsedRecordFile → Option ParsedRecordFile
last_of [] = none
last_of (f ∷ []) = some f
last_of (f ∷ (g ∷ fs)) = last_of (g ∷ fs)

-- `if let Err(e)`; the index of a break is one of the day's files.
abbrev pub boundary_verdict : Day → Option ChainBreak → Job (Unit {0})
boundary_verdict d none = done tt
boundary_verdict d (some b) = failed (boundary_break d.day (get_elem? d.files 0) b.reason)

abbrev pub day_verdict : Day → Option ChainBreak → Job (Unit {0})
day_verdict d none = done tt
day_verdict d (some b) = failed (day_break d.day b.index (get_elem? d.files b.index) b.reason)

-- The seam with the day before.
unfoldable pub check_boundary :
    Day → Option ParsedRecordFile → List ParsedRecordFile → Job (Unit {0})
check_boundary d none files = done tt
check_boundary d (some prev) [] = done tt
check_boundary d (some prev) (first ∷ files) =
    boundary_verdict d (verify_running_hash_chain (prev ∷ (first ∷ [])))

unfoldable pub check_day : Day → List ParsedRecordFile → Job (Unit {0})
check_day d files = day_verdict d (verify_running_hash_chain files)

-- The checks of `--verify-chain`, which give the boundary for the next day.
unfoldable pub check_chain :
    Bool → Day → Option ParsedRecordFile → List ParsedRecordFile → Job (Option ParsedRecordFile)
check_chain false d boundary files = done boundary
check_chain true d boundary files = do
  _ ← check_boundary d boundary files
  _ ← check_day d files
  done (last_of files)

-- A stable sort by the consensus timestamp.
unfoldable pub insert_row : ParsedTransaction → List ParsedTransaction → List ParsedTransaction
insert_row t [] = t ∷ []
insert_row t (u ∷ us) =
    if text_leb t.consensus_timestamp u.consensus_timestamp
    then t ∷ (u ∷ us)
    else u ∷ insert_row t us

unfoldable pub sort_rows : List ParsedTransaction → List ParsedTransaction
sort_rows [] = []
sort_rows (t ∷ ts) = insert_row t (sort_rows ts)

unfoldable pub rows_of : List ParsedRecordFile → List ParsedTransaction
rows_of [] = []
rows_of (f ∷ fs) = f.transactions ++ rows_of fs

unfoldable pub write_partition : Files → Bool → Text → List ParsedTransaction → Job (Unit {0})
write_partition fs with_transfers day rows = elim (fs.write_day day rows with_transfers) [
  | value _ ↦ done tt
  | failure e ↦ failed (write_failed e)
]

module _ ⦃gz : Gzip⦄ ⦃pr : Proto⦄ ⦃pb : Prost⦄ where
  -- One worker's step.
  unfoldable pub parse_named : Files → Text → Job ParsedRecordFile
  parse_named fs name = elim (fs.read name) [
    | failure e ↦ failed (read_failed name e)
    | value bytes ↦ or_failed (parse_failed name) (parse_record_file bytes)
  ]

  -- The loop over the days; it gives the number of transactions written.
  unfoldable pub run_days : Files → ℕ → Bool → Bool → Option ParsedRecordFile → List Day → Job ℕ
  run_days fs threads verify_chain with_transfers boundary [] = done 0
  run_days fs threads verify_chain with_transfers boundary (d ∷ days) = do
    parsed_files ← parse_all threads (parse_named fs) d.files
    boundary' ← check_chain verify_chain d boundary parsed_files
    let rows = sort_rows (rows_of parsed_files)
    _ ← write_partition fs with_transfers d.day rows
    rest ← run_days fs threads verify_chain with_transfers boundary' days
    done (hiero_streams_rs.Prelude.◌+◌ (length rows) rest)

  unfoldable pub run : Files → ℕ → Bool → Bool → List Text → Job ℕ
  run fs threads verify_chain with_transfers names = do
    days ← group_days names []
    run_days fs threads verify_chain with_transfers none days
