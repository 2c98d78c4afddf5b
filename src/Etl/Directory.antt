-- ===== src/Etl/Directory.antt =====
-- src/cli/etl/mod.rs: the choice of the era by the names of the files.
use hiero_streams_rs.Prelude.{
  ℕ, Bool, ◌||◌, List, [], ◌∷◌, reverse, if◌then◌else◌, bytes_eq, take, length,
}
use hiero_streams_rs.Text.{Text, codes, text_leb}
use hiero_streams_rs.Hapi.{Prost}
use hiero_streams_rs.Proto.{Proto}
use hiero_streams_rs.Stream.{Gzip}
use hiero_streams_rs.Block.Merkle.{Sha384}
use hiero_streams_rs.Etl.Types.{mixed_eras, Job, failed, Files}
use hiero_streams_rs.Etl.Records
use hiero_streams_rs.Etl.Blocks

-- `ends_with`
unfoldable pub ends_with : Text → Text → Bool
ends_with suffix name = bytes_eq (take (length suffix) (reverse name)) (reverse suffix)

unfoldable pub is_record_name : Text → Bool
is_record_name name = ends_with (codes ".rcd.gz") name || ends_with (codes ".rcd") name

unfoldable pub is_block_name : Text → Bool
is_block_name name = ends_with (codes ".blk.gz") name || ends_with (codes ".blk") name

unfoldable pub select : (Text → Bool) → List Text → List Text
select test [] = []
select test (name ∷ names) = if test name then name ∷ select test names else select test names

-- `sort()`
unfoldable pub insert_name : Text → List Text → List Text
insert_name n [] = n ∷ []
insert_name n (m ∷ ms) = if text_leb n m then n ∷ (m ∷ ms) else m ∷ insert_name n ms

unfoldable pub sort_names : List Text → List Text
sort_names [] = []
sort_names (n ∷ ns) = insert_name n (sort_names ns)

module _ ⦃gz : Gzip⦄ ⦃pr : Proto⦄ ⦃pb : Prost⦄ ⦃sha : Sha384⦄ where
  unfoldable pub run_era : Files → ℕ → Bool → Bool → List Text → List Text → Job ℕ
  run_era fs threads verify_chain with_transfers names [] =
      Records.run fs threads verify_chain with_transfers (sort_names names)
  run_era fs threads verify_chain with_transfers [] (b ∷ bs) =
      Blocks.run fs threads verify_chain with_transfers (sort_names (b ∷ bs))
  run_era fs threads verify_chain with_transfers (n ∷ ns) (b ∷ bs) = failed mixed_eras

  unfoldable pub run : Files → ℕ → Bool → Bool → List Text → Job ℕ
  run fs threads verify_chain with_transfers all_names =
      run_era fs threads verify_chain with_transfers (select is_record_name all_names)
        (select is_block_name all_names)
