-- ===== src/Etl/Records/Chain.antt =====
-- The checks of src/cli/etl/record.rs within the days and at their boundaries are a check of the whole
-- chain of files.

use mathlib.Core.List.{Perm}
use hiero_streams_rs.Prelude.{
  append-nil, ℕ, ◌≡◌, refl, sym, ◌∙◌, Bool, true, Option, none, some, List, [], ◌∷◌, ◌++◌,
}
use hiero_streams_rs.Text.{Text}
use hiero_streams_rs.Hapi.{Prost}
use hiero_streams_rs.Proto.{Proto}
use hiero_streams_rs.Stream.{Gzip}
use hiero_streams_rs.Record.{ParsedRecordFile}
use hiero_streams_rs.Record.Verify.{ChainBreak, verify_running_hash_chain, chain_from}
use hiero_streams_rs.Record.Verify.Chain.{IsChain, Links, Links-chain_from, Links-IsChain}
use hiero_streams_rs.Etl.Types.{Job, done, >>=-eq-done, done_injective, Files}
use hiero_streams_rs.Etl.Workers.{map_job, map_job-append, parse_all, parse_all-map_job}
use hiero_streams_rs.Etl.Records.{
  Day, group_days, last_of, check_boundary, check_day, check_chain, day_verdict, boundary_verdict,
  sort_rows, rows_of, write_partition, parse_named, run_days, run,
}
use hiero_streams_rs.Etl.Records.Groups.{
  Filled, AllFilled, group_days-AllFilled, all_names, group_days-Perm,
}

abbrev last_from : ParsedRecordFile → List ParsedRecordFile → ParsedRecordFile
last_from p [] = p
last_from p (q ∷ qs) = last_from q qs

last_of-last_from :
    (p : ParsedRecordFile) (ps : List ParsedRecordFile) → last_of (p ∷ ps) ≡ some (last_from p ps)
unfolding last_of
last_of-last_from p [] = refl
last_of-last_from p (q ∷ qs) = last_of-last_from q qs

Links-append :
    (p : ParsedRecordFile) (ps rest : List ParsedRecordFile)
    → Links p ps
    → Links (last_from p ps) rest
    → Links p (ps ++ rest)
Links-append p [] rest h k = k
Links-append p (q ∷ qs) rest (l, ls) k = (l, Links-append q qs rest ls k)

abbrev LinkedFrom : Option ParsedRecordFile → List ParsedRecordFile → Type 0
LinkedFrom none [] = Unit
LinkedFrom none (f ∷ fs) = Links f fs
LinkedFrom (some p) fs = Links p fs

day_verdict-done :
    (d : Day) (o : Option ChainBreak) {u : Unit {0}} → day_verdict d o ≡ done u → o ≡ none
day_verdict-done d none h = refl
day_verdict-done d (some b) h = absurd (cc h)

boundary_verdict-done :
    (d : Day) (o : Option ChainBreak) {u : Unit {0}} → boundary_verdict d o ≡ done u → o ≡ none
boundary_verdict-done d none h = refl
boundary_verdict-done d (some b) h = absurd (cc h)

check_day-Links :
    (d : Day) (p : ParsedRecordFile) (ps : List ParsedRecordFile) {u : Unit {0}}
    → check_day d (p ∷ ps) ≡ done u
    → Links p ps
unfolding check_day verify_running_hash_chain
check_day-Links d p ps h = Links-chain_from 1 p ps (day_verdict-done d (chain_from 1 p ps) h)

check_boundary-Links :
    (d : Day) (prev p : ParsedRecordFile) (ps : List ParsedRecordFile) {u : Unit {0}}
    → check_boundary d (some prev) (p ∷ ps) ≡ done u
    → Links prev (p ∷ [])
unfolding check_boundary verify_running_hash_chain
check_boundary-Links d prev p ps h =
    Links-chain_from 1 prev (p ∷ []) (boundary_verdict-done d (chain_from 1 prev (p ∷ [])) h)

-- One day's files behind the boundary, and what follows them.
day-LinkedFrom :
    (d : Day) (boundary boundary' : Option ParsedRecordFile) (p : ParsedRecordFile)
    (ps rest : List ParsedRecordFile)
    → check_chain true d boundary (p ∷ ps) ≡ done boundary'
    → LinkedFrom boundary' rest
    → LinkedFrom boundary (p ∷ (ps ++ rest))
unfolding check_chain
day-LinkedFrom d none boundary' p ps rest h k =
    let (_, _, h₁) = >>=-eq-done (check_boundary d none (p ∷ ps)) _ h in
    let (_, e, h₂) = >>=-eq-done (check_day d (p ∷ ps)) _ h₁ in
    let next : boundary' ≡ some (last_from p ps) =
      sym (done_injective h₂) ∙ last_of-last_from p ps in
    Links-append p ps rest (check_day-Links d p ps e) (rw next at k)
day-LinkedFrom d (some prev) boundary' p ps rest h k =
    let (_, b, h₁) = >>=-eq-done (check_boundary d (some prev) (p ∷ ps)) _ h in
    let (_, e, h₂) = >>=-eq-done (check_day d (p ∷ ps)) _ h₁ in
    let next : boundary' ≡ some (last_from p ps) =
      sym (done_injective h₂) ∙ last_of-last_from p ps in
    (
      (check_boundary-Links d prev p ps b).0,
      Links-append p ps rest (check_day-Links d p ps e) (rw next at k),
    )

-- The same, for any day with a file.
day-LinkedFrom_parsed :
    (f : Text → Job ParsedRecordFile) (d : Day) (boundary boundary' : Option ParsedRecordFile)
    (parsed rest : List ParsedRecordFile)
    → Filled d.files
    → map_job f d.files ≡ done parsed
    → check_chain true d boundary parsed ≡ done boundary'
    → LinkedFrom boundary' rest
    → LinkedFrom boundary (parsed ++ rest)
unfolding map_job
day-LinkedFrom_parsed f d boundary boundary' [] rest full h c linked =
    absurd (not_empty d.files full h)
  where
    not_empty : (names : List Text) → Filled names → map_job f names ≡ done [] → ⊥
    not_empty [] full h = full
    not_empty (name ∷ names) full h =
        let (p, _, h₁) = >>=-eq-done (f name) _ h in
        let (ps, _, h₂) = >>=-eq-done (map_job f names) _ h₁ in cc (done_injective h₂)
day-LinkedFrom_parsed f d boundary boundary' (p ∷ ps) rest full h c linked =
    day-LinkedFrom d boundary boundary' p ps rest c linked

module _ ⦃gz : Gzip⦄ ⦃pr : Proto⦄ ⦃pb : Prost⦄ where
  run_days-LinkedFrom :
      (fs : Files) (threads : ℕ) (with_transfers : Bool) (boundary : Option ParsedRecordFile)
      (days : List Day) {n : ℕ}
      → AllFilled days
      → run_days fs threads true with_transfers boundary days ≡ done n
      → (files : List ParsedRecordFile) × (map_job (parse_named fs) (all_names days) ≡ done files)
        × LinkedFrom boundary files
  unfolding run_days map_job
  run_days-LinkedFrom fs threads with_transfers boundary [] filled h = ([], refl, nothing boundary)
    where
      nothing : (b : Option ParsedRecordFile) → LinkedFrom b []
      nothing none = tt
      nothing (some p) = tt
  run_days-LinkedFrom fs threads with_transfers boundary (d ∷ days) (full, filled) h =
      let (parsed, a, h₁) = >>=-eq-done (parse_all threads (parse_named fs) d.files) _ h in
      let (boundary', c, h₂) = >>=-eq-done (check_chain true d boundary parsed) _ h₁ in
      let (_, _, h₃) =
        >>=-eq-done (write_partition fs with_transfers d.day (sort_rows (rows_of parsed))) _ h₂ in
      let (m, e, _) = >>=-eq-done (run_days fs threads true with_transfers boundary' days) _ h₃ in
      let (rest, b, linked) =
        run_days-LinkedFrom fs threads with_transfers boundary' days filled e in
      let one_loop = parse_all-map_job threads (parse_named fs) d.files parsed a in
      (
        parsed ++ rest,
        map_job-append (parse_named fs) d.files (all_names days) one_loop b,
        day-LinkedFrom_parsed (parse_named fs) d boundary boundary' parsed rest full one_loop c
            linked,
      )

  -- If the run with `--verify-chain` succeeds, every name has a day prefix, the days hold each name once,
  -- every file parses, and the parsed files of all days, in the order of the days, are one chain: every
  -- file continues the one before it, within a day and from one day to the next.
  pub run-IsChain :
      (fs : Files) (threads : ℕ) (with_transfers : Bool) (names : List Text) (total : ℕ)
      → run fs threads true with_transfers names ≡ done total
      → (days : List Day) × (files : List ParsedRecordFile) × (group_days names [] ≡ done days)
        × Perm (all_names days) names
        × (map_job (parse_named fs) (all_names days) ≡ done files)
        × IsChain files
  unfolding run
  run-IsChain fs threads with_transfers names total h =
      let (days, g, h₁) = >>=-eq-done (group_days names []) _ h in
      let (files, e, linked) =
        run_days-LinkedFrom fs threads with_transfers none days (group_days-AllFilled names [] g tt)
          h₁ in
      (days, files, g, rw append-nil at (group_days-Perm names [] g), e, chain_of files linked)
    where
      chain_of : (files : List ParsedRecordFile) → LinkedFrom none files → IsChain files
      chain_of [] l = λ i a b p q. cc
      chain_of (f ∷ fs) l = Links-IsChain f fs l
