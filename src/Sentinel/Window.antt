-- ===== src/Sentinel/Window.antt =====
-- src/cli/sentinel.rs, `run`: the window of blocks that the state asks for, the loop over it, and the
-- state that is written back.
pub mod Resume
use hiero_streams_rs.Prelude.{
  ℕ, zero, suc, ◌+◌, ◌-◌, ◌%◌, Bool, true, false, Option, none, some, ltb, if◌then◌else◌, u64_mod,
}
use hiero_streams_rs.Hex.{Hex}
use hiero_streams_rs.Text.{Text}
use hiero_streams_rs.Stream.{Gzip}
use hiero_streams_rs.Hapi.{Prost}
use hiero_streams_rs.Block.Merkle.{Sha384}
use hiero_streams_rs.Block.Proof.Curves.{Bls, Sha256}
use hiero_streams_rs.Sentinel.{unwrap_or_zero}
use hiero_streams_rs.Sentinel.Types.{
  State, Source, Run, done, alarmed, panicked, unfinished, ◌>>=◌, no_last_block, no_init_block,
}
use hiero_streams_rs.Sentinel.Newest.{newest}
use hiero_streams_rs.Sentinel.Batches.{Progress, verify_batches}

-- The options of the command line that the run reads, and what `utc_now` gives.
pub record Options : Type 0 where
  pub init_block : Option ℕ
  pub max_blocks : ℕ
  pub today : Text
  pub now : Text

-- A block known to exist, and the first block to verify.
unfoldable pub window : State → Option ℕ → Run (ℕ × ℕ)
window state init_block = elim state.initialized [
  | true ↦ elim state.last_block as (λ _. Run (ℕ × ℕ)) [
    | none ↦ alarmed no_last_block
    | some last ↦ done (last, (last + 1) % u64_mod)
  ]
  | false ↦ elim init_block as (λ _. Run (ℕ × ℕ)) [
    | none ↦ alarmed no_init_block
    | some first ↦ done (first, first)
  ]
]

-- The last block of this run, where `first` is not above `last`.
unfoldable pub capped : ℕ → ℕ → ℕ → ℕ
capped first last max_blocks =
    if ltb max_blocks ((last - first + 1) % u64_mod)
    then (first + max_blocks + u64_mod - 1) % u64_mod
    else last

abbrev pub get_or_insert : Option Text → Text → Option Text
get_or_insert none t = some t
get_or_insert (some u) t = some u

-- The assignments before `save`.
unfoldable pub persist : Options → Progress → State
persist options p =
    let state = p.state in
    if ltb 0 p.verified
    then record state {
      initialized = true;
      verified_total = some ((unwrap_or_zero state.verified_total + p.verified) % u64_mod);
      since = get_or_insert state.since options.today;
      checked = some options.now;
    }
    else record state { checked = some options.now }

-- The state that was saved, if the run came that far, and the run's result.
pub record Ran : Type 0 where
  pub saved : Option State
  pub exit : Run (Unit {0})

abbrev pub not_run : Run (Unit {0}) → Ran
not_run exit = record { saved = none; exit = exit }

-- A panic unwinds past the `save`; an error does not.
unfoldable pub conclude : Options → Progress → Ran
conclude options p = elim p.outcome [
  | done _ ↦ record { saved = some (persist options p); exit = p.outcome }
  | alarmed _ ↦ record { saved = some (persist options p); exit = p.outcome }
  | panicked ↦ not_run panicked
  | unfinished ↦ not_run unfinished
]

module _ ⦃hx : Hex⦄ ⦃bls : Bls⦄ ⦃s : Sha256⦄ ⦃gz : Gzip⦄ ⦃sha : Sha384⦄ ⦃pb : Prost⦄ where
  -- The blocks `first` to `last`, by batches; as many rounds as blocks are enough.
  unfoldable pub verify_window : Source → Options → State → ℕ → ℕ → Ran
  verify_window source options state first last =
      conclude options (verify_batches source (last + 1 - first) first last state 0)

  unfoldable pub run_from : Source → Options → State → ℕ → Run ℕ → Ran
  run_from source options state first (done last) =
      if ltb last first
      then not_run (done tt)
      else verify_window source options state first (capped first last options.max_blocks)
  run_from source options state first (alarmed a) = not_run (alarmed a)
  run_from source options state first panicked = not_run panicked
  run_from source options state first unfinished = not_run unfinished

  unfoldable pub run_in : Source → Options → State → Run (ℕ × ℕ) → Ran
  run_in source options state (done (floor, first)) =
      run_from source options state first (newest source floor)
  run_in source options state (alarmed a) = not_run (alarmed a)
  run_in source options state panicked = not_run panicked
  run_in source options state unfinished = not_run unfinished

  unfoldable pub run : Source → Options → State → Ran
  run source options state = run_in source options state (window state options.init_block)
