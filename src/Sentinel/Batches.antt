-- ===== src/Sentinel/Batches.antt =====
-- src/cli/sentinel.rs: the loop over batches. A batch is fetched by parallel workers, and checked in
-- the order of its numbers.
pub mod Sequential
use Prim.Native.Nat.{min}
use hiero_streams_rs.Prelude.{
  ℕ, zero, suc, ◌+◌, ◌-◌, ◌%◌, Bool, true, false, List, [], ◌∷◌, ltb, if◌then◌else◌, Bytes, u64_mod,
}
use hiero_streams_rs.Hex.{Hex}
use hiero_streams_rs.Stream.{Gzip}
use hiero_streams_rs.Hapi.{Prost, Decoded}
use hiero_streams_rs.Block.Merkle.{Sha384}
use hiero_streams_rs.Block.Proof.Curves.{Bls, Sha256}
use hiero_streams_rs.Sentinel.{check_fetched}
use hiero_streams_rs.Sentinel.Types.{State, Source, Run, done, alarmed, panicked, unfinished}

abbrev pub fetch_batch : ℕ
fetch_batch = 32

-- The variables `state`, `verified` and `outcome`, where the loop has stopped.
pub record Progress : Type 0 where
  pub state : State
  pub verified : ℕ
  pub outcome : Run (Unit {0})

-- The fetched bytes of `count` blocks from `n` on.
unfoldable pub fetch_range : Source → ℕ → ℕ → List (Decoded Bytes)
fetch_range source n zero = []
fetch_range source n (suc count) = source.fetch n ∷ fetch_range source (suc n) count

-- One round: the state advances, or stays as it was where the loop stops.
abbrev pub after_check : Run State → State → ℕ → (State → Progress) → Progress
after_check (done state') state verified next = next state'
after_check (alarmed a) state verified next = record {
  state = state;
  verified = verified;
  outcome = alarmed a;
}
after_check panicked state verified next = record {
  state = state;
  verified = verified;
  outcome = panicked;
}
after_check unfinished state verified next = record {
  state = state;
  verified = verified;
  outcome = unfinished;
}

-- `break 'outer`, or the next batch.
abbrev pub and_then : Progress → (State → ℕ → Progress) → Progress
and_then p next = elim p.outcome [
  | done _ ↦ next p.state p.verified
  | alarmed _ ↦ p
  | panicked ↦ p
  | unfinished ↦ p
]

module _ ⦃hx : Hex⦄ ⦃bls : Bls⦄ ⦃s : Sha256⦄ ⦃gz : Gzip⦄ ⦃sha : Sha384⦄ ⦃pb : Prost⦄ where
  -- The loop over one batch, from its `n`-th block.
  unfoldable pub check_each : ℕ → List (Decoded Bytes) → State → ℕ → Progress
  check_each n [] state verified = record { state = state; verified = verified; outcome = done tt }
  check_each n (fetched ∷ rest) state verified =
      after_check (check_fetched n fetched state) state verified
        (λ state'. check_each (suc n) rest state' ((verified + 1) % u64_mod))

  -- `(from..=to).step_by(FETCH_BATCH)`, which ends where a step would pass `to`, or the largest u64; the
  -- end of a batch wraps around. A round passes one block at least.
  unfoldable pub verify_batches : Source → ℕ → ℕ → ℕ → State → ℕ → Progress
  verify_batches source zero batch_start to state verified = record {
    state = state;
    verified = verified;
    outcome = if ltb to batch_start then done tt else unfinished;
  }
  verify_batches source (suc fuel) batch_start to state verified =
      let batch_end = min ((batch_start + fetch_batch - 1) % u64_mod) to in
      let fetched = fetch_range source batch_start (batch_end + 1 - batch_start) in
      if ltb to batch_start
      then record { state = state; verified = verified; outcome = done tt }
      else and_then (check_each batch_start fetched state verified) (λ state' verified'.
        verify_batches source fuel (batch_start + fetch_batch) to state' verified')
