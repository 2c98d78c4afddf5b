-- ===== src/Sentinel/Chain.antt =====
-- The blocks that a run of src/cli/sentinel.rs accepts, as a step relation on the state.
pub mod Holds
pub mod Links
use hiero_streams_rs.Prelude.{
  ℕ, zero, suc, ◌+◌, ◌%◌, ◌≤◌, ◌<◌, ◌≡◌, ◌⊎◌, refl, sym, ap, ◌∙◌, inl, inr, Bool, true, false,
  Option, none, some, List, [], ◌∷◌, arith, u64_mod,
}
use hiero_streams_rs.Hex.{Hex}
use hiero_streams_rs.Stream.{Gzip}
use hiero_streams_rs.Hapi.{Prost, Decoded}
use hiero_streams_rs.Block.Merkle.{Sha384}
use hiero_streams_rs.Block.Proof.Curves.{Bls, Sha256}
use hiero_streams_rs.Sentinel.{check_fetched}
use hiero_streams_rs.Sentinel.Types.{State, Source, Run, done, alarmed, panicked, unfinished, Alarm}
use hiero_streams_rs.Sentinel.Batches.{Progress, fetch_range, check_each, after_check}

module _ ⦃hx : Hex⦄ ⦃bls : Bls⦄ ⦃s : Sha256⦄ ⦃gz : Gzip⦄ ⦃sha : Sha384⦄ ⦃pb : Prost⦄ where
  -- `Chain source n state m state'`: the blocks from `n` to `m - 1`, each fetched and accepted in the
  -- state that the one before it left, lead from `state` to `state'`.
  pub data Chain (source : Source) (n : ℕ) (state : State) : ℕ → State → Type 0 where
    start : Chain source n state n state
    next :
        {m : ℕ} {state' state'' : State}
        → Chain source n state m state'
        → check_fetched m (source.fetch m) state' ≡ done state''
        → Chain source n state (suc m) state''

  pub Chain-append :
      (source : Source) {n m : ℕ} {state state' : State} {k : ℕ} {state'' : State}
      → Chain source n state m state'
      → Chain source m state' k state''
      → Chain source n state k state''
  Chain-append source c start = c
  Chain-append source c (next d e) = next (Chain-append source c d) e

  -- Why a loop stopped behind the block `m`: it was asked for no more, or that block was refused.
  pub data Stopped (source : Source) (m : ℕ) (state : State) : Run (Unit {0}) → Type 0 where
    at_end : Stopped source m state (done tt)
    refused :
        (a : Alarm)
        → check_fetched m (source.fetch m) state ≡ alarmed a
        → Stopped source m state (alarmed a)
    crashed : check_fetched m (source.fetch m) state ≡ panicked → Stopped source m state panicked
    no_fuel :
        check_fetched m (source.fetch m) state ≡ unfinished → Stopped source m state unfinished

  -- The blocks that a loop over `count` blocks from `n` on accepts, and how it ends.
  pub record Advances (source : Source) (n count : ℕ) (state : State) (verified : ℕ) (p : Progress)
      : Type 0 where
    pub accepted : ℕ
    pub counted : verified < u64_mod → p.verified ≡ (verified + accepted) % u64_mod
    pub bounded : accepted ≤ count
    pub chained : Chain source n state (n + accepted) p.state
    pub stopped : Stopped source (n + accepted) p.state p.outcome
    pub finished : p.outcome ≡ done tt → accepted ≡ count

  stops_here :
      (source : Source) (n count : ℕ) (state : State) (verified : ℕ) (outcome : Run (Unit {0}))
      → Stopped source n state outcome
      → ¬ (outcome ≡ done tt)
      → Advances source n
          (suc count)
          state
          verified
          (record { state = state; verified = verified; outcome = outcome })
  stops_here source n count state verified outcome why not_done =
      let same : n + 0 ≡ n = omega arith in
      record {
        accepted = 0;
        counted = λ h. omega (arith, h);
        bounded = omega arith;
        chained = rw same start;
        stopped = rw same why;
        finished = λ e. absurd (not_done e);
      }

  one_round :
      (source : Source) (n count : ℕ) (state : State) (verified : ℕ) (r : Run State)
      → check_fetched n (source.fetch n) state ≡ r
      → ((state' : State)
          → Advances source (suc n) count state' ((verified + 1) % u64_mod) (
              check_each
                (suc n)
                (fetch_range source (suc n) count)
                state'
                ((verified + 1) % u64_mod)))
      → Advances source n (suc count) state verified (
          after_check r state verified (λ state'.
            check_each
              (suc n)
              (fetch_range source (suc n) count)
              state'
              ((verified + 1) % u64_mod)))
  one_round source n count state verified (done state') e again =
      let rest = again state' in
      let moved : suc n + rest.accepted ≡ n + suc rest.accepted = omega arith in
      let first : Chain source n state (suc n) state' = next start e in
      record {
        accepted = suc rest.accepted;
        counted = λ h. omega (arith, h, rest.counted (omega arith));
        bounded = omega (arith, rest.bounded);
        chained = rw moved at (Chain-append source first rest.chained);
        stopped = rw moved at rest.stopped;
        finished = λ h. ap suc (rest.finished h);
      }
  one_round source n count state verified (alarmed a) e again =
      stops_here source n count state verified (alarmed a) (refused a e) (λ h. cc)
  one_round source n count state verified panicked e again =
      stops_here source n count state verified panicked (crashed e) (λ h. cc)
  one_round source n count state verified unfinished e again =
      stops_here source n count state verified unfinished (no_fuel e) (λ h. cc)

  -- Checking `count` blocks from `n` on, one by one, accepts a chain of blocks without a gap and counts
  -- them modulo 2 ^ 64; it stops behind all of them, or at the first block that is refused, with the state that the
  -- last accepted block left.
  pub check_each-Advances :
      (source : Source) (n count : ℕ) (state : State) (verified : ℕ)
      → Advances source n count state verified
          (check_each n (fetch_range source n count) state verified)
  unfolding check_each fetch_range
  check_each-Advances source n zero state verified =
      let same : n + 0 ≡ n = omega arith in
      record {
        accepted = 0;
        counted = λ h. omega (arith, h);
        bounded = omega arith;
        chained = rw same start;
        stopped = at_end;
        finished = λ _. refl;
      }
  check_each-Advances source n (suc count) state verified =
      one_round source n count state verified (check_fetched n (source.fetch n) state) refl
        (λ state'. check_each-Advances source (suc n) count state' ((verified + 1) % u64_mod))
