-- ===== src/Sentinel/Newest.antt =====
-- src/cli/sentinel.rs, `Source::newest`: an expanding probe and a binary search over the bucket, or
-- the largest number in the directory.
pub mod Search
use hiero_streams_rs.Prelude.{
  ℕ, zero, suc, ◌+◌, ◌-◌, ◌*◌, ◌/◌, ◌%◌, Bool, not, Option, none, some, List, [], ◌∷◌, ltb,
  if◌then◌else◌, u64_mod,
}
use hiero_streams_rs.Hapi.{Decoded, value, failure}
use hiero_streams_rs.Sentinel.Types.{
  Source, Run, done, alarmed, unfinished, ◌>>=◌, probe_failed, unreadable_directory,
  no_blocks_in_directory, floor_missing,
}

abbrev pub or_probe_failed : ℕ → Decoded Bool → Run Bool
or_probe_failed n (value b) = done b
or_probe_failed n (failure e) = alarmed (probe_failed n e)

unfoldable pub probe : Source → ℕ → Run Bool
probe source n = or_probe_failed n (source.exists n)

-- `while self.exists(hi)?`; the sums wrap around in a u64.
unfoldable pub expand : Source → ℕ → ℕ → ℕ → ℕ → Run (ℕ × ℕ)
expand source zero lo step hi = unfinished
expand source (suc fuel) lo step hi = do
  found ← probe source hi
  elim found as (λ _. Run (ℕ × ℕ)) [
    | Bool.true ↦ expand source fuel hi (step * 4 % u64_mod) ((hi + step * 4 % u64_mod) % u64_mod)
    | Bool.false ↦ done (lo, hi)
  ]

-- `hi - lo`, which wraps around in a u64.
abbrev pub distance : ℕ → ℕ → ℕ
distance lo hi = (hi + u64_mod - lo) % u64_mod

-- `while hi - lo > 1`
unfoldable pub bisect : Source → ℕ → ℕ → ℕ → Run ℕ
bisect source zero lo hi = if ltb 1 (distance lo hi) then unfinished else done lo
bisect source (suc fuel) lo hi =
    let mid = (lo + distance lo hi / 2) % u64_mod in
    let narrowed : Run ℕ = (do
      found ← probe source mid
      bisect source fuel (if found then mid else lo) (if found then hi else mid)) in
    if ltb 1 (distance lo hi) then narrowed else done lo

abbrev pub first_step : ℕ
first_step = 1024

-- Rounds for either loop: a step of 2 ^ 64 is reached before.
abbrev pub search_fuel : ℕ
search_fuel = 64

-- `max()`
unfoldable pub largest : List ℕ → Option ℕ
largest [] = none
largest (n ∷ ns) = elim (largest ns) [ none ↦ some n | some m ↦ some (if ltb n m then m else n) ]

unfoldable pub newest_in_bucket : Source → ℕ → Run ℕ
newest_in_bucket source floor = do
  anchored ← probe source floor
  elim anchored as (λ _. Run ℕ) [
    | Bool.false ↦ alarmed (floor_missing floor)
    | Bool.true ↦ do
      (lo, hi) ← expand source search_fuel floor first_step ((floor + first_step) % u64_mod)
      bisect source search_fuel lo hi
  ]

unfoldable pub newest_in_directory : Decoded (List ℕ) → Run ℕ
newest_in_directory (failure e) = alarmed (unreadable_directory e)
newest_in_directory (value numbers) = elim (largest numbers) [
  | none ↦ alarmed no_blocks_in_directory
  | some n ↦ done n
]

unfoldable pub newest : Source → ℕ → Run ℕ
newest source floor = elim source.local_numbers [
  | none ↦ newest_in_bucket source floor
  | some listing ↦ newest_in_directory listing
]
