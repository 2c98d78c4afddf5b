-- ===== src/Sentinel/Batches/Sequential.antt =====
-- The batches of src/cli/sentinel.rs do what a loop over the single blocks does.
use Prim.Native.Nat.{min}
use hiero_streams_rs.Prelude.{
  ℕ, zero, suc, ◌+◌, ◌-◌, ◌≤◌, ◌<◌, ◌≡◌, refl, sym, ap, ◌∙◌, inl, inr, false, List, [], ◌∷◌, ◌++◌,
  arith, ltb, lt→ltb, ltb→lt, ltb→le, length, Bool-cases, if◌then◌else◌, Bytes, u64_mod, ◌%◌,
}
use hiero_streams_rs.Hex.{Hex}
use hiero_streams_rs.Stream.{Gzip}
use hiero_streams_rs.Hapi.{Prost, Decoded}
use hiero_streams_rs.Block.Merkle.{Sha384}
use hiero_streams_rs.Block.Proof.Curves.{Bls, Sha256}
use hiero_streams_rs.Sentinel.{check_fetched}
use hiero_streams_rs.Sentinel.Types.{State, Source, Run, done, alarmed, panicked, unfinished}
use hiero_streams_rs.Sentinel.Batches.{
  Progress, fetch_batch, fetch_range, check_each, after_check, and_then, verify_batches,
}

length-fetch_range : (source : Source) (n count : ℕ) → length (fetch_range source n count) ≡ count
unfolding fetch_range
length-fetch_range source n zero = refl
length-fetch_range source n (suc count) = ap suc (length-fetch_range source (suc n) count)

fetch_range-add :
    (source : Source) (n a b : ℕ)
    → fetch_range source n (a + b) ≡ fetch_range source n a ++ fetch_range source (n + a) b
unfolding fetch_range
fetch_range-add source n zero b =
    let left : 0 + b ≡ b = omega arith in
    let right : n + 0 ≡ n = omega arith in rw (left, right) refl
fetch_range-add source n (suc a) b =
    let left : suc a + b ≡ suc (a + b) = omega arith in
    let right : suc n + a ≡ n + suc a = omega arith in
    rw left (ap (λ t. source.fetch n ∷ t) (rw right at (fetch_range-add source (suc n) a b)))

empty_range :
    (source : Source) (from to : ℕ) → to < from → fetch_range source from (to + 1 - from) ≡ []
unfolding fetch_range
empty_range source from to h = let none_left : to + 1 - from ≡ 0 = omega arith in rw none_left refl

and_then-cong :
    (p : Progress) (f g : State → ℕ → Progress)
    → ((state : State) (verified : ℕ) → f state verified ≡ g state verified)
    → and_then p f ≡ and_then p g
and_then-cong p f g h = go p.outcome
  where
    go :
        (r : Run (Unit {0}))
        → (elim r as (λ _. Progress) [
          | done _ ↦ f p.state p.verified
          | alarmed _ ↦ p
          | panicked ↦ p
          | unfinished ↦ p
        ])
          ≡ (elim r as (λ _. Progress) [
            | done _ ↦ g p.state p.verified
            | alarmed _ ↦ p
            | panicked ↦ p
            | unfinished ↦ p
          ])
    go (done u) = h p.state p.verified
    go (alarmed a) = refl
    go panicked = refl
    go unfinished = refl

after_check-and_then :
    (r : Run State) (state : State) (verified : ℕ) (whole first : State → Progress)
    (g : State → ℕ → Progress)
    → ((state' : State) → whole state' ≡ and_then (first state') g)
    → after_check r state verified whole ≡ and_then (after_check r state verified first) g
after_check-and_then (done state') state verified whole first g h = h state'
after_check-and_then (alarmed a) state verified whole first g h = refl
after_check-and_then panicked state verified whole first g h = refl
after_check-and_then unfinished state verified whole first g h = refl

module _ ⦃hx : Hex⦄ ⦃bls : Bls⦄ ⦃s : Sha256⦄ ⦃gz : Gzip⦄ ⦃sha : Sha384⦄ ⦃pb : Prost⦄ where
  check_each-append :
      (n : ℕ) (xs ys : List (Decoded Bytes)) (state : State) (verified : ℕ)
      → check_each n (xs ++ ys) state verified
        ≡ and_then
            (check_each n xs state verified)
            (λ state' verified'. check_each (n + length xs) ys state' verified')
  unfolding check_each
  check_each-append n [] ys state verified = let same : n + 0 ≡ n = omega arith in rw same refl
  check_each-append n (x ∷ xs) ys state verified =
      let moved : suc n + length xs ≡ n + suc (length xs) = omega arith in
      after_check-and_then (check_fetched n x state) state verified _ _
        (check_each (n + length (x ∷ xs)) ys)
        (λ state'. rw moved at (check_each-append (suc n) xs ys state' ((verified + 1) % u64_mod)))

  -- Where nothing is left behind the batch, its number does not matter.
  after :
      (source : Source) (from to a b : ℕ) (state : State) (verified : ℕ)
      → from ≤ to
      → to + fetch_batch ≤ u64_mod
      → a ≡ min ((from + fetch_batch - 1) % u64_mod) to + 1 - from
      → b ≡ to + 1 - (from + fetch_batch)
      → check_each (from + fetch_batch) (fetch_range source (from + fetch_batch) b) state verified
        ≡ check_each (from + a) (fetch_range source (from + a) b) state verified
  unfolding check_each fetch_range
  after source from to a zero state verified h room e f = refl
  after source from to a (suc b) state verified h room e f =
      let same : from + a ≡ from + fetch_batch = omega arith in rw same refl

  verify_batches_round :
      (source : Source) (fuel from to : ℕ) (state : State) (verified : ℕ)
      → ltb to from ≡ false
      → verify_batches source (suc fuel) from to state verified
        ≡ and_then
            (check_each from
              (fetch_range source from (min ((from + fetch_batch - 1) % u64_mod) to + 1 - from))
              state
              verified)
            (λ state' verified'.
              verify_batches source fuel (from + fetch_batch) to state' verified')
  unfolding verify_batches
  verify_batches_round source fuel from to state verified inside =
      ap
        (λ b.
          if b
          then record { state = state; verified = verified; outcome = done tt }
          else and_then
              (check_each from
                (fetch_range source from (min ((from + fetch_batch - 1) % u64_mod) to + 1 - from))
                state verified)
              (λ state' verified'.
                verify_batches source fuel (from + fetch_batch) to state' verified'))
        inside

  -- Fetching in batches of 32 and checking each batch in order has the outcome, the state and the count
  -- of checking the blocks from the first to the last one by one, where the last number is at most
  -- 2 ^ 64 - 32; as many rounds as blocks are enough.
  pub verify_batches-check_each :
      (source : Source) (fuel from to : ℕ) (state : State) (verified : ℕ)
      → to + 1 - from ≤ fuel
      → to + fetch_batch ≤ u64_mod
      → verify_batches source fuel from to state verified
        ≡ check_each from (fetch_range source from (to + 1 - from)) state verified
  unfolding verify_batches check_each
  verify_batches-check_each source zero from to state verified enough room =
      let past : to < from = omega arith in
      rw (lt→ltb to from past, empty_range source from to past) refl
  verify_batches-check_each source (suc fuel) from to state verified enough room =
      elim (Bool-cases (ltb to from)) [
        | inl past ↦ rw (past, empty_range source from to (ltb→lt to from past)) refl
        | inr inside ↦
            let here = ltb→le to from inside in
            let a = min ((from + fetch_batch - 1) % u64_mod) to + 1 - from in
            let b = to + 1 - (from + fetch_batch) in
            let split : a + b ≡ to + 1 - from = omega (arith, here, room) in
            let first = fetch_range source from a in
            let parted : fetch_range source from (to + 1 - from)
                ≡ first ++ fetch_range source (from + a) b =
              rw split at (fetch_range-add source from a b) in
            let sized : length first ≡ a = length-fetch_range source from a in
            verify_batches_round source fuel from to state verified inside
            ∙ (and_then-cong (check_each from first state verified) _ _ (λ state' verified'.
                  verify_batches-check_each source fuel (from + fetch_batch) to state' verified'
                    (omega arith) room
                  ∙ after source from to a b state' verified' here room refl refl)
                ∙ ap
                    (λ m. and_then (check_each from first state verified) (λ state' verified'.
                      check_each (from + m) (fetch_range source (from + a) b) state' verified'))
                    (sym sized)
                ∙ sym
                    (check_each-append from first (fetch_range source (from + a) b) state verified)
                ∙ ap (λ t. check_each from t state verified) (sym parted))
      ]
