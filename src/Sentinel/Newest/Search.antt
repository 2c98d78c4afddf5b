-- ===== src/Sentinel/Newest/Search.antt =====
-- The search for the newest block in src/cli/sentinel.rs ends, and finds a block whose successor is
-- missing.
use native.Mathlib.Nat.{pow-suc}
use hiero_streams_rs.Prelude.{
  ℕ, zero, suc, ◌+◌, ◌-◌, ◌*◌, ◌/◌, ◌%◌, ◌^◌, ◌≤◌, ◌<◌, ◌≡◌, refl, ap, ◌∙◌, inl, inr, Bool, true,
  false, arith, ltb, ltb→lt, ltb→le, Bool-cases, u64_mod,
}
use hiero_streams_rs.Hapi.{value}
use hiero_streams_rs.Sentinel.Types.{Source, done}
use hiero_streams_rs.Sentinel.Newest.{
  probe, expand, bisect, distance, first_step, search_fuel, newest_in_bucket,
}

-- No block has this number or a larger one.
abbrev pub far : ℕ
far = 2 ^ 60

distance-one : (lo hi : ℕ) → hi ≡ suc lo → hi < u64_mod → ltb 1 (distance lo hi) ≡ false
distance-one lo hi e h = let one : distance lo hi ≡ 1 = omega arith in rw one refl

next_of : (lo hi : ℕ) → lo < hi → hi < u64_mod → ltb 1 (distance lo hi) ≡ false → hi ≡ suc lo
next_of lo hi l h e = let small = ltb→le 1 (distance lo hi) e in omega (arith, small)

wide_of : (lo hi : ℕ) → lo < hi → hi < u64_mod → ltb 1 (distance lo hi) ≡ true → suc lo < hi
wide_of lo hi l h e = let large = ltb→lt 1 (distance lo hi) e in omega (arith, large)

module _ (source : Source) (present : ℕ → Bool)
    (answers : (n : ℕ) → source.exists n ≡ value (present n)) where
  probe-answer : (n : ℕ) → probe source n ≡ done (present n)
  unfolding probe
  probe-answer n = rw (answers n) refl

  -- A block that is there, and a later one that is not.
  record Bracket (lo hi : ℕ) : Type 0 where
    pub ordered : lo < hi
    pub low : present lo ≡ true
    pub high : present hi ≡ false

  below_far : (n : ℕ) → ((n : ℕ) → far ≤ n → present n ≡ false) → present n ≡ true → n < far
  below_far n none_far there = elim (Bool-cases (ltb n far)) [
    | inl near ↦ ltb→lt n far near
    | inr beyond ↦ absurd (cc (there, none_far n (ltb→le n far beyond)))
  ]

  largest_of :
      (n floor : ℕ)
      → ((a b : ℕ) → floor ≤ a → a ≤ b → present b ≡ true → present a ≡ true)
      → floor ≤ n
      → present (suc n) ≡ false
      → (m : ℕ) → present m ≡ true
      → m ≤ n
  largest_of n floor closed above gone m there = elim (Bool-cases (ltb n m)) [
    | inr within ↦ ltb→le n m within
    | inl beyond ↦
        absurd (cc (gone, closed (suc n) m (omega arith) (omega (arith, ltb→lt n m beyond)) there))
  ]

  bisect-found :
      (fuel lo hi : ℕ)
      → Bracket lo hi
      → hi < u64_mod
      → hi - lo ≤ 2 ^ fuel
      → (n : ℕ) × (bisect source fuel lo hi ≡ done n)
        × (present n ≡ true)
        × (present (suc n) ≡ false)
        × (lo ≤ n)
  unfolding bisect
  bisect-found zero lo hi b room close =
      let ordered = b.ordered in
      let next_to : hi ≡ suc lo = omega (arith, close, ordered) in
      let stop = distance-one lo hi next_to room in
      (lo, rw stop refl, b.low, rw (← next_to) b.high, omega arith)
  bisect-found (suc fuel) lo hi b room close = elim (Bool-cases (ltb 1 (distance lo hi))) [
    | inr stop ↦
        let next_to = next_of lo hi b.ordered room stop in
        (lo, rw stop refl, b.low, rw (← next_to) b.high, omega arith)
    | inl more ↦
        let wide = wide_of lo hi b.ordered room more in
        let mid = (lo + distance lo hi / 2) % u64_mod in
        let mid_is : mid ≡ lo + (hi - lo) / 2 = omega (arith, wide, room) in
        let halved : hi - lo ≤ 2 ^ fuel * 2 = omega (arith, close, pow-suc 2 fuel) in
        elim (Bool-cases (present mid)) [
          | inl there ↦
              let (n, e, p, q, l) =
                bisect-found fuel mid hi
                  (record { ordered = omega (arith, mid_is, wide); low = there; high = b.high })
                  room (omega (arith, mid_is, halved)) in
              (n, rw (more, probe-answer mid, there) e, p, q, omega (arith, mid_is, l))
          | inr missing ↦
              let (n, e, p, q, l) =
                bisect-found fuel lo mid
                  (record { ordered = omega (arith, mid_is, wide); low = b.low; high = missing })
                  (omega (arith, mid_is, room, wide)) (omega (arith, mid_is, halved)) in
              (n, rw (more, probe-answer mid, missing) e, p, q, l)
        ]
  ]

  expand_on :
      (fuel lo step hi : ℕ) {step' hi' : ℕ}
      → present hi ≡ true
      → step * 4 % u64_mod ≡ step'
      → (hi + step') % u64_mod ≡ hi'
      → expand source (suc fuel) lo step hi ≡ expand source fuel hi step' hi'
  unfolding expand
  expand_on fuel lo step hi there e e' = rw (probe-answer hi, there, e, e') refl

  -- The doubling keeps the step below four times what it has passed, and so far below 2 ^ 64.
  expand-found :
      (fuel floor lo step hi : ℕ)
      → ((n : ℕ) → far ≤ n → present n ≡ false)
      → present lo ≡ true
      → hi ≡ lo + step
      → floor ≤ lo
      → 0 < step
      → step ≤ 3 * lo + 1024
      → 2 ^ 62 ≤ step * 4 ^ fuel
      → (lo' : ℕ) × (hi' : ℕ) × (expand source fuel lo step hi ≡ done (lo', hi'))
        × Bracket lo' hi'
        × (hi' < 2 ^ 63)
        × (floor ≤ lo')
  unfolding expand
  expand-found zero floor lo step hi none_far low at_hi above positive slow enough =
      let near = below_far lo none_far low in absurd (omega (arith, near, slow, enough))
  expand-found (suc fuel) floor lo step hi none_far low at_hi above positive slow enough =
      let near = below_far lo none_far low in
      elim (Bool-cases (present hi)) [
        | inr missing ↦ (
          lo,
          hi,
          rw (probe-answer hi, missing) refl,
          record { ordered = omega (arith, at_hi, positive); low = low; high = missing },
          omega (arith, near, slow, at_hi),
          above,
        )
        | inl there ↦
            let near' = below_far hi none_far there in
            let no_wrap : step * 4 % u64_mod ≡ step * 4 = omega (arith, near, slow) in
            let no_wrap' : (hi + step * 4) % u64_mod ≡ hi + step * 4 =
              omega (arith, near', near, slow) in
            let grown : 2 ^ 62 ≤ step * 4 * 4 ^ fuel =
              omega (arith, enough, ap (λ (t : ℕ). step * t) (pow-suc 4 fuel)) in
            let (lo', hi', e, b, r, f) =
              expand-found fuel floor hi (step * 4) (hi + step * 4) none_far there refl
                (omega (arith, at_hi, above)) (omega (arith, positive)) (omega (arith, at_hi, slow))
                grown in
            (lo', hi', expand_on fuel lo step hi there no_wrap no_wrap' ∙ e, b, r, f)
      ]

  newest_by :
      (floor : ℕ) {hi lo' hi' : ℕ}
      → present floor ≡ true
      → (floor + first_step) % u64_mod ≡ hi
      → expand source search_fuel floor first_step hi ≡ done (lo', hi')
      → newest_in_bucket source floor ≡ bisect source search_fuel lo' hi'
  unfolding newest_in_bucket
  newest_by floor anchored same e = rw (probe-answer floor, anchored, same, e) refl

  newest_in_bucket-edge :
      (floor : ℕ)
      → present floor ≡ true
      → ((n : ℕ) → far ≤ n → present n ≡ false)
      → (n : ℕ) × (newest_in_bucket source floor ≡ done n)
        × (floor ≤ n)
        × (present n ≡ true)
        × (present (suc n) ≡ false)
  newest_in_bucket-edge floor anchored none_far =
      let near = below_far floor none_far anchored in
      let no_wrap : (floor + first_step) % u64_mod ≡ floor + first_step = omega (arith, near) in
      let (lo, hi, e, b, room, above) =
        expand-found search_fuel floor floor first_step (floor + first_step) none_far anchored refl
          (omega arith) (omega arith) (omega arith) (omega arith) in
      let (n, e', p, q, l) =
        bisect-found search_fuel lo hi b (omega (arith, room)) (omega (arith, room)) in
      (n, newest_by floor anchored no_wrap e ∙ e', omega (arith, above, l), p, q)

  -- For a source whose probes answer from a fixed set of blocks that has the search floor, no number
  -- from 2 ^ 60 on, and no gap above the floor: the search in the bucket ends without an error, at
  -- the largest number in the set.
  pub newest_in_bucket-found :
      (floor : ℕ)
      → present floor ≡ true
      → ((n : ℕ) → far ≤ n → present n ≡ false)
      → ((a b : ℕ) → floor ≤ a → a ≤ b → present b ≡ true → present a ≡ true)
      → (n : ℕ) × (newest_in_bucket source floor ≡ done n)
        × (floor ≤ n)
        × (present n ≡ true)
        × ((m : ℕ) → present m ≡ true → m ≤ n)
  newest_in_bucket-found floor anchored none_far closed =
      let (n, e, above, p, q) = newest_in_bucket-edge floor anchored none_far in
      (n, e, above, p, λ m there. largest_of n floor closed above q m there)
