-- ===== src/Sentinel/Window/Resume.antt =====
-- What a run of src/cli/sentinel.rs saves, and where the next run goes on.
use hiero_streams_rs.Prelude.{
  ℕ, suc, ◌+◌, ◌-◌, ◌%◌, ◌≤◌, ◌<◌, ◌≡◌, refl, sym, ap, ◌∙◌, inl, inr, true, Option, some, arith,
  ltb, lt→ltb, ltb→lt, ltb→le, Bool-cases, u64_mod,
}
use Prim.Native.Nat.{min}
use hiero_streams_rs.Hex.{Hex}
use hiero_streams_rs.Stream.{Gzip}
use hiero_streams_rs.Hapi.{Prost}
use hiero_streams_rs.Block.Merkle.{Sha384}
use hiero_streams_rs.Block.Proof.Curves.{Bls, Sha256}
use hiero_streams_rs.Sentinel.{unwrap_or_zero}
use hiero_streams_rs.Sentinel.Types.{State, Source, Run, done, alarmed, panicked, unfinished}
use hiero_streams_rs.Sentinel.Newest.{newest}
use hiero_streams_rs.Sentinel.Batches.{Progress, fetch_batch, verify_batches}
use hiero_streams_rs.Sentinel.Batches.Sequential.{verify_batches-check_each}
use hiero_streams_rs.Sentinel.Chain.{Chain, Advances, check_each-Advances}
use hiero_streams_rs.Sentinel.Chain.Links.{Tip, Chain-Tip}
use hiero_streams_rs.Sentinel.Window.{
  Options, window, capped, persist, conclude, verify_window, run_from, run_in, run,
}

conclude-saved :
    (options : Options) (p : Progress) (state : State)
    → (conclude options p).saved ≡ some state
    → (state ≡ persist options p) × ((conclude options p).exit ≡ p.outcome)
unfolding conclude
conclude-saved options p state h = go p.outcome refl
  where
    go :
        (r : Run (Unit {0}))
        → p.outcome ≡ r
        → (state ≡ persist options p) × ((conclude options p).exit ≡ p.outcome)
    go (done u) e = (cc (e, h), rw e refl)
    go (alarmed a) e = (cc (e, h), rw e refl)
    go panicked e = absurd (cc (rw e at h))
    go unfinished e = absurd (cc (rw e at h))

-- What `persist` leaves of the state that the loop reached.
persist_keeps :
    (options : Options) (p : Progress)
    → ((persist options p).last_block ≡ p.state.last_block)
      × ((persist options p).last_root ≡ p.state.last_root)
unfolding persist
persist_keeps options p = elim (Bool-cases (ltb 0 p.verified)) [
  | inl e ↦ rw e (refl, refl)
  | inr e ↦ rw e (refl, refl)
]

persist_initialized :
    (options : Options) (p : Progress)
    → 0 < p.verified
    → ((persist options p).initialized ≡ true)
      × ((persist options p).verified_total
          ≡ some ((unwrap_or_zero p.state.verified_total + p.verified) % u64_mod))
unfolding persist
persist_initialized options p h = rw (lt→ltb 0 p.verified h) (refl, refl)

window-last :
    (state : State) (init : Option ℕ) (last : ℕ)
    → state.initialized ≡ true
    → state.last_block ≡ some last
    → window state init ≡ done (last, suc last % u64_mod)
unfolding window
window-last state init last e f =
    let next_block : (last + 1) % u64_mod ≡ suc last % u64_mod = omega arith in
    rw (e, f) (ap (λ n. done (last, n)) next_block)

-- A window is cut to `max_blocks` blocks.
pub capped_lem :
    (first last max_blocks : ℕ)
    → first ≤ last
    → last + 1 < u64_mod
    → 0 < max_blocks
    → capped first last max_blocks + 1 - first ≡ min max_blocks (last + 1 - first)
unfolding capped
capped_lem first last max_blocks h room some_blocks =
    elim (Bool-cases (ltb max_blocks ((last - first + 1) % u64_mod))) [
      | inl cut ↦
          let less = ltb→lt max_blocks ((last - first + 1) % u64_mod) cut in
          rw cut (omega (arith, less, h, room, some_blocks))
      | inr whole ↦
          let enough = ltb→le max_blocks ((last - first + 1) % u64_mod) whole in
          rw whole (omega (arith, enough, h))
    ]

capped_bound :
    (first last max_blocks : ℕ)
    → first ≤ last
    → last + 1 < u64_mod
    → 0 < max_blocks
    → capped first last max_blocks ≤ last
capped_bound first last max_blocks h room some_blocks =
    let cut = capped_lem first last max_blocks h room some_blocks in omega (arith, cut, h)

module _ ⦃hx : Hex⦄ ⦃bls : Bls⦄ ⦃s : Sha256⦄ ⦃gz : Gzip⦄ ⦃sha : Sha384⦄ ⦃pb : Prost⦄ where
  -- What a run from `first` to `last` that saved a state has done: it accepted a chain of blocks from
  -- `first` on, all of them if it succeeded; if there was one, the saved state names the last of them
  -- and its root, and counts them, and the next run starts behind it.
  pub record Resumes (source : Source) (state : State) (first last : ℕ) (saved : State)
      (exit : Run (Unit {0})) : Type 0 where
    pub accepted : ℕ
    pub bounded : accepted ≤ last + 1 - first
    pub reached : State
    pub chained : Chain source first state (first + accepted) reached
    pub complete : exit ≡ done tt → accepted ≡ last + 1 - first
    pub tip : 0 < accepted → Tip source (first + accepted) saved
    pub total :
        0 < accepted
        → saved.verified_total ≡ some ((unwrap_or_zero reached.verified_total + accepted) % u64_mod)
    pub goes_on :
        0 < accepted
        → (init : Option ℕ) → window saved init ≡ done (first + accepted - 1, first + accepted)

  conclude-Resumes :
      (source : Source) (options : Options) (state : State) (first last : ℕ) (saved : State)
      (p : Progress)
      → last + fetch_batch ≤ u64_mod
      → Advances source first (last + 1 - first) state 0 p
      → (conclude options p).saved ≡ some saved
      → Resumes source state first last saved (conclude options p).exit
  conclude-Resumes source options state first last saved p room a h =
      let (same, ends) = conclude-saved options p saved h in
      let counted : p.verified ≡ a.accepted =
        omega (arith, a.counted (omega arith), a.bounded, room) in
      let (same_block, same_root) = persist_keeps options p in
      let tip_of = λ (k : 0 < a.accepted). Chain-Tip source a.chained (omega (arith, k)) in
      let block_saved =
        λ (k : 0 < a.accepted). ap (λ t. t.last_block) same ∙ same_block ∙ (tip_of k).block_saved in
      let started =
        λ (k : 0 < a.accepted). persist_initialized options p (omega (arith, counted, k)) in
      record {
        accepted = a.accepted;
        bounded = a.bounded;
        reached = p.state;
        chained = a.chained;
        complete = λ e. a.finished (sym ends ∙ e);
        tip = λ k. record {
          number = (tip_of k).number;
          before = (tip_of k).before;
          material = (tip_of k).material;
          fetched = (tip_of k).fetched;
          numbered = (tip_of k).numbered;
          block_saved = block_saved k;
          root_saved = ap (λ t. t.last_root) same ∙ same_root ∙ (tip_of k).root_saved;
        };
        total = λ k.
            ap (λ t. t.verified_total) same
            ∙ (started k).1
            ∙ ap (λ n. some ((unwrap_or_zero p.state.verified_total + n) % u64_mod)) counted;
        goes_on = λ k init.
            let before : first + a.accepted ≡ suc (tip_of k).number = (tip_of k).before in
            let last_is : first + a.accepted - 1 ≡ (tip_of k).number = omega (arith, before) in
            let small : suc (tip_of k).number % u64_mod ≡ suc (tip_of k).number =
              omega (arith, before, a.bounded, room, k) in
            rw (last_is, before, ← small)
              (window-last saved init (tip_of k).number
                (ap (λ t. t.initialized) same ∙ (started k).0) (block_saved k));
      }

  verify_window-Resumes :
      (source : Source) (options : Options) (state : State) (first last : ℕ) (saved : State)
      → last + fetch_batch ≤ u64_mod
      → (verify_window source options state first last).saved ≡ some saved
      → Resumes source state first last saved (verify_window source options state first last).exit
  unfolding verify_window
  verify_window-Resumes source options state first last saved room h =
      conclude-Resumes source options state first last saved
        (verify_batches source (last + 1 - first) first last state 0) room
        (rw
          (verify_batches-check_each source (last + 1 - first) first last state 0 (omega arith)
            room)
          (check_each-Advances source first (last + 1 - first) state 0))
        h

  run_from-Resumes :
      (source : Source) (options : Options) (state : State) (first : ℕ) (found : Run ℕ)
      (saved : State)
      → 0 < options.max_blocks
      → ((last : ℕ) → found ≡ done last → last + fetch_batch ≤ u64_mod)
      → (run_from source options state first found).saved ≡ some saved
      → (last : ℕ) × (found ≡ done last)
        × (first ≤ last)
        × Resumes source state first
            (capped first last options.max_blocks)
            saved
            (run_from source options state first found).exit
  unfolding run_from
  run_from-Resumes source options state first (done last) saved some_blocks room h =
      elim (Bool-cases (ltb last first)) [
        | inl caught_up ↦ absurd (cc (rw caught_up at h))
        | inr behind ↦
            let h' = ltb→le last first behind in
            let fits = room last refl in
            let below =
              capped_bound first last options.max_blocks h' (omega (arith, fits)) some_blocks in
            (
              last,
              refl,
              h',
              rw behind (
                  verify_window-Resumes source options state first
                    (capped first last options.max_blocks) saved (omega (arith, fits, below))
                    (rw behind at h)),
            )
      ]
  run_from-Resumes source options state first (alarmed a) saved some_blocks room h = absurd (cc h)
  run_from-Resumes source options state first panicked saved some_blocks room h = absurd (cc h)
  run_from-Resumes source options state first unfinished saved some_blocks room h = absurd (cc h)

  run_in-Resumes :
      (source : Source) (options : Options) (state : State) (w : Run (ℕ × ℕ)) (saved : State)
      → 0 < options.max_blocks
      → ((floor last : ℕ) → newest source floor ≡ done last → last + fetch_batch ≤ u64_mod)
      → (run_in source options state w).saved ≡ some saved
      → (floor : ℕ) × (first : ℕ) × (last : ℕ) × (w ≡ done (floor, first))
        × (newest source floor ≡ done last)
        × (first ≤ last)
        × Resumes source state first
            (capped first last options.max_blocks)
            saved
            (run_in source options state w).exit
  unfolding run_in
  run_in-Resumes source options state (done (floor, first)) saved some_blocks room h =
      let (last, f, l, r) =
        run_from-Resumes source options state first (newest source floor) saved some_blocks
          (room floor) h in
      (floor, first, last, refl, f, l, r)
  run_in-Resumes source options state (alarmed a) saved some_blocks room h = absurd (cc h)
  run_in-Resumes source options state panicked saved some_blocks room h = absurd (cc h)
  run_in-Resumes source options state unfinished saved some_blocks room h = absurd (cc h)

  -- Where a run may verify some blocks, and the newest block of the source is at most 2 ^ 64 - 32: if
  -- the run saves a state, it found a window: it started at the block that the old state asks for, and
  -- the newest block is that one or a later one. From there it accepted a chain of blocks, each fetched
  -- and checked in the state that the one before left, and all of the capped window if it exits without an
  -- error. If it accepted any, the saved state names the last one and the root recomputed for it, adds
  -- their number to the total in 64 bits, and makes the next run start right behind it.
  pub run-Resumes :
      (source : Source) (options : Options) (state : State) (saved : State)
      → 0 < options.max_blocks
      → ((floor last : ℕ) → newest source floor ≡ done last → last + fetch_batch ≤ u64_mod)
      → (run source options state).saved ≡ some saved
      → (floor : ℕ) × (first : ℕ) × (last : ℕ) × (window state options.init_block
          ≡ done (floor, first))
        × (newest source floor ≡ done last)
        × (first ≤ last)
        × Resumes source state first
            (capped first last options.max_blocks)
            saved
            (run source options state).exit
  unfolding run
  run-Resumes source options state saved some_blocks room h =
      run_in-Resumes source options state (window state options.init_block) saved some_blocks room h
