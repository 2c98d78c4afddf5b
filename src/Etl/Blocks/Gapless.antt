-- ===== src/Etl/Blocks/Gapless.antt =====
-- What `--verify-chain` of src/cli/etl/block.rs says of the blocks, in the order of their numbers.
use mathlib.Core.List.Perm
use mathlib.Core.List.{Perm}
use hiero_streams_rs.Prelude.{
  ℕ, zero, suc, ◌+◌, ◌≡◌, refl, inl, inr, Bool, true, false, not, not-false, Bool-cases, some, List,
  [], ◌∷◌, ltb, leb, ==_iff, if◌then◌else◌, get_elem?, bytes_eq, bytes_eq→eq, u64_mod,
}
use hiero_streams_rs.Text.{Text}
use hiero_streams_rs.Stream.{Gzip}
use hiero_streams_rs.Hapi.{Prost}
use hiero_streams_rs.Block.Merkle.{Sha384}
use hiero_streams_rs.Etl.Types.{Failure, Job, done, failed, >>=-eq-done, Files}
use hiero_streams_rs.Etl.Workers.{map_job, parse_all, parse_all-map_job}
use hiero_streams_rs.Etl.Blocks.{
  BlockFile, insert_block, sort_blocks, is_gap, check_pair, check_windows, check_if, partition_days,
  write_days, parse_block_file, run,
}

-- The second block continues the first.
abbrev pub Continues : BlockFile → BlockFile → Type 0
Continues prev next =
    (next.info.block_number ≡ prev.info.block_number + 1)
    × (next.info.previous_block_root ≡ prev.info.block_root)

abbrev pub Gapless : List BlockFile → Type 0
Gapless blocks =
    (i : ℕ) (prev next : BlockFile)
    → get_elem? blocks i ≡ some prev
    → get_elem? blocks (suc i) ≡ some next
    → Continues prev next

insert_block-Perm : (b : BlockFile) (bs : List BlockFile) → Perm (insert_block b bs) (b ∷ bs)
unfolding insert_block
insert_block-Perm b [] = Perm.refl (b ∷ [])
insert_block-Perm b (c ∷ cs) = elim (Bool-cases (leb b.info.block_number c.info.block_number)) [
  | inl first ↦ rw first (Perm.refl (b ∷ (c ∷ cs)))
  | inr later ↦ rw later (Perm.trans (Perm.cons c (insert_block-Perm b cs)) (Perm.swap b c cs))
]

sort_blocks-Perm : (bs : List BlockFile) → Perm (sort_blocks bs) bs
unfolding sort_blocks
sort_blocks-Perm [] = Perm.refl []
sort_blocks-Perm (b ∷ bs) =
    Perm.trans (insert_block-Perm b (sort_blocks bs)) (Perm.cons b (sort_blocks-Perm bs))

is_gap-no : (prev next : ℕ) → is_gap prev next ≡ false → next ≡ prev + 1
unfolding is_gap
is_gap-no prev next h = elim (Bool-cases (ltb (prev + 1) u64_mod)) [
  | inl fits ↦ (==_iff _ _).0 (not-false _ (rw fits at h))
  | inr over ↦ absurd (cc (rw over at h))
]

past_guard :
    (b : Bool) (e : Failure) (m : Job (Unit {0})) {u : Unit {0}}
    → (if b then failed e else m) ≡ done u
    → (b ≡ false) × (m ≡ done u)
past_guard true e m h = absurd (cc h)
past_guard false e m h = (refl, h)

check_pair-Continues : (b c : BlockFile) {u : Unit {0}} → check_pair b c ≡ done u → Continues b c
unfolding check_pair
check_pair-Continues b c h =
    let (number, h₁) = past_guard (is_gap b.info.block_number c.info.block_number) _ _ h in
    let (root, _) =
      past_guard (not (bytes_eq c.info.previous_block_root b.info.block_root)) _ _ h₁ in
    (is_gap-no _ _ number, bytes_eq→eq _ _ (not-false _ root))

some_injective {ℓ} : {A : Type ℓ} {a b : A} → some a ≡ some b → a ≡ b
some_injective h = cc

Gapless-cons :
    (b c : BlockFile) (cs : List BlockFile)
    → Continues b c
    → Gapless (c ∷ cs)
    → Gapless (b ∷ (c ∷ cs))
Gapless-cons b c cs l g zero prev next p q = rw (← some_injective p, ← some_injective q) l
Gapless-cons b c cs l g (suc i) prev next p q = g i prev next p q

check_windows-Gapless :
    (bs : List BlockFile) {u : Unit {0}} → check_windows bs ≡ done u → Gapless bs
unfolding check_windows
check_windows-Gapless [] h = λ i a b p q. cc
check_windows-Gapless (b ∷ []) h = λ i a c p q. cc
check_windows-Gapless (b ∷ (c ∷ cs)) h =
    let (_, first, h₁) = >>=-eq-done (check_pair b c) _ h in
    Gapless-cons b c cs (check_pair-Continues b c first) (check_windows-Gapless (c ∷ cs) h₁)

module _ ⦃gz : Gzip⦄ ⦃sha : Sha384⦄ ⦃pb : Prost⦄ where
  -- If the run with `--verify-chain` succeeds, every file parses, and the blocks, sorted, are the
  -- parsed ones, without a gap: each has the number after the one before it, and claims as the previous
  -- root the one that was recomputed for that block.
  pub run-Gapless :
      (fs : Files) (threads : ℕ) (with_transfers : Bool) (names : List Text) (total : ℕ)
      → run fs threads true with_transfers names ≡ done total
      → (parsed : List BlockFile) × (blocks : List BlockFile) × (map_job (parse_block_file fs) names
          ≡ done parsed)
        × Perm blocks parsed
        × Gapless blocks
        × (write_days fs with_transfers (partition_days blocks []) ≡ done total)
  unfolding run check_if
  run-Gapless fs threads with_transfers names total h =
      let (parsed, a, h₁) = >>=-eq-done (parse_all threads (parse_block_file fs) names) _ h in
      let (_, c, h₂) = >>=-eq-done (check_windows (sort_blocks parsed)) _ h₁ in
      (
        parsed,
        sort_blocks parsed,
        parse_all-map_job threads (parse_block_file fs) names parsed a,
        sort_blocks-Perm parsed,
        check_windows-Gapless (sort_blocks parsed) c,
        h₂,
      )
