-- ===== src/Block/Merkle/Paths.antt =====
-- The path of `peak_path` (src/block/merkle.rs), folded from its leaf, gives the root of the peak.
use mathlib.Core.List.{foldl}
use native.Mathlib.Nat.{pow-suc}
use hiero_streams_rs.Prelude.{
  ℕ, zero, suc, ◌+◌, ◌-◌, ◌*◌, ◌/◌, ◌%◌, ◌^◌, ◌≤◌, ◌<◌, ◌≡◌, refl, inl, inr, Bool-cases, some, List,
  [], ◌∷◌, arith, length, get_elem?, Bytes, ltb, ◌==◌, get_elem?-some, get_elem?-none,
}
use hiero_streams_rs.Result.{ok}
use hiero_streams_rs.Block.Merkle.{
  Sha384, Side, left, right, pair_up, sibling_at, path_loop, peak_path, step_up,
}
use hiero_streams_rs.Block.Merkle.Levels.{
  Perfect, one, up, length-Perfect, get_elem?-pair_up, power_pos,
}

-- A read that succeeds is in range.
pub get_elem?-lt {ℓ} :
    {A : Type ℓ} (xs : List A) (i : ℕ) {a : A} → get_elem? xs i ≡ some a → i < length xs
get_elem?-lt xs i e = elim (Bool-cases (ltb i (length xs))) [
  | inl h ↦ ground arith
  | inr h ↦ cc (get_elem?-none xs i (ground arith))
]

module _ ⦃sha : Sha384⦄ where
  -- One level: the sibling is there, and the next level holds the pair's hash.
  record Climb (level next : List Bytes) (pos : ℕ) (leaf : Bytes) : Type 0 where
    sibling : Side × Bytes
    reads : sibling_at level pos ≡ ok sibling
    above : get_elem? next (pos / 2) ≡ some (step_up leaf sibling)

  climb :
      (level next : List Bytes) (pos m : ℕ) (leaf : Bytes)
      → length level ≡ 2 * m
      → pair_up level ≡ ok next
      → get_elem? level pos ≡ some leaf
      → Climb level next pos leaf
  unfolding sibling_at step_up
  climb level next pos m leaf size e here = elim (Bool-cases (pos % 2 == 0)) [
    | inl even ↦
        let (s, there) =
          get_elem?-some level (suc pos) (ground (arith, get_elem?-lt level pos here)) in
        let next_is : suc pos ≡ pos + 1 = omega arith in
        record {
          sibling = (right, s);
          reads = rw even (rw (← next_is) (rw there));
          above = get_elem?-pair_up level pos (pos / 2) (ground arith) e here there;
        }
    | inr odd ↦
        let before : suc (pos - 1) ≡ pos = ground arith in
        let (s, there) =
          get_elem?-some level (pos - 1) (omega (arith, get_elem?-lt level pos here)) in
        record {
          sibling = (left, s);
          reads = rw odd (rw there);
          above =
              get_elem?-pair_up level (pos - 1) (pos / 2) (ground arith) e there (rw before here);
        }
  ]

  path_loop-Perfect :
      {k : ℕ} {level : List Bytes} {r : Bytes} (fuel pos : ℕ) (leaf : Bytes)
      → Perfect k level r
      → length level ≤ fuel
      → get_elem? level pos ≡ some leaf
      → (siblings : List (Side × Bytes)) × (path_loop fuel level pos ≡ ok siblings)
        × (foldl step_up leaf siblings ≡ r)
  unfolding path_loop
  path_loop-Perfect zero pos leaf one h here = absurd (omega arith)
  path_loop-Perfect (suc fuel) zero leaf one h here = ([], refl, ground arith)
  path_loop-Perfect (suc fuel) (suc pos) leaf one h here = cc
  path_loop-Perfect zero pos leaf (up {k = k} e s p) h here =
      absurd (omega (arith, power_pos (suc k)))
  path_loop-Perfect (suc fuel) pos leaf (up {k = k} {level = level} {next = next} e s p) h here =
      let c = climb level next pos (2 ^ k) leaf (omega (arith, pow-suc 2 k)) e here in
      let (siblings, q, total) =
        path_loop-Perfect fuel (pos / 2) (step_up leaf c.sibling) p
          (omega (arith, length-Perfect p, pow-suc 2 k, power_pos k)) c.above in
      (c.sibling ∷ siblings, ground (arith, pow-suc 2 k, power_pos k, e, c.reads, q), total)

  -- For a leaf of a run of 2 ^ k leaves, `peak_path` returns a path, and folding it from the leaf
  -- gives the run's root.
  pub peak_path-Perfect :
      {k : ℕ} {level : List Bytes} {r : Bytes} (pos : ℕ) (leaf : Bytes)
      → Perfect k level r
      → get_elem? level pos ≡ some leaf
      → (siblings : List (Side × Bytes)) × (peak_path level pos ≡ ok siblings)
        × (foldl step_up leaf siblings ≡ r)
  unfolding peak_path
  peak_path-Perfect {level = level} pos leaf p here =
      path_loop-Perfect (length level) pos leaf p (omega arith) here
