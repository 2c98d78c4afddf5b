-- ===== src/Block/Merkle/Peaks.antt =====
-- The peaks that `peak_bounds` cuts the leaves into (src/block/merkle.rs) are the runs of the
-- streaming hasher, so `merkle_root` and the streaming hasher agree.
use mathlib.Core.List.{reverse-cons}
use mathlib.Core.Path.{subst}
use native.Mathlib.Nat.{pow-suc, div-div-eq-div-mul}
use hiero_streams_rs.Prelude.{
  ℕ, zero, suc, ◌+◌, ◌/◌, ◌%◌, ◌^◌, ◌<◌, ◌≡◌, refl, sym, ap, ◌∙◌, List, [], ◌∷◌, ◌++◌, arith,
  reverse, length, Bytes, length-append,
}
use hiero_streams_rs.Result.{map_result}
use hiero_streams_rs.Block.Merkle.{Sha384, peak_step, peak_loop}
use hiero_streams_rs.Block.Merkle.Levels.{length-Perfect}
use hiero_streams_rs.Block.Merkle.Tiles.{Tiles, done, Tiles-snoc}
use hiero_streams_rs.Block.Merkle.Range.{Range, end, skip, peak}

half_shift : (m k : ℕ) → m / 2 ^ suc k ≡ m / 2 ^ k / 2
half_shift m k = rw pow-suc (sym (div-div-eq-div-mul m (2 ^ k) 2))

peak_loop_empty : (m k j : ℕ) → m / 2 ^ k ≡ 0 → peak_loop m k j ≡ ([], 0)
unfolding peak_loop peak_step
peak_loop_empty m k zero h = refl
peak_loop_empty m k (suc j) h =
    rw (peak_loop_empty m (suc k) j (omega (arith, half_shift m k))) (ground arith)

-- A round over a bit that is not set, and over one that is.
peak_loop_skip : (m k j : ℕ) → m / 2 ^ k % 2 ≡ 0 → peak_loop m k (suc j) ≡ peak_loop m (suc k) j
unfolding peak_loop peak_step
peak_loop_skip m k j h = ground arith

peak_loop_take :
    (m k j : ℕ) (bounds : List (ℕ × ℕ)) (start : ℕ)
    → m / 2 ^ k % 2 ≡ 1
    → peak_loop m (suc k) j ≡ (bounds, start)
    → peak_loop m k (suc j) ≡ (bounds ++ ((start, 2 ^ k) ∷ []), start + 2 ^ k)
unfolding peak_loop peak_step
peak_loop_take m k j bounds start h e = ground arith

module _ ⦃sha : Sha384⦄ where
  -- The loop over the bits from k on finds one peak for each entry of the stack.
  pub record Covers (m k j : ℕ) (leaves stack : List Bytes) : Type 0 where
    pub bounds : List (ℕ × ℕ)
    pub finds : peak_loop m k j ≡ (bounds, length leaves)
    pub tiles : Tiles 0 bounds leaves (reverse stack)

  pub Range-Covers :
      {k n : ℕ} {leaves stack : List Bytes} (m j : ℕ)
      → Range k n leaves stack
      → m / 2 ^ k ≡ n
      → n < 2 ^ j
      → Covers m k j leaves stack
  unfolding peak_loop map_result
  Range-Covers {k} m j (end z) d h = record {
    bounds = [];
    finds = peak_loop_empty m k j (d ∙ z);
    tiles = done;
  }
  Range-Covers {k} m zero (skip {n = n} e g) d h =
      let c = Range-Covers m zero g (omega (arith, half_shift m k)) (omega arith) in
      record { bounds = c.bounds; finds = c.finds; tiles = c.tiles }
  Range-Covers {k} m (suc j) (skip {n = n} e g) d h =
      let c = Range-Covers m j g (omega (arith, half_shift m k)) (omega (arith, pow-suc 2 j)) in
      record {
        bounds = c.bounds;
        finds = peak_loop_skip m k j (omega arith) ∙ c.finds;
        tiles = c.tiles;
      }
  Range-Covers {k} m zero (peak e all g p) d h = absurd (omega arith)
  Range-Covers {k} {leaves = xs} m (suc j)
        (peak {n = n} {leaves = leaves} {run = run} {stack = stack} {r = r} e all g p) d h =
      let c = Range-Covers m j g (omega (arith, half_shift m k)) (omega (arith, pow-suc 2 j)) in
      let size : length leaves + 2 ^ k ≡ length xs =
        omega (arith, ap length all, length-append leaves run, length-Perfect p) in
      record {
        bounds = c.bounds ++ ((length leaves, 2 ^ k) ∷ []);
        finds =
            peak_loop_take m k j c.bounds (length leaves) (omega arith) c.finds
            ∙ ap (λ t. (c.bounds ++ ((length leaves, 2 ^ k) ∷ []), t)) size;
        tiles =
            subst (Tiles 0 (c.bounds ++ ((length leaves, 2 ^ k) ∷ [])) xs)
              (sym (reverse-cons r stack)) (Tiles-snoc c.tiles (omega arith) refl all p);
      }
