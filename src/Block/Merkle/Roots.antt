-- ===== src/Block/Merkle/Roots.antt =====
-- The streaming hasher and `merkle_root` of src/block/merkle.rs compute the same root.
use mathlib.Core.List.{reverse-reverse}
use hiero_streams_rs.Prelude.{
  ◌<◌, ◌≡◌, refl, ap, List, [], ◌∷◌, arith, reverse, length, Bytes, u64_mod, none, some, Option,
}
use hiero_streams_rs.Result.{ok}
use hiero_streams_rs.Block.Merkle.{
  Sha384, hash_leaf, wrap_left, peak_bounds, fold_peaks, merkle_root, root, StreamingTreeHasher,
  new_hasher, add_leaves, unwrap_or,
}
use hiero_streams_rs.Block.Merkle.Range.{IsHasherOf, IsHasherOf-new, add_leaves-IsHasherOf}
use hiero_streams_rs.Block.Merkle.Tiles.{Tiles, Tiles-roots}
use hiero_streams_rs.Block.Merkle.Peaks.{Range-Covers}

module _ ⦃sha : Sha384⦄ where
  root-eq-fold_peaks :
      (t : StreamingTreeHasher) → unwrap_or (fold_peaks (reverse t.stack)) (hash_leaf []) ≡ root t
  unfolding root fold_peaks
  root-eq-fold_peaks t = rw (reverse-reverse, fold_peaks) (cases t.stack)
    where
      cases :
          (stack : List Bytes)
          → unwrap_or
              (elim stack as (λ _. Option Bytes) [
                | [] ↦ none
                | last ∷ rest ↦ some (wrap_left last rest)
              ])
              (hash_leaf [])
            ≡ (elim stack as (λ _. Bytes) [ [] ↦ hash_leaf [] | last ∷ rest ↦ wrap_left last rest ])
      cases [] = refl
      cases (last ∷ rest) = refl

  -- The hasher that holds `leaves` has the peaks of `peak_bounds`, in order, on its stack.
  pub IsHasherOf-Tiles :
      (leaves : List Bytes) (t : StreamingTreeHasher)
      → IsHasherOf leaves t
      → length leaves < u64_mod
      → Tiles 0 (peak_bounds (length leaves)) leaves (reverse t.stack)
  unfolding peak_bounds
  IsHasherOf-Tiles leaves t h room =
      let c = Range-Covers (length leaves) 64 h.range (omega arith) (omega arith) in
      rw (c.finds, peak_bounds) c.tiles

  pub merkle_root-eq-root :
      (leaves : List Bytes) (t : StreamingTreeHasher)
      → IsHasherOf leaves t
      → length leaves < u64_mod
      → merkle_root leaves ≡ ok (root t)
  unfolding merkle_root
  merkle_root-eq-root leaves t h room =
      rw (Tiles-roots [] (IsHasherOf-Tiles leaves t h room) refl) (ap ok (root-eq-fold_peaks t))

  -- For fewer than 2 ^ 64 leaves, adding them one by one to a new hasher does not panic, and its root
  -- is the one that `merkle_root` computes from all the leaves, which does not panic either.
  pub merkle_root-add_leaves :
      (leaves : List Bytes)
      → length leaves < u64_mod
      → (t : StreamingTreeHasher) × (add_leaves new_hasher leaves ≡ ok t)
        × (merkle_root leaves ≡ ok (root t))
  merkle_root-add_leaves leaves room =
      let (t, q, h) = add_leaves-IsHasherOf [] leaves new_hasher IsHasherOf-new room in
      (t, q, merkle_root-eq-root leaves t h room)
