-- ===== src/Block/Merkle/Witness.antt =====
-- `witness_for` and `fold_witness` of src/block/merkle.rs: the witness of a leaf folds to the root.
use mathlib.Core.List.{foldl-append, reverse-append, reverse-cons}
use hiero_streams_rs.Prelude.{
  ℕ, suc, ◌+◌, ◌-◌, ◌≤◌, ◌<◌, ◌^◌, ◌≡◌, refl, sym, ap, ◌∙◌, List, [], ◌∷◌, ◌++◌, arith, reverse,
  length, Bytes, u64_mod, none, some, Option, get_elem?, take, drop, append_assoc, length-append,
  Bool-cases, inl, inr, ltb,
}
use hiero_streams_rs.Result.{ok, map_result, map_result-cons}
use hiero_streams_rs.Block.Merkle.{
  Sha384, MerkleWitness, wrap_left, peak_bounds, peak_root, fold_peaks, merkle_root, slice,
  rposition, witness_in, witness_for, absorb_right, fold_witness, new_hasher,
}
use hiero_streams_rs.Block.Merkle.Levels.{Perfect, length-Perfect}
use hiero_streams_rs.Block.Merkle.Paths.{peak_path-Perfect, get_elem?-lt}
use hiero_streams_rs.Block.Merkle.Range.{IsHasherOf-new, add_leaves-IsHasherOf}
use hiero_streams_rs.Block.Merkle.Tiles.{
  Tiles, done, tile, Tiles-roots, rposition_before, slice_behind, peak_root_behind,
  get_elem?-append_left, get_elem?-append_right,
}
use hiero_streams_rs.Block.Merkle.Roots.{IsHasherOf-Tiles}

module _ ⦃sha : Sha384⦄ where
  -- The peak that holds the leaf at `index`, and the roots on both of its sides.
  record Found (leaves : List Bytes) (bounds : List (ℕ × ℕ)) (roots : List Bytes) (index : ℕ)
      (leaf : Bytes) : Type 0 where
    p : ℕ
    start : ℕ
    size : ℕ
    k : ℕ
    run : List Bytes
    r : Bytes
    lefts : List Bytes
    rights : List Bytes
    position : rposition index bounds ≡ some p
    bound : get_elem? bounds p ≡ some (start, size)
    cut : slice leaves start size ≡ ok run
    perfect : Perfect k run r
    holds : get_elem? run (index - start) ≡ some leaf
    left_roots : map_result (peak_root leaves) (take p bounds) ≡ ok lefts
    right_roots : map_result (peak_root leaves) (drop (suc p) bounds) ≡ ok rights
    split : roots ≡ lefts ++ (r ∷ rights)

  rposition_here :
      (index at size : ℕ) (bounds : List (ℕ × ℕ))
      → rposition index bounds ≡ none
      → at ≤ index
      → rposition index ((at, size) ∷ bounds) ≡ some 0
  unfolding rposition
  rposition_here index at size bounds e h = ground arith

  rposition_later :
      (index at size p : ℕ) (bounds : List (ℕ × ℕ))
      → rposition index bounds ≡ some p
      → rposition index ((at, size) ∷ bounds) ≡ some (suc p)
  unfolding rposition
  rposition_later index at size p bounds e = ground arith

  -- The leaf lies in the first peak.
  Found-first :
      {start next k : ℕ} {bounds : List (ℕ × ℕ)} {leaves roots : List Bytes}
      (front run : List Bytes) (r : Bytes) (at size index : ℕ) (leaf : Bytes)
      → at ≡ length front
      → start ≡ at
      → Perfect k run r
      → size ≡ 2 ^ k
      → next ≡ start + size
      → Tiles next bounds leaves roots
      → start ≤ index
      → index < next
      → get_elem? (run ++ leaves) (index - start) ≡ some leaf
      → Found (front ++ (run ++ leaves)) ((at, size) ∷ bounds) (r ∷ roots) index leaf
  Found-first {start} {next} {k} {bounds} {leaves} {roots} front run r at size index leaf h e p z n
        t lo hi here =
      let regroup = append_assoc front run leaves in
      record {
        p = 0;
        start = at;
        size = size;
        k = k;
        run = run;
        r = r;
        lefts = [];
        rights = roots;
        position = rposition_here index at size bounds (rposition_before index t hi) (omega arith);
        bound = refl;
        cut = rw (← regroup) (slice_behind front run leaves at size h (z ∙ sym (length-Perfect p)));
        perfect = p;
        holds =
            ap (get_elem? run) (omega arith)
            ∙ sym
                (get_elem?-append_left run leaves (index - start) (omega (arith, length-Perfect p)))
            ∙ here;
        left_roots = unfold map_result in refl;
        right_roots = rw (← regroup) (
            Tiles-roots (front ++ run) t
              (omega (arith, length-append front run, length-Perfect p)));
        split = refl;
      }

  -- The leaf lies behind the first peak.
  Found-later :
      {k : ℕ} {bounds : List (ℕ × ℕ)} {roots : List Bytes} (front run leaves : List Bytes)
      (r : Bytes) (at size index : ℕ) (leaf : Bytes)
      → at ≡ length front
      → Perfect k run r
      → size ≡ 2 ^ k
      → Found ((front ++ run) ++ leaves) bounds roots index leaf
      → Found (front ++ (run ++ leaves)) ((at, size) ∷ bounds) (r ∷ roots) index leaf
  Found-later {k} {bounds} {roots} front run leaves r at size index leaf h p z f =
      let regroup = append_assoc front run leaves in
      record {
        p = suc f.p;
        start = f.start;
        size = f.size;
        k = f.k;
        run = f.run;
        r = f.r;
        lefts = r ∷ f.lefts;
        rights = f.rights;
        position = rposition_later index at size f.p bounds f.position;
        bound = f.bound;
        cut = rw (← regroup) f.cut;
        perfect = f.perfect;
        holds = f.holds;
        left_roots = rw (← regroup) (
            map_result-cons (peak_root ((front ++ run) ++ leaves)) (at, size) (take f.p bounds)
              (peak_root_behind front run leaves r at size h z p) f.left_roots);
        right_roots = rw (← regroup) f.right_roots;
        split = ap (λ t. r ∷ t) f.split;
      }

  Tiles-Found :
      {start : ℕ} {bounds : List (ℕ × ℕ)} {leaves roots : List Bytes} (front : List Bytes)
      (index : ℕ) (leaf : Bytes)
      → Tiles start bounds leaves roots
      → start ≡ length front
      → start ≤ index
      → get_elem? leaves (index - start) ≡ some leaf
      → Found (front ++ leaves) bounds roots index leaf
  Tiles-Found front index leaf done h lo here = cc
  Tiles-Found {start} {leaves = all} front index leaf
        (tile {at = at} {size = size} {next = next} {bounds = bounds} {run = run} {leaves = leaves}
          {roots = roots} {r = r} e p z n a t)
        h lo here =
      let here' = rw a at here in
      elim (Bool-cases (ltb index next)) [
        | inl first ↦ rw a (
            Found-first front run r at size index leaf (e ∙ h) (sym e) p z n t lo (ground arith)
              here')
        | inr later ↦
            let gap : index - start - length run ≡ index - next =
              ground (arith, length-Perfect p) in
            let deeper : get_elem? leaves (index - next) ≡ some leaf =
              ap (get_elem? leaves) (sym gap)
              ∙ sym (
                  get_elem?-append_right run leaves (index - start)
                    (ground (arith, length-Perfect p)))
              ∙ here' in
            rw a (
              Found-later front run leaves r at size index leaf (e ∙ h) p z (
                Tiles-Found (front ++ run) index leaf t
                  (omega (arith, length-append front run, length-Perfect p)) (ground arith) deeper))
      ]

  -- The peaks' fold, split at one of them.
  fold_peaks_split :
      (lefts rights : List Bytes) (r : Bytes)
      → fold_peaks (lefts ++ (r ∷ rights))
        ≡ some (wrap_left (absorb_right r (fold_peaks rights)) (reverse lefts))
  unfolding fold_peaks wrap_left
  fold_peaks_split lefts rights r =
      rw (reverse-append lefts (r ∷ rights), reverse-cons r rights, fold_peaks)
        (cases (reverse rights))
    where
      cases :
          (rs : List Bytes)
          → (elim (((rs ++ (r ∷ [])) ++ reverse lefts)) as (λ _. Option Bytes) [
            | [] ↦ none
            | last ∷ rest ↦ some (wrap_left last rest)
          ])
            ≡ some (
                wrap_left
                  (absorb_right r (elim rs as (λ _. Option Bytes) [
                    | [] ↦ none
                    | last ∷ rest ↦ some (wrap_left last rest)
                  ]))
                  (reverse lefts))
      cases [] = refl
      cases (last ∷ rest) = simp foldl-append

  witness_in-Found :
      {leaves : List Bytes} {bounds : List (ℕ × ℕ)} {roots : List Bytes} {index : ℕ} {leaf : Bytes}
      → (f : Found leaves bounds roots index leaf)
      → (w : MerkleWitness) × (witness_in leaves bounds f.p index ≡ ok w)
        × (fold_peaks roots ≡ some (fold_witness leaf w))
  unfolding witness_in fold_witness
  witness_in-Found {leaves} {bounds} {roots} {index} {leaf} f =
      let (siblings, path, total) = peak_path-Perfect (index - f.start) leaf f.perfect f.holds in
      (
        record { siblings = siblings; left_peaks = f.lefts; right_root = fold_peaks f.rights },
        rw (f.bound, f.cut, path, f.left_roots, f.right_roots),
        rw (f.split, total) (fold_peaks_split f.lefts f.rights f.r),
      )

  witness_for-Found :
      {leaves roots : List Bytes} {index : ℕ} {leaf : Bytes}
      → index < length leaves
      → Found leaves (peak_bounds (length leaves)) roots index leaf
      → (w : MerkleWitness) × (witness_for leaves index ≡ ok (some w))
        × (fold_peaks roots ≡ some (fold_witness leaf w))
  unfolding witness_for
  witness_for-Found {leaves} {roots} {index} {leaf} h f =
      let (w, q, e) = witness_in-Found f in (w, ground (arith, f.position, q), e)

  merkle_root-fold_peaks :
      (leaves roots : List Bytes) (r : Bytes)
      → map_result (peak_root leaves) (peak_bounds (length leaves)) ≡ ok roots
      → fold_peaks roots ≡ some r
      → merkle_root leaves ≡ ok r
  unfolding merkle_root
  merkle_root-fold_peaks leaves roots r e h = rw (e, h)

  -- For fewer than 2 ^ 64 leaves and each of them, `witness_for` returns a witness, without a panic, and
  -- folding the witness from that leaf gives the `merkle_root` of all the leaves.
  pub fold_witness-witness_for :
      (leaves : List Bytes) (index : ℕ) (leaf : Bytes)
      → length leaves < u64_mod
      → get_elem? leaves index ≡ some leaf
      → (w : MerkleWitness) × (witness_for leaves index ≡ ok (some w))
        × (merkle_root leaves ≡ ok (fold_witness leaf w))
  fold_witness-witness_for leaves index leaf room here =
      let (t, q, h) = add_leaves-IsHasherOf [] leaves new_hasher IsHasherOf-new room in
      let tiles = IsHasherOf-Tiles leaves t h room in
      let same : index - 0 ≡ index = omega arith in
      let f = Tiles-Found [] index leaf tiles refl (omega arith) (rw same here) in
      let (w, e, folds) = witness_for-Found (get_elem?-lt leaves index here) f in
      (w, e, merkle_root-fold_peaks leaves _ _ (Tiles-roots [] tiles refl) folds)

  -- `witness_for` answers `None` at every index past the last leaf.
  pub witness_for_out_of_range :
      (leaves : List Bytes) (index : ℕ) → length leaves ≤ index → witness_for leaves index ≡ ok none
  unfolding witness_for
  witness_for_out_of_range leaves index h = ground arith
