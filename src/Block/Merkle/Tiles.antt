-- ===== src/Block/Merkle/Tiles.antt =====
-- Peaks that lie side by side over the leaves, from left to right, each with its root: the peaks of
-- src/block/merkle.rs and what `peak_root` makes of them.
use hiero_streams_rs.Prelude.{
  ℕ, zero, suc, ◌+◌, ◌-◌, ◌^◌, ◌≤◌, ◌<◌, ◌≡◌, refl, sym, ap, ◌∙◌, List, [], ◌∷◌, ◌++◌, arith,
  length, Bytes, length-append, append_assoc, append-nil, get_elem?, drop-length_append,
  take-length_append, none,
}
use hiero_streams_rs.Result.{ok, map_result, map_result-cons}
use hiero_streams_rs.Block.Merkle.{Sha384, slice, peak_root, rposition}
use hiero_streams_rs.Block.Merkle.Levels.{Perfect, length-Perfect, perfect_root-Perfect}

pub slice_behind {ℓ} :
    {A : Type ℓ} (front run rest : List A) (start size : ℕ)
    → start ≡ length front
    → size ≡ length run
    → slice ((front ++ run) ++ rest) start size ≡ ok run
unfolding slice
slice_behind front run rest start size e h = rw (append_assoc front run rest) (
    ground (
      arith,
      length-append front (run ++ rest),
      length-append run rest,
      drop-length_append front (run ++ rest) start e,
      take-length_append run rest size h,
    ))

pub get_elem?-append_left {ℓ} :
    {A : Type ℓ} (xs ys : List A) (i : ℕ) → i < length xs → get_elem? (xs ++ ys) i ≡ get_elem? xs i
get_elem?-append_left [] ys i h = elim h [ ]
get_elem?-append_left (x ∷ xs) ys zero h = refl
get_elem?-append_left (x ∷ xs) ys (suc i) h = get_elem?-append_left xs ys i (omega arith)

pub get_elem?-append_right {ℓ} :
    {A : Type ℓ} (xs ys : List A) (i : ℕ)
    → length xs ≤ i
    → get_elem? (xs ++ ys) i ≡ get_elem? ys (i - length xs)
get_elem?-append_right [] ys i h = let e : i - 0 ≡ i = omega arith in rw e
get_elem?-append_right (x ∷ xs) ys zero h = absurd (omega arith)
get_elem?-append_right (x ∷ xs) ys (suc i) h =
    let e : suc i - suc (length xs) ≡ i - length xs = omega arith in
    rw e (get_elem?-append_right xs ys i (omega arith))

module _ ⦃sha : Sha384⦄ where
  pub data Tiles : ℕ → List (ℕ × ℕ) → List Bytes → List Bytes → Type 0 where
    done : {start : ℕ} → Tiles start [] [] []
    tile :
        {start at size next k : ℕ} {bounds : List (ℕ × ℕ)} {run leaves all roots : List Bytes}
        {r : Bytes}
        → at ≡ start
        → Perfect k run r
        → size ≡ 2 ^ k
        → next ≡ start + size
        → all ≡ run ++ leaves
        → Tiles next bounds leaves roots
        → Tiles start ((at, size) ∷ bounds) all (r ∷ roots)

  pub Tiles-snoc :
      {start : ℕ} {bounds : List (ℕ × ℕ)} {leaves roots : List Bytes} {k size behind : ℕ}
      {run all : List Bytes} {r : Bytes}
      → Tiles start bounds leaves roots
      → behind ≡ start + length leaves
      → size ≡ 2 ^ k
      → all ≡ leaves ++ run
      → Perfect k run r
      → Tiles start (bounds ++ ((behind, size) ∷ [])) all (roots ++ (r ∷ []))
  Tiles-snoc {start} {size = size} {run = run} done b s e p =
      tile {next = start + size} {run = run} {leaves = []} (omega arith) p s refl (rw append-nil e)
        done
  Tiles-snoc {run = run} (tile {run = first} {leaves = leaves} h q z n a t) b s e p =
      tile h q z n (e ∙ rw a (append_assoc first leaves run)) (
        Tiles-snoc t (omega (arith, ap length a, length-append first leaves, length-Perfect q)) s
          refl p)

  pub peak_root_behind :
      {k : ℕ} (front run rest : List Bytes) (r : Bytes) (start size : ℕ)
      → start ≡ length front
      → size ≡ 2 ^ k
      → Perfect k run r
      → peak_root ((front ++ run) ++ rest) (start, size) ≡ ok r
  unfolding peak_root
  peak_root_behind {k} front run rest r start size e z p = ground (
    arith,
    slice_behind front run rest start size e (z ∙ sym (length-Perfect p)),
    perfect_root-Perfect p,
  )

  -- The peaks' roots, computed from all the leaves.
  pub Tiles-roots :
      {start : ℕ} {bounds : List (ℕ × ℕ)} {leaves roots : List Bytes} (front : List Bytes)
      → Tiles start bounds leaves roots
      → start ≡ length front
      → map_result (peak_root (front ++ leaves)) bounds ≡ ok roots
  Tiles-roots front done h = unfold map_result in refl
  Tiles-roots {start} front
        (tile {at = at} {size = size} {bounds = bounds} {run = run} {leaves = leaves} {r = r} e p z
          n a t)
        h =
      let regroup : (front ++ run) ++ leaves ≡ front ++ (run ++ leaves) =
        append_assoc front run leaves in
      let first = peak_root_behind front run leaves r at size (omega arith) z p in
      let others =
        Tiles-roots (front ++ run) t (omega (arith, length-append front run, length-Perfect p)) in
      rw (a, ← regroup)
        (map_result-cons (peak_root ((front ++ run) ++ leaves)) (at, size) bounds first others)

  -- No peak from `start` on begins at or before an earlier index.
  pub rposition_before :
      {start : ℕ} {bounds : List (ℕ × ℕ)} {leaves roots : List Bytes} (index : ℕ)
      → Tiles start bounds leaves roots
      → index < start
      → rposition index bounds ≡ none
  unfolding rposition
  rposition_before index done h = refl
  rposition_before index (tile e p z n a t) h = ground (arith, rposition_before index t)
