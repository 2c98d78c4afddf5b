-- ===== src/Block/Merkle.antt =====
-- src/block/merkle.rs: the streaming tree hasher, the merkle root from the leaves at once, and
-- inclusion witnesses. SHA-384 comes from another crate, and is the parameter `Sha384`. A hash is the
-- list of its bytes, since the source also feeds byte slices of any length to `hash_internal`.
pub mod Levels
pub mod Paths
pub mod Range
pub mod Peaks
pub mod Tiles
pub mod Roots
pub mod Witness
pub mod Tamper
use mathlib.Core.List.{foldl}
use hiero_streams_rs.Prelude.{
  ℕ, zero, suc, ◌+◌, ◌-◌, ◌*◌, ◌/◌, ◌%◌, ◌^◌, ◌≡◌, Bool, Option, none, some, List, [], ◌∷◌, ◌++◌,
  reverse, ltb, leb, ◌==◌, if◌then◌else◌, length, get_elem?, take, drop, Bytes, u64_mod,
}
use hiero_streams_rs.Result.{Result, ok, panic, stuck, ◌>>=◌, expect, map_result}

-- The hash function, with the length of its digests.
pub record Sha384 : Type 0 where
  pub digest : Bytes → Bytes
  pub length-digest : (b : Bytes) → length (digest b) ≡ 48

abbrev pub hash_length : ℕ
hash_length = 48

-- Which side of a pairing a witness sibling sits on.
pub data Side : Type 0 where
  left right : Side

pub record MerkleWitness : Type 0 where
  pub siblings : List (Side × Bytes)
  pub left_peaks : List Bytes
  pub right_root : Option Bytes

-- The stack is listed from its top.
pub record StreamingTreeHasher : Type 0 where
  pub stack : List Bytes
  pub leaf_count : ℕ

abbrev pub new_hasher : StreamingTreeHasher
new_hasher = record { stack = []; leaf_count = 0 }

-- `n & size != 0` for `size = 1 << bit`.
abbrev pub has_bit : ℕ → ℕ → Bool
has_bit n bit = n / 2 ^ bit % 2 == 1

-- One round of the loop of `peak_bounds`, over its `peaks` and `start`.
unfoldable pub peak_step : ℕ → ℕ → List (ℕ × ℕ) × ℕ → List (ℕ × ℕ) × ℕ
peak_step n bit (peaks, start) =
    if has_bit n bit then (peaks ++ ((start, 2 ^ bit) ∷ []), start + 2 ^ bit) else (peaks, start)

-- The loop over the bits from `low + count` down to `low`, the first excluded.
unfoldable pub peak_loop : ℕ → ℕ → ℕ → List (ℕ × ℕ) × ℕ
peak_loop n low zero = ([], 0)
peak_loop n low (suc count) = peak_step n low (peak_loop n (suc low) count)

unfoldable pub peak_bounds : ℕ → List (ℕ × ℕ)
peak_bounds n = (peak_loop n 0 64).0

-- `leaves[start..start + size]`
unfoldable pub slice {ℓ} : {A : Type ℓ} → List A → ℕ → ℕ → Result (List A)
slice leaves start size =
    if leb (start + size) (length leaves) then ok (take size (drop start leaves)) else panic

-- `iter().rposition(|&(start, _)| start <= index)`
unfoldable pub rposition : ℕ → List (ℕ × ℕ) → Option ℕ
rposition index [] = none
rposition index ((start, size) ∷ peaks) = elim (rposition index peaks) [
  | some i ↦ some (suc i)
  | none ↦ if leb start index then some 0 else none
]

abbrev pub unwrap_or {ℓ} : {A : Type ℓ} → Option A → A → A
unwrap_or none d = d
unwrap_or (some a) d = a

module _ ⦃sha : Sha384⦄ where
  unfoldable pub hash_leaf : Bytes → Bytes
  hash_leaf leaf_bytes = sha.digest (0 ∷ leaf_bytes)

  unfoldable pub hash_internal : Bytes → Bytes → Bytes
  hash_internal l r = sha.digest (2 ∷ (l ++ r))

  unfoldable pub hash_internal_single_child : Bytes → Bytes
  hash_internal_single_child child = sha.digest (1 ∷ child)

  -- The `while n & 1 == 1` loop of `add_leaf`; popping an empty stack is a failed `expect`.
  unfoldable pub fold_up : ℕ → List Bytes → Result (List Bytes)
  fold_up n [] = if n % 2 == 1 then panic else ok []
  fold_up n (r ∷ []) = if n % 2 == 1 then panic else ok (r ∷ [])
  fold_up n (r ∷ (l ∷ stack)) =
      let rest = fold_up (n / 2) (hash_internal l r ∷ stack) in
      if n % 2 == 1 then rest else ok (r ∷ (l ∷ stack))

  unfoldable pub add_leaf : StreamingTreeHasher → Bytes → Result StreamingTreeHasher
  add_leaf t hash = do
    stack ← fold_up t.leaf_count (hash ∷ t.stack)
    ok (record { stack = stack; leaf_count = (t.leaf_count + 1) % u64_mod })

  -- `for hash in rest.iter().rev() { root = hash_internal(hash, &root) }`, over `rest` reversed
  unfoldable pub wrap_left : Bytes → List Bytes → Bytes
  wrap_left = foldl (λ acc hash. hash_internal hash acc)

  unfoldable pub root : StreamingTreeHasher → Bytes
  root t = elim t.stack [ [] ↦ hash_leaf [] | last ∷ rest ↦ wrap_left last rest ]

  -- The leaves of a tree, added one by one to a new hasher.
  pub add_leaves : StreamingTreeHasher → List Bytes → Result StreamingTreeHasher
  add_leaves t [] = ok t
  add_leaves t (hash ∷ hashes) = do t' ← add_leaf t hash; add_leaves t' hashes

  -- The inner loop of `perfect_root` and `peak_path`: `level[i + 1]` panics on an odd level.
  pub pair_up : List Bytes → Result (List Bytes)
  pair_up [] = ok []
  pair_up (l ∷ []) = panic
  pair_up (l ∷ (r ∷ level)) = do next ← pair_up level; ok (hash_internal l r ∷ next)

  unfoldable pub perfect_loop : ℕ → List Bytes → Result (List Bytes)
  perfect_loop zero level = if ltb 1 (length level) then stuck else ok level
  perfect_loop (suc fuel) level =
      let round : Result (List Bytes) = (do next ← pair_up level; perfect_loop fuel next) in
      if ltb 1 (length level) then round else ok level

  -- Each round halves the level, so that `length` rounds are enough.
  unfoldable pub perfect_root : List Bytes → Result Bytes
  perfect_root leaves = do level ← perfect_loop (length leaves) leaves; expect (get_elem? level 0)

  -- `split_last` of the roots, which stand from left to right.
  unfoldable pub fold_peaks : List Bytes → Option Bytes
  fold_peaks roots = elim (reverse roots) [ [] ↦ none | last ∷ rest ↦ some (wrap_left last rest) ]

  unfoldable pub peak_root : List Bytes → ℕ × ℕ → Result Bytes
  peak_root leaves (start, size) = do run ← slice leaves start size; perfect_root run

  pub merkle_root : List Bytes → Result Bytes
  merkle_root leaves = do
    roots ← map_result (peak_root leaves) (peak_bounds (length leaves))
    ok (unwrap_or (fold_peaks roots) (hash_leaf []))

  -- The sibling of position `pos`, with its side.
  pub sibling_at : List Bytes → ℕ → Result (Side × Bytes)
  sibling_at level pos =
      if pos % 2 == 0
      then (do s ← expect (get_elem? level (pos + 1)); ok (right, s))
      else (do s ← expect (get_elem? level (pos - 1)); ok (left, s))

  unfoldable pub path_loop : ℕ → List Bytes → ℕ → Result (List (Side × Bytes))
  path_loop zero level pos = if ltb 1 (length level) then stuck else ok []
  path_loop (suc fuel) level pos =
      let round : Result (List (Side × Bytes)) = (do
        sibling ← sibling_at level pos
        next ← pair_up level
        siblings ← path_loop fuel next (pos / 2)
        ok (sibling ∷ siblings)) in
      if ltb 1 (length level) then round else ok []

  unfoldable pub peak_path : List Bytes → ℕ → Result (List (Side × Bytes))
  peak_path peak_leaves pos = path_loop (length peak_leaves) peak_leaves pos

  -- The witness for the leaf at `index`, in peak `p` of `peaks`.
  unfoldable pub witness_in : List Bytes → List (ℕ × ℕ) → ℕ → ℕ → Result MerkleWitness
  witness_in leaves peaks p index = do
    (start, size) ← expect (get_elem? peaks p)
    peak_leaves ← slice leaves start size
    siblings ← peak_path peak_leaves (index - start)
    left_peaks ← map_result (peak_root leaves) (take p peaks)
    right_roots ← map_result (peak_root leaves) (drop (suc p) peaks)
    ok (record {
      siblings = siblings;
      left_peaks = left_peaks;
      right_root = fold_peaks right_roots;
    })

  unfoldable pub witness_for : List Bytes → ℕ → Result (Option MerkleWitness)
  witness_for leaves index = if leb (length leaves) index then ok none else (do
    let peaks = peak_bounds (length leaves)
    p ← expect (rposition index peaks)
    w ← witness_in leaves peaks p index
    ok (some w))

  pub step_up : Bytes → Side × Bytes → Bytes
  step_up acc (left, sibling) = hash_internal sibling acc
  step_up acc (right, sibling) = hash_internal acc sibling

  abbrev pub absorb_right : Bytes → Option Bytes → Bytes
  absorb_right acc none = acc
  absorb_right acc (some r) = hash_internal acc r

  unfoldable pub fold_witness : Bytes → MerkleWitness → Bytes
  fold_witness leaf w =
      wrap_left (absorb_right (foldl step_up leaf w.siblings) w.right_root) (reverse w.left_peaks)
