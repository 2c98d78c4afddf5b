-- ===== src/Block/Merkle/Range.antt =====
-- The streaming hasher of src/block/merkle.rs is a binary counter: its stack holds the root of a
-- perfect run of leaves for each set bit of the leaf count.
use hiero_streams_rs.Prelude.{
  ℕ, suc, ◌+◌, ◌*◌, ◌/◌, ◌%◌, ◌<◌, ◌≡◌, refl, sym, ◌∙◌, List, [], ◌∷◌, ◌++◌, arith, length, Bytes,
  length-append, append_assoc, append-nil, u64_mod,
}
use hiero_streams_rs.Result.{ok}
use hiero_streams_rs.Block.Merkle.{
  Sha384, hash_internal, fold_up, StreamingTreeHasher, new_hasher, add_leaf, add_leaves,
}
use hiero_streams_rs.Block.Merkle.Levels.{Perfect, one, Perfect-join}

module _ ⦃sha : Sha384⦄ where
  -- `n` counts in units of 2 ^ k leaves; the stack is listed from its top, the smallest run.
  pub data Range : ℕ → ℕ → List Bytes → List Bytes → Type 0 where
    end : {k n : ℕ} → n ≡ 0 → Range k n [] []
    skip :
        {k n m : ℕ} {leaves stack : List Bytes}
        → m ≡ 2 * n
        → Range (suc k) n leaves stack
        → Range k m leaves stack
    peak :
        {k n m : ℕ} {leaves all run stack : List Bytes} {r : Bytes}
        → m ≡ 2 * n + 1
        → all ≡ leaves ++ run
        → Range (suc k) n leaves stack
        → Perfect k run r
        → Range k m all (r ∷ stack)

  fold_up-even :
      (n : ℕ) (r : Bytes) (stack : List Bytes) → n % 2 ≡ 0 → fold_up n (r ∷ stack) ≡ ok (r ∷ stack)
  unfolding fold_up
  fold_up-even n r [] h = ground arith
  fold_up-even n r (l ∷ stack) h = ground arith

  fold_up-odd :
      (n : ℕ) (r l : Bytes) (stack : List Bytes)
      → n % 2 ≡ 1
      → fold_up n (r ∷ (l ∷ stack)) ≡ fold_up (n / 2) (hash_internal l r ∷ stack)
  unfolding fold_up
  fold_up-odd n r l stack h = ground arith

  fold_up-Range :
      {k n : ℕ} {leaves stack : List Bytes} (run : List Bytes) (r : Bytes)
      → Range k n leaves stack
      → Perfect k run r
      → (stack' : List Bytes) × (fold_up n (r ∷ stack) ≡ ok stack')
        × Range k (n + 1) (leaves ++ run) stack'
  fold_up-Range {k} {n} run r (end z) p =
      (r ∷ [], fold_up-even n r [] (omega arith), peak {n = 0} (omega arith) refl (end refl) p)
  fold_up-Range {k} {n} {leaves} {stack} run r (skip {n = half} d g) p =
      (r ∷ stack, fold_up-even n r stack (omega arith), peak (omega arith) refl g p)
  fold_up-Range {k} {n = m} run r
        (peak {n = n} {leaves = leaves} {run = run'} {stack = stack} {r = l} d e g p') p =
      let (stack', q, g') = fold_up-Range (run' ++ run) (hash_internal l r) g (Perfect-join p' p) in
      let half : m / 2 ≡ n = omega arith in
      let regroup : leaves ++ (run' ++ run) ≡ (leaves ++ run') ++ run =
        sym (append_assoc leaves run' run) in
      (
        stack',
        fold_up-odd m r l stack (omega arith) ∙ rw half q,
        skip {n = n + 1} (omega arith) (rw e (rw (sym regroup) g')),
      )

  -- What a hasher that was given `leaves` holds.
  pub record IsHasherOf (leaves : List Bytes) (t : StreamingTreeHasher) : Type 0 where
    pub counted : t.leaf_count ≡ length leaves
    pub range : Range 0 (length leaves) leaves t.stack

  pub IsHasherOf-new : IsHasherOf [] new_hasher
  IsHasherOf-new = record { counted = refl; range = end refl }

  -- `add_leaf` never pops an empty stack, and keeps the counter's shape.
  pub add_leaf-IsHasherOf :
      (leaves : List Bytes) (t : StreamingTreeHasher) (hash : Bytes)
      → IsHasherOf leaves t
      → length leaves + 1 < u64_mod
      → (t' : StreamingTreeHasher) × (add_leaf t hash ≡ ok t')
        × IsHasherOf (leaves ++ (hash ∷ [])) t'
  unfolding add_leaf
  add_leaf-IsHasherOf leaves t hash h room =
      let (stack', q, g) = fold_up-Range (hash ∷ []) hash h.range one in
      let size : length leaves + 1 ≡ length (leaves ++ (hash ∷ [])) =
        omega (arith, length-append leaves (hash ∷ [])) in
      (
        record { stack = stack'; leaf_count = (t.leaf_count + 1) % u64_mod },
        rw (h.counted, q),
        record { counted = omega (arith, h.counted); range = rw (sym size) g },
      )

  pub add_leaves-IsHasherOf :
      (front leaves : List Bytes) (t : StreamingTreeHasher)
      → IsHasherOf front t
      → length (front ++ leaves) < u64_mod
      → (t' : StreamingTreeHasher) × (add_leaves t leaves ≡ ok t') × IsHasherOf (front ++ leaves) t'
  unfolding add_leaves
  add_leaves-IsHasherOf front [] t h room = (t, refl, rw append-nil h)
  add_leaves-IsHasherOf front (hash ∷ leaves) t h room =
      let (t₁, q, h₁) =
        add_leaf-IsHasherOf front t hash h (omega (arith, length-append front (hash ∷ leaves))) in
      let regroup : (front ++ (hash ∷ [])) ++ leaves ≡ front ++ (hash ∷ leaves) =
        append_assoc front (hash ∷ []) leaves in
      let (t₂, q', h₂) =
        add_leaves-IsHasherOf (front ++ (hash ∷ [])) leaves t₁ h₁ (rw regroup room) in
      (t₂, rw q q', rw (sym regroup) h₂)
