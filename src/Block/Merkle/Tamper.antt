-- ===== src/Block/Merkle/Tamper.antt =====
-- Folding a witness (src/block/merkle.rs) binds the leaf: another leaf under the same witness gives
-- another root, or two inputs of SHA-384 with one digest.
use mathlib.Core.List.{foldl}
use hiero_streams_rs.Prelude.{
  ℕ, ◌≡◌, refl, sym, ap, ◌∙◌, ◌≢◌, ◌⊎◌, inl, inr, true, false, Bool-cases, List, [], ◌∷◌, ◌++◌,
  arith, reverse, length, Bytes, Option, none, some, bytes_eq, bytes_eq→eq, bytes_eq_refl,
  take-length_append, drop-length_append,
}
use hiero_streams_rs.Block.Merkle.{
  Sha384, Side, left, right, MerkleWitness, hash_internal, wrap_left, step_up, absorb_right,
  fold_witness,
}

bytes_dec : (xs ys : Bytes) → (xs ≡ ys) ⊎ (xs ≢ ys)
bytes_dec xs ys = elim (Bool-cases (bytes_eq xs ys)) [
  | inl e ↦ inl (bytes_eq→eq xs ys e)
  | inr n ↦ inr (λ e. cc (bytes_eq_refl xs, ap (bytes_eq xs) e))
]

append_cancel_left : (s a b : Bytes) → s ++ a ≡ s ++ b → a ≡ b
append_cancel_left [] a b e = e
append_cancel_left (x ∷ s) a b e = append_cancel_left s a b (cc)

append_cancel_right : (a b s : Bytes) → length a ≡ length b → a ++ s ≡ b ++ s → a ≡ b
append_cancel_right a b s h e =
    sym (take-length_append a s (length a) refl)
    ∙ ap (λ t. hiero_streams_rs.Prelude.take (length a) t) e
    ∙ take-length_append b s (length a) h

module _ ⦃sha : Sha384⦄ where
  -- Two inputs with one digest.
  abbrev pub Collision : Type 0
  Collision = (x : Bytes) × (y : Bytes) × (x ≢ y) × (sha.digest x ≡ sha.digest y)

  -- Different values of one length, each under the same step, stay different or collide.
  pub record Differ (a b : Bytes) : Type 0 where
    pub size : length a ≡ length b
    pub apart : a ≢ b

  pub digest_apart : (x y : Bytes) → x ≢ y → Collision ⊎ Differ (sha.digest x) (sha.digest y)
  digest_apart x y n = elim (bytes_dec (sha.digest x) (sha.digest y)) [
    | inl e ↦ inl (x, y, n, e)
    | inr d ↦ inr (record { size = sha.length-digest x ∙ sym (sha.length-digest y); apart = d })
  ]

  pub under_left :
      (s a b : Bytes) → Differ a b → Collision ⊎ Differ (hash_internal s a) (hash_internal s b)
  unfolding hash_internal
  under_left s a b d =
      digest_apart (2 ∷ (s ++ a)) (2 ∷ (s ++ b)) (λ e. d.apart (append_cancel_left s a b (cc)))

  pub under_right :
      (s a b : Bytes) → Differ a b → Collision ⊎ Differ (hash_internal a s) (hash_internal b s)
  unfolding hash_internal
  under_right s a b d =
      digest_apart (2 ∷ (a ++ s)) (2 ∷ (b ++ s))
        (λ e. d.apart (append_cancel_right a b s d.size (cc)))

  step_up_apart :
      (siblings : List (Side × Bytes)) (a b : Bytes)
      → Differ a b
      → Collision ⊎ Differ (foldl step_up a siblings) (foldl step_up b siblings)
  unfolding step_up
  step_up_apart [] a b d = inr d
  step_up_apart ((left, s) ∷ siblings) a b d = elim (under_left s a b d) [
    | inl c ↦ inl c
    | inr d' ↦ step_up_apart siblings (hash_internal s a) (hash_internal s b) d'
  ]
  step_up_apart ((right, s) ∷ siblings) a b d = elim (under_right s a b d) [
    | inl c ↦ inl c
    | inr d' ↦ step_up_apart siblings (hash_internal a s) (hash_internal b s) d'
  ]

  wrap_left_apart :
      (peaks : List Bytes) (a b : Bytes)
      → Differ a b
      → Collision ⊎ Differ (wrap_left a peaks) (wrap_left b peaks)
  unfolding wrap_left
  wrap_left_apart [] a b d = inr d
  wrap_left_apart (s ∷ peaks) a b d = elim (under_left s a b d) [
    | inl c ↦ inl c
    | inr d' ↦ wrap_left_apart peaks (hash_internal s a) (hash_internal s b) d'
  ]

  absorb_right_apart :
      (o : Option Bytes) (a b : Bytes)
      → Differ a b
      → Collision ⊎ Differ (absorb_right a o) (absorb_right b o)
  absorb_right_apart none a b d = inr d
  absorb_right_apart (some s) a b d = under_right s a b d

  pub and_then :
      {a b c d : Bytes}
      → Collision ⊎ Differ a b
      → (Differ a b → Collision ⊎ Differ c d)
      → Collision ⊎ Differ c d
  and_then (inl c) k = inl c
  and_then (inr d) k = k d

  pub fold_witness_apart :
      (w : MerkleWitness) (a b : Bytes)
      → Differ a b
      → Collision ⊎ Differ (fold_witness a w) (fold_witness b w)
  unfolding fold_witness
  fold_witness_apart w a b d =
      let climbed = step_up_apart w.siblings a b d in
      let absorbed = and_then climbed (absorb_right_apart w.right_root _ _) in
      and_then absorbed (wrap_left_apart (reverse w.left_peaks) _ _)

  -- Two leaf hashes of one length that differ, folded by the same witness, give two roots that differ,
  -- or there are two different inputs of SHA-384 with the same digest.
  pub fold_witness_binds :
      (w : MerkleWitness) (a b : Bytes)
      → length a ≡ length b
      → a ≢ b
      → Collision ⊎ (fold_witness a w ≢ fold_witness b w)
  fold_witness_binds w a b size n =
      elim (fold_witness_apart w a b (record { size = size; apart = n })) [
        | inl c ↦ inl c
        | inr d ↦ inr d.apart
      ]
