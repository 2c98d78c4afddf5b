-- ===== src/Block/Material/Inclusion/Sound.antt =====
-- The inclusion witness of src/block/material.rs against the root that `scan_block` computes.
use hiero_streams_rs.Prelude.{
  ℕ, zero, suc, ◌<◌, ◌≡◌, refl, sym, ap, ◌∙◌, inl, inr, none, some, List, [], ◌∷◌, map, arith, ◌==◌,
  length, get_elem?, replicate, Bytes, u64_mod, Bool-cases,
}
use hiero_streams_rs.Result.{
  Result, ok, >>=-eq-ok, ok_injective, ok_or, ok_or-ok, expect-ok, expect,
}
use hiero_streams_rs.Stream.{Gzip, inflate}
use hiero_streams_rs.Stream.Detect.{inflate_ceiling}
use hiero_streams_rs.Hapi.{Prost, BlockHeader, BlockFooter}
use hiero_streams_rs.Block.Wire.{scan_block_items}
use hiero_streams_rs.Block.Wire.Scanned.{scan_block_items-IsScanned}
use hiero_streams_rs.Block.Merkle.{
  Sha384, MerkleWitness, root, hash_leaf, hash_length, witness_for, fold_witness,
}
use hiero_streams_rs.Block.Merkle.Roots.{merkle_root-eq-root}
use hiero_streams_rs.Block.Merkle.Witness.{fold_witness-witness_for}
use hiero_streams_rs.Block.Material.{
  Scan, ScannedBlock, new_scan, scan_items, finish_scan, scan_block, block_root_of, state_root_of,
  timestamp_bytes_of,
}
use hiero_streams_rs.Block.Material.Inclusion.{
  BlockInclusionWitness, Gathered, new_gathered, gather_items, finish_witness,
  block_inclusion_witness, recompute_block_root, to_hash48, checked_state_root,
}
use hiero_streams_rs.Block.Material.Inclusion.Lockstep.{DecodesByField, Agree, Agree-new}
use hiero_streams_rs.Block.Material.Inclusion.Loop.{Agree-scan_items}

to_hash48-same : (b c : Bytes) → to_hash48 b ≡ ok c → b ≡ c
unfolding to_hash48
to_hash48-same b c h = elim (Bool-cases (length b == hash_length)) [
  | inl fits ↦ cc (rw fits at h)
  | inr other ↦ absurd (cc (rw other at h))
]

checked_state_root-same :
    (f : BlockFooter) (c : Bytes) → checked_state_root f ≡ ok c → state_root_of f ≡ c
unfolding checked_state_root state_root_of
checked_state_root-same f c = cases f.start_of_block_state_root_hash
  where
    cases :
        (h : Bytes)
        → (elim h as (λ _. Result Bytes) [
          | [] ↦ ok (replicate hash_length 0)
          | b ∷ bs ↦ to_hash48 (b ∷ bs)
        ])
          ≡ ok c
        → (elim h as (λ _. Bytes) [ [] ↦ replicate hash_length 0 | b ∷ bs ↦ b ∷ bs ]) ≡ c
    cases [] e = cc
    cases (b ∷ bs) e = to_hash48-same (b ∷ bs) c e

get_elem?-map {ℓ κ} :
    {A : Type ℓ} {B : Type κ} (f : A → B) (xs : List A) (i : ℕ) {a : A}
    → get_elem? xs i ≡ some a
    → get_elem? (map f xs) i ≡ some (f a)
get_elem?-map f [] i e = cc
get_elem?-map f (x ∷ xs) zero e = ap (λ o. elim o [ none ↦ some (f x) | some y ↦ some (f y) ]) e
get_elem?-map f (x ∷ xs) (suc i) e = get_elem?-map f xs i e

module _ ⦃sha : Sha384⦄ ⦃pb : Prost⦄ where
  -- The path of the witness leads from the transaction to the root of the input tree.
  fold_witness-input :
      (s : Scan) (g : Gathered) (i : ℕ) (tx : Bytes) (w : MerkleWitness)
      → Agree s g
      → length g.input_leaves < u64_mod
      → get_elem? g.input_item_bytes i ≡ some tx
      → witness_for g.input_leaves i ≡ ok (some w)
      → fold_witness (hash_leaf tx) w ≡ root s.input_tree
  fold_witness-input s g i tx w a room here found =
      let leaf : get_elem? g.input_leaves i ≡ some (hash_leaf tx) =
        rw a.leaves_are (get_elem?-map hash_leaf g.input_item_bytes i here) in
      let (w', e, folds) = fold_witness-witness_for g.input_leaves i (hash_leaf tx) room leaf in
      let same : w ≡ w' = cc in
      let rooted = merkle_root-eq-root g.input_leaves s.input_tree a.hashed room in
      rw same (cc (folds, rooted))

  -- The same parts, put together by either function, give one root.
  recompute_block_root-parts :
      (s : Scan) (g : Gathered) (header header' : BlockHeader) (footer footer' : BlockFooter)
      → (tx : Bytes) (path : MerkleWitness) (state previous hashes : Bytes) → header' ≡ header
      → footer' ≡ footer
      → state_root_of footer' ≡ state
      → footer'.previous_block_root_hash ≡ previous
      → footer'.root_hash_of_all_block_hashes_tree ≡ hashes
      → s.trees ≡ g.trees
      → fold_witness (hash_leaf tx) path ≡ root s.input_tree
      → recompute_block_root tx (record {
        input_witness = path;
        output_root = root g.trees.output_tree;
        consensus_root = root g.trees.consensus_tree;
        state_changes_root = root g.trees.state_changes_tree;
        trace_root = root g.trees.trace_tree;
        state_root = state;
        previous_block_root = previous;
        root_hash_of_all_block_hashes_tree = hashes;
        timestamp_bytes = timestamp_bytes_of header';
      })
        ≡ block_root_of s header footer
  unfolding recompute_block_root block_root_of
  recompute_block_root-parts s g header header' footer footer' tx path state previous hashes hd ft
        st pr ha trees folds =
      rw (folds, ← st, ← pr, ← ha, ← trees, hd, ft) refl

  finish_witness_sound :
      (s : Scan) (g : Gathered) (i : ℕ) (block : ScannedBlock) (tx : Bytes)
      (w : BlockInclusionWitness)
      → Agree s g
      → length g.input_leaves < u64_mod
      → finish_scan s ≡ ok block
      → finish_witness g i ≡ ok (tx, w)
      → recompute_block_root tx w ≡ block.block_root
  unfolding finish_scan finish_witness
  finish_witness_sound s g i block tx w a room e h =
      let (header, p, e₁) = >>=-eq-ok (ok_or s.header _) _ e in
      let (footer, q, e₂) = >>=-eq-ok (ok_or s.footer _) _ e₁ in
      let (header', p', h₁) = >>=-eq-ok (ok_or g.header _) _ h in
      let (footer', q', h₂) = >>=-eq-ok (ok_or g.footer _) _ h₁ in
      let (tx', t, h₃) = >>=-eq-ok (ok_or (get_elem? g.input_item_bytes i) _) _ h₂ in
      let (found, f, h₄) = >>=-eq-ok (witness_for g.input_leaves i) _ h₃ in
      let (input_witness, x, h₅) = >>=-eq-ok (expect found) _ h₄ in
      let (state, r, h₆) = >>=-eq-ok (checked_state_root footer') _ h₅ in
      let (previous, u, h₇) = >>=-eq-ok (to_hash48 footer'.previous_block_root_hash) _ h₆ in
      let (hashes, v, h₈) = >>=-eq-ok (to_hash48 footer'.root_hash_of_all_block_hashes_tree) _ h₇ in
      let path =
        fold_witness-input s g i tx' input_witness a room
          (ok_or-ok (get_elem? g.input_item_bytes i) _ t) (f ∙ ap ok (expect-ok found x)) in
      let headers : header' ≡ header =
        cc (ok_or-ok s.header _ p, ok_or-ok g.header _ p', a.same_header) in
      let footers : footer' ≡ footer =
        cc (ok_or-ok s.footer _ q, ok_or-ok g.footer _ q', a.same_footer) in
      let given = ap (λ p. recompute_block_root (p.0) (p.1)) (sym (ok_injective h₈)) in
      let scanned = ap (λ b. b.block_root) (ok_injective e₂) in
      given
      ∙ recompute_block_root-parts s g header header' footer footer' tx' input_witness state
          previous hashes headers footers (checked_state_root-same footer' state r)
          (to_hash48-same _ previous u) (to_hash48-same _ hashes v) a.same_trees path
      ∙ scanned

module _ ⦃gz : Gzip⦄ ⦃sha : Sha384⦄ ⦃pb : Prost⦄ where
  inflated_room :
      (bytes raw : Bytes) → length bytes < u64_mod → inflate bytes ≡ ok raw → length raw < u64_mod
  inflated_room bytes raw room e = elim (inflate_ceiling bytes raw e) [
    | inl (g, small) ↦ omega arith
    | inr (plain, same) ↦ rw same room
  ]

  -- Where a message with one field decodes to that field's case, and the file has fewer than 2 ^ 64 bytes: if
  -- `block_inclusion_witness` returns a transaction and a witness for a block that `scan_block`
  -- accepts, `recompute_block_root` on them gives the block root that `scan_block` computed.
  pub recompute_block_root-block_inclusion_witness :
      DecodesByField pb
      → (bytes : Bytes) (index : ℕ) (block : ScannedBlock) (tx : Bytes) (w : BlockInclusionWitness)
      → length bytes < u64_mod
      → scan_block bytes ≡ ok block
      → block_inclusion_witness bytes index ≡ ok (tx, w)
      → recompute_block_root tx w ≡ block.block_root
  unfolding scan_block block_inclusion_witness
  recompute_block_root-block_inclusion_witness by_field bytes index block tx w room e h =
      let (raw, p, e₁) = >>=-eq-ok (inflate bytes) _ e in
      let (items, q, e₂) = >>=-eq-ok (scan_block_items raw) _ e₁ in
      let (s, r, e₃) = >>=-eq-ok (scan_items new_scan items) _ e₂ in
      let (raw', p', h₁) = >>=-eq-ok (inflate bytes) _ h in
      let (items', q', h₂) = >>=-eq-ok (scan_block_items raw') _ h₁ in
      let (g, r', h₃) = >>=-eq-ok (gather_items new_gathered items') _ h₂ in
      let same_raw : raw' ≡ raw = cc in
      let same_items : items' ≡ items = cc (q, q', ap scan_block_items same_raw) in
      let gathered : gather_items new_gathered items ≡ ok g =
        ap (gather_items new_gathered) (sym same_items) ∙ r' in
      let raw_room = inflated_room bytes raw room p in
      let (scanned, few) = scan_block_items-IsScanned raw items q in
      let (agree, fits) =
        Agree-scan_items by_field items new_scan s new_gathered g scanned Agree-new (omega arith) r
          gathered in
      finish_witness_sound s g index block tx w agree fits e₃ h₃
