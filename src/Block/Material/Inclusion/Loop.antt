-- ===== src/Block/Material/Inclusion/Loop.antt =====
-- Over all the items of a block, the two scans of src/block/material.rs stay in step.
use hiero_streams_rs.Prelude.{
  ◌+◌, ◌≤◌, ◌<◌, ◌≡◌, refl, sym, ap, ◌∙◌, inl, inr, true, ◌||◌, Option, some, List, [], ◌∷◌, arith,
  ◌==◌, length, u64_mod, Bool-cases, All,
}
use hiero_streams_rs.Result.{ok, >>=-eq-ok}
use hiero_streams_rs.Hapi
use hiero_streams_rs.Hapi.{Prost, Item, or_decode_error, Decoded, value, failure}
use hiero_streams_rs.Block.Wire.{ScannedItem}
use hiero_streams_rs.Block.Wire.Field
use hiero_streams_rs.Block.Wire.Scanned.{IsScanned}
use hiero_streams_rs.Block.Merkle.{Sha384}
use hiero_streams_rs.Block.Material.{
  tree_of, Scan, is_viewed, hash_into, hash_input, view, view_item, scan_item, scan_items,
}
use hiero_streams_rs.Block.Material.Inclusion.{
  Gathered, keep_view, push_leaf, keep_view_item, gather_item, gather_items,
}
use hiero_streams_rs.Block.Material.Inclusion.Lockstep.{
  DecodesByField, Agree, hash_input-IsHasherOf, push_leaf-leaves_are, push_leaf_rest,
  Agree-view_both, Agree-view_one,
}

or_decode_error-ok {ℓ} :
    {A : Type ℓ} (d : Decoded A) {a : A} → or_decode_error d ≡ ok a → d ≡ value a
or_decode_error-ok (value x) e = cc
or_decode_error-ok (failure t) e = cc

keep_view-leaves : (d : Option Item) (g : Gathered) → (keep_view d g).input_leaves ≡ g.input_leaves
unfolding keep_view
keep_view-leaves (some (Hapi.Item.block_header h)) g = refl
keep_view-leaves (some (Hapi.Item.block_footer f)) g = refl
keep_view-leaves _ g = refl

module _ ⦃sha : Sha384⦄ ⦃pb : Prost⦄ (by_field : DecodesByField pb) where
  Agree-view_item :
      (item : ScannedItem) (s s' : Scan) (g g' : Gathered)
      → IsScanned item
      → Agree s g
      → view_item item s ≡ ok s'
      → keep_view_item item g ≡ ok g'
      → Agree s' g'
  unfolding view_item keep_view_item is_viewed
  Agree-view_item item s s' g g' known a e h =
      elim (Bool-cases
        ((item.field_number == Field.block_header) || (item.field_number == Field.block_footer))) [
          | inl both ↦
              let seen : is_viewed item.field_number ≡ true = ground arith in
              let (d, p, q) =
                >>=-eq-ok (or_decode_error (pb.decode_block_item item.item_bytes))
                  (λ x. ok (view x s)) (rw seen at e) in
              let (d', p', q') =
                >>=-eq-ok (or_decode_error (pb.decode_block_item item.item_bytes))
                  (λ x. ok (keep_view x g)) (rw both at h) in
              let same : d ≡ d' = cc in
              let s_is : view d s ≡ s' = cc in
              let g_is : keep_view d g ≡ g' = cc in rw (← s_is, ← g_is) (Agree-view_both d s g a)
          | inr neither ↦
              let g_is : g ≡ g' = cc (rw neither at h) in
              elim (Bool-cases (is_viewed item.field_number)) [
                | inl seen ↦
                    let (d, p, q) =
                      >>=-eq-ok (or_decode_error (pb.decode_block_item item.item_bytes))
                        (λ x. ok (view x s)) (rw seen at e) in
                    let read = or_decode_error-ok (pb.decode_block_item item.item_bytes) p in
                    let s_is : view d s ≡ s' = cc in
                    rw (← s_is, ← g_is)
                      (Agree-view_one d s g item.field_number
                        (λ x is.
                          by_field item.item_bytes item.field_number x known (read ∙ ap value is))
                        (λ k. ground arith) (λ k. ground arith) a)
                | inr skipped ↦ let s_is : s ≡ s' = cc (rw skipped at e) in rw (← s_is, ← g_is) a
              ]
        ]

  keep_view_item-leaves :
      (item : ScannedItem) (g g' : Gathered)
      → keep_view_item item g ≡ ok g'
      → g'.input_leaves ≡ g.input_leaves
  unfolding keep_view_item
  keep_view_item-leaves item g g' h =
      elim (Bool-cases
        ((item.field_number == Field.block_header) || (item.field_number == Field.block_footer))) [
          | inl both ↦
              let (d, p, q) =
                >>=-eq-ok (or_decode_error (pb.decode_block_item item.item_bytes))
                  (λ x. ok (keep_view x g)) (rw both at h) in
              let g_is : keep_view d g ≡ g' = cc in rw (← g_is) (keep_view-leaves d g)
          | inr neither ↦ let g_is : g ≡ g' = cc (rw neither at h) in rw (← g_is) refl
        ]

  -- One item, read by both loops.
  Agree-scan_item :
      (item : ScannedItem) (s s' : Scan) (g g' : Gathered)
      → IsScanned item
      → Agree s g
      → length g.input_leaves + 1 < u64_mod
      → scan_item s item ≡ ok s'
      → gather_item g item ≡ ok g'
      → Agree s' g' × (length g'.input_leaves ≤ length g.input_leaves + 1)
  unfolding scan_item gather_item
  Agree-scan_item item s s' g g' known a room e h =
      let (tree, t, e₁) = >>=-eq-ok (tree_of item.field_number) _ e in
      let (tree', t', h₁) = >>=-eq-ok (tree_of item.field_number) _ h in
      let same_tree : tree ≡ tree' = cc in
      let (trees, hs, e₂) = >>=-eq-ok (hash_into tree item.item_bytes s.trees) _ e₁ in
      let (trees', hs', h₂) = >>=-eq-ok (hash_into tree' item.item_bytes g.trees) _ h₁ in
      let same : trees ≡ trees' =
        cc (a.same_trees, ap (hash_into tree item.item_bytes) a.same_trees) in
      let (input_tree, i, e₃) = >>=-eq-ok (hash_input tree item.item_bytes s.input_tree) _ e₂ in
      let g₁ : Gathered = record g { trees = trees' } in
      let rest = push_leaf_rest tree' item.item_bytes g₁ in
      let agree : Agree (record s { trees = trees; input_tree = input_tree })
          (push_leaf tree' item.item_bytes g₁) =
        record {
          same_header = a.same_header ∙ sym rest.0;
          same_footer = a.same_footer ∙ sym rest.1;
          same_trees = same ∙ sym rest.2;
          leaves_are = push_leaf-leaves_are tree' item.item_bytes g₁ a.leaves_are;
          hashed = rw (← same_tree) (
              hash_input-IsHasherOf tree item.item_bytes g₁ s.input_tree input_tree a.hashed room
                i);
        } in
      (
        Agree-view_item item _ s' _ g' known agree e₃ h₂,
        omega (arith, rest.3, ap length (keep_view_item-leaves item _ g' h₂)),
      )

  pub Agree-scan_items :
      (items : List ScannedItem) (s s' : Scan) (g g' : Gathered)
      → All IsScanned items
      → Agree s g
      → length g.input_leaves + length items < u64_mod
      → scan_items s items ≡ ok s'
      → gather_items g items ≡ ok g'
      → Agree s' g' × (length g'.input_leaves < u64_mod)
  unfolding scan_items gather_items
  Agree-scan_items [] s s' g g' known a room e h =
      let s_is : s ≡ s' = cc in let g_is : g ≡ g' = cc in rw (← s_is, ← g_is) (a, omega arith)
  Agree-scan_items (item ∷ items) s s' g g' (known, others) a room e h =
      let (s₁, p, e₁) = >>=-eq-ok (scan_item s item) _ e in
      let (g₁, q, h₁) = >>=-eq-ok (gather_item g item) _ h in
      let (a₁, grows) = Agree-scan_item item s s₁ g g₁ known a (omega arith) p q in
      Agree-scan_items items s₁ s' g₁ g' others a₁ (omega arith) e₁ h₁
