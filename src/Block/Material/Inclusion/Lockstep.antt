-- ===== src/Block/Material/Inclusion/Lockstep.antt =====
-- The two scans of src/block/material.rs, `scan_block` and `block_inclusion_witness`, keep the same
-- header, footer and trees; the leaves of the one are what the input tree of the other holds.
use mathlib.Core.List.{map-append}
use hiero_streams_rs.Prelude.{
  ℕ, ◌+◌, ◌≤◌, ◌<◌, ◌≡◌, refl, sym, ap, ◌≢◌, Option, some, List, [], ◌∷◌, ◌++◌, map, arith, length,
  Bytes, u64_mod, length-append,
}
use hiero_streams_rs.Result.{ok}
use hiero_streams_rs.Hapi
use hiero_streams_rs.Hapi.{
  Prost, Item, BlockHeader, BlockFooter, or_decode_error, Decoded, value, failure,
}
use hiero_streams_rs.Block.Wire.{scan_item_kind}
use hiero_streams_rs.Block.Wire.Field
use hiero_streams_rs.Block.Merkle.{Sha384, StreamingTreeHasher, hash_leaf}
use hiero_streams_rs.Block.Merkle.Range.{IsHasherOf, IsHasherOf-new, add_leaf-IsHasherOf}
use hiero_streams_rs.Block.Material.{Tree, output, input, Scan, new_scan, hash_input, view}
use hiero_streams_rs.Block.Material.Inclusion.{Gathered, new_gathered, keep_view, push_leaf}

-- The field of the `item` oneof that a decoded item holds.
abbrev pub field_of_item : Item → ℕ
field_of_item (Hapi.Item.block_header h) = Field.block_header
field_of_item (Hapi.Item.event_header h) = Field.event_header
field_of_item (Hapi.Item.round_header r) = Field.round_header
field_of_item (Hapi.Item.signed_transaction tx) = Field.signed_transaction
field_of_item (Hapi.Item.transaction_result r) = Field.transaction_result
field_of_item (Hapi.Item.block_proof p) = Field.block_proof
field_of_item (Hapi.Item.block_footer f) = Field.block_footer
field_of_item (Hapi.Item.other_item n) = n

-- What `prost` documents of a oneof: a message with one field decodes to that field's case.
abbrev pub DecodesByField : Prost → Type 0
DecodesByField pb =
    (item_bytes : Bytes) (kind : ℕ) (item : Item)
    → scan_item_kind item_bytes ≡ ok kind
    → pb.decode_block_item item_bytes ≡ value (some item)
    → field_of_item item ≡ kind

module _ ⦃sha : Sha384⦄ where
  pub record Agree (s : Scan) (g : Gathered) : Type 0 where
    pub same_header : s.header ≡ g.header
    pub same_footer : s.footer ≡ g.footer
    pub same_trees : s.trees ≡ g.trees
    pub leaves_are : g.input_leaves ≡ map hash_leaf g.input_item_bytes
    pub hashed : IsHasherOf g.input_leaves s.input_tree

  pub Agree-new : Agree new_scan new_gathered
  Agree-new = record {
    same_header = refl;
    same_footer = refl;
    same_trees = refl;
    leaves_are = refl;
    hashed = IsHasherOf-new;
  }

  -- The input tree takes the leaf that the other scan pushes.
  pub hash_input-IsHasherOf :
      (tree : Tree) (b : Bytes) (g : Gathered) (t t' : StreamingTreeHasher)
      → IsHasherOf g.input_leaves t
      → length g.input_leaves + 1 < u64_mod
      → hash_input tree b t ≡ ok t'
      → IsHasherOf (push_leaf tree b g).input_leaves t'
  unfolding hash_input push_leaf
  hash_input-IsHasherOf input b g t t' h room e =
      let (t₁, q, h₁) = add_leaf-IsHasherOf g.input_leaves t (hash_leaf b) h room in
      let same : t₁ ≡ t' = cc in rw (← same) h₁
  hash_input-IsHasherOf output b g t t' h room e = let same : t ≡ t' = cc in rw (← same) h
  hash_input-IsHasherOf _ b g t t' h room e = let same : t ≡ t' = cc in rw (← same) h

  map-snoc :
      (b : Bytes) (bs : List Bytes)
      → map hash_leaf (bs ++ (b ∷ [])) ≡ map hash_leaf bs ++ (hash_leaf b ∷ [])
  map-snoc b bs = rw map-append

  pub push_leaf-leaves_are :
      (tree : Tree) (b : Bytes) (g : Gathered)
      → g.input_leaves ≡ map hash_leaf g.input_item_bytes
      → (push_leaf tree b g).input_leaves ≡ map hash_leaf (push_leaf tree b g).input_item_bytes
  unfolding push_leaf
  push_leaf-leaves_are input b g e =
      rw (map-snoc b g.input_item_bytes) (ap (λ t. t ++ (hash_leaf b ∷ [])) e)
  push_leaf-leaves_are output b g e = e
  push_leaf-leaves_are _ b g e = e

  pub push_leaf_rest :
      (tree : Tree) (b : Bytes) (g : Gathered)
      → ((push_leaf tree b g).header ≡ g.header)
        × ((push_leaf tree b g).footer ≡ g.footer)
        × ((push_leaf tree b g).trees ≡ g.trees)
        × (length (push_leaf tree b g).input_leaves ≤ length g.input_leaves + 1)
  unfolding push_leaf
  push_leaf_rest input b g =
      (refl, refl, refl, omega (arith, length-append g.input_leaves (hash_leaf b ∷ [])))
  push_leaf_rest output b g = (refl, refl, refl, omega arith)
  push_leaf_rest _ b g = (refl, refl, refl, omega arith)

  module _ ⦃pb : Prost⦄ where
    pub Agree-view_both :
        (d : Option Item) (s : Scan) (g : Gathered) → Agree s g → Agree (view d s) (keep_view d g)
    unfolding view keep_view
    Agree-view_both (some (Hapi.Item.block_header h)) s g a = record {
      same_header = refl;
      same_footer = a.same_footer;
      same_trees = a.same_trees;
      leaves_are = a.leaves_are;
      hashed = a.hashed;
    }
    Agree-view_both (some (Hapi.Item.block_footer f)) s g a = record {
      same_header = a.same_header;
      same_footer = refl;
      same_trees = a.same_trees;
      leaves_are = a.leaves_are;
      hashed = a.hashed;
    }
    Agree-view_both _ s g a = record {
      same_header = a.same_header;
      same_footer = a.same_footer;
      same_trees = a.same_trees;
      leaves_are = a.leaves_are;
      hashed = a.hashed;
    }

    -- An item that only `scan_block` decodes is no header and no footer.
    pub Agree-view_one :
        (d : Option Item) (s : Scan) (g : Gathered) (kind : ℕ)
        → ((item : Item) → d ≡ some item → field_of_item item ≡ kind)
        → kind ≢ Field.block_header
        → kind ≢ Field.block_footer
        → Agree s g
        → Agree (view d s) g
    unfolding view
    Agree-view_one (some (Hapi.Item.block_header h)) s g kind by n m a =
        absurd (n (sym (by _ refl)))
    Agree-view_one (some (Hapi.Item.block_footer f)) s g kind by n m a =
        absurd (m (sym (by _ refl)))
    Agree-view_one _ s g kind by n m a = record {
      same_header = a.same_header;
      same_footer = a.same_footer;
      same_trees = a.same_trees;
      leaves_are = a.leaves_are;
      hashed = a.hashed;
    }
