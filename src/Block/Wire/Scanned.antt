-- ===== src/Block/Wire/Scanned.antt =====
-- What the items that `scan_block_items` returns are, in src/block/wire.rs.
use hiero_streams_rs.Prelude.{
  ℕ, zero, suc, ◌+◌, ◌≤◌, ◌≡◌, inl, inr, not, List, [], ◌∷◌, ◌++◌, arith, ltb, ◌==◌, length, Bytes,
  length-append, Bool-cases, All,
}
use hiero_streams_rs.Result.{ok, >>=-eq-ok}
use hiero_streams_rs.Block.Wire.{
  ScannedItem, read_varint, read_length_delimited, scan_item_kind, push_item, items_loop,
  scan_block_items, wire_type, field_of,
}

-- The kind that the scan recorded is the one that it finds in the bytes.
abbrev pub IsScanned : ScannedItem → Type 0
IsScanned item = scan_item_kind item.item_bytes ≡ ok item.field_number

All-snoc :
    (items : List ScannedItem) (item : ScannedItem)
    → All IsScanned items
    → IsScanned item
    → All IsScanned (items ++ (item ∷ []))
All-snoc [] item a h = (h, tt)
All-snoc (x ∷ xs) item (a, rest) h = (a, All-snoc xs item rest h)

push_item-IsScanned :
    (field : ℕ) (item_bytes : Bytes) (items items' : List ScannedItem)
    → All IsScanned items
    → push_item field item_bytes items ≡ ok items'
    → All IsScanned items' × (length items' ≤ length items + 1)
unfolding push_item
push_item-IsScanned field item_bytes items items' a e = elim (Bool-cases (field == 1)) [
  | inl found ↦
      let (kind, p, q) = >>=-eq-ok (scan_item_kind item_bytes) _ (rw found at e) in
      let item : ScannedItem = record { field_number = kind; item_bytes = item_bytes } in
      let same : items ++ (item ∷ []) ≡ items' = cc in
      rw (← same) (All-snoc items item a p, omega (arith, length-append items (item ∷ [])))
  | inr other ↦ let same : items ≡ items' = cc (rw other at e) in rw (← same) (a, omega arith)
]

items_loop-IsScanned :
    (fuel : ℕ) (bytes : Bytes) (offset : ℕ) (items found : List ScannedItem)
    → All IsScanned items
    → items_loop fuel bytes offset items ≡ ok found
    → All IsScanned found × (length found ≤ length items + fuel)
unfolding items_loop
items_loop-IsScanned zero bytes offset items found a e =
    elim (Bool-cases (ltb offset (length bytes))) [
      | inl more ↦ absurd (cc (rw more at e))
      | inr done ↦ let same : items ≡ found = cc (rw done at e) in rw (← same) (a, omega arith)
    ]
items_loop-IsScanned (suc fuel) bytes offset items found a e =
    elim (Bool-cases (ltb offset (length bytes))) [
      | inl more ↦
          let ((tag, after_tag), p, e₁) = >>=-eq-ok (read_varint bytes offset) _ (rw more at e) in
          elim (Bool-cases (not (wire_type tag == 2))) [
            | inl bad ↦ absurd (cc (rw bad at e₁))
            | inr good ↦
                let ((content, next), q, e₂) =
                  >>=-eq-ok (read_length_delimited bytes after_tag) _ (rw good at e₁) in
                let (items', r, e₃) = >>=-eq-ok (push_item (field_of tag) content items) _ e₂ in
                let (a', grows) = push_item-IsScanned (field_of tag) content items items' a r in
                let (b, total) = items_loop-IsScanned fuel bytes next items' found a' e₃ in
                (b, omega arith)
          ]
      | inr done ↦ let same : items ≡ found = cc (rw done at e) in rw (← same) (a, omega arith)
    ]

-- Every item that the scan of a block returns has the kind that `scan_item_kind` finds in its bytes,
-- and there are no more of them than the block has bytes.
pub scan_block_items-IsScanned :
    (block_bytes : Bytes) (items : List ScannedItem)
    → scan_block_items block_bytes ≡ ok items
    → All IsScanned items × (length items ≤ length block_bytes)
unfolding scan_block_items
scan_block_items-IsScanned block_bytes items e =
    let (scanned, few) = items_loop-IsScanned (length block_bytes) block_bytes 0 [] items tt e in
    (scanned, omega arith)
