-- ===== src/Block/Wire/Tiled.antt =====
-- How the items that `scan_block_items` of src/block/wire.rs returns lie in the bytes of the block.
use hiero_streams_rs.Prelude.{
  ℕ, zero, suc, ◌≤◌, ◌<◌, ◌≡◌, ◌≢◌, sym, ap, ◌∙◌, inl, inr, not, not-false, false, ◌⊎◌, none, some,
  List, [], ◌∷◌, ◌++◌, arith, ltb, ltb→lt, ltb→le, ◌==◌, ==_iff, length, Bytes, append-nil,
  append_assoc, Bool-cases,
}
use hiero_streams_rs.Result.{ok, >>=-eq-ok, ok_injective}
use hiero_streams_rs.Block.Wire.{
  ScannedItem, read_varint, read_length_delimited, kind_loop, scan_item_kind, push_item, items_loop,
  scan_block_items, wire_type, field_of,
}
use hiero_streams_rs.Block.Wire.Bounds.{Frame, read_length_delimited-Frame}

-- The bytes of an item are one length-delimited field, whose number is the kind.
pub record OneField (item_bytes : Bytes) (kind : ℕ) : Type 0 where
  pub tag : ℕ
  pub after_tag : ℕ
  pub inner : Bytes
  pub tagged : read_varint item_bytes 0 ≡ ok (tag, after_tag)
  pub delimited : wire_type tag ≡ 2
  pub kind_is : kind ≡ field_of tag
  pub whole : Frame item_bytes after_tag inner (length item_bytes)

-- From the offset to the end, the bytes are length-delimited fields without a gap. The list holds the
-- contents of those with number 1, all of them and in their order, and each is one field.
pub data IsTiled (bytes : Bytes) : ℕ → List ScannedItem → Type 0 where
  at_end : {offset : ℕ} → length bytes ≤ offset → IsTiled bytes offset []
  item :
      {offset tag after_tag next kind : ℕ} {content : Bytes} {items : List ScannedItem}
      → offset < length bytes
      → read_varint bytes offset ≡ ok (tag, after_tag)
      → wire_type tag ≡ 2
      → Frame bytes after_tag content next
      → field_of tag ≡ 1
      → OneField content kind
      → IsTiled bytes next items
      → IsTiled bytes offset (record { field_number = kind; item_bytes = content } ∷ items)
  other :
      {offset tag after_tag next : ℕ} {content : Bytes} {items : List ScannedItem}
      → offset < length bytes
      → read_varint bytes offset ≡ ok (tag, after_tag)
      → wire_type tag ≡ 2
      → Frame bytes after_tag content next
      → field_of tag ≢ 1
      → IsTiled bytes next items
      → IsTiled bytes offset items

-- Behind a field, the loop over an item succeeds at the end of the item only.
kind_loop-found :
    (fuel : ℕ) (bytes : Bytes) (offset found kind : ℕ)
    → kind_loop fuel bytes offset (some found) ≡ ok kind
    → (kind ≡ found) × (length bytes ≤ offset)
unfolding kind_loop
kind_loop-found zero bytes offset found kind e = elim (Bool-cases (ltb offset (length bytes))) [
  | inl more ↦ absurd (cc (rw more at e))
  | inr done ↦ (sym (ok_injective (rw done at e)), ltb→le _ _ done)
]
kind_loop-found (suc fuel) bytes offset found kind e =
    elim (Bool-cases (ltb offset (length bytes))) [
      | inl more ↦
          let ((tag, after_tag), p, e₁) = >>=-eq-ok (read_varint bytes offset) _ (rw more at e) in
          elim (Bool-cases (not (wire_type tag == 2))) [
            | inl bad ↦ absurd (cc (rw bad at e₁))
            | inr good ↦
                let (_, q, e₂) =
                  >>=-eq-ok (read_length_delimited bytes after_tag) _ (rw good at e₁) in
                absurd (cc e₂)
          ]
      | inr done ↦ (sym (ok_injective (rw done at e)), ltb→le _ _ done)
    ]

kind_loop-OneField :
    (fuel : ℕ) (bytes : Bytes) (kind : ℕ)
    → kind_loop fuel bytes 0 none ≡ ok kind
    → OneField bytes kind
unfolding kind_loop
kind_loop-OneField zero bytes kind e = elim (Bool-cases (ltb 0 (length bytes))) [
  | inl more ↦ absurd (cc (rw more at e))
  | inr done ↦ absurd (cc (rw done at e))
]
kind_loop-OneField (suc fuel) bytes kind e = elim (Bool-cases (ltb 0 (length bytes))) [
  | inl more ↦
      let ((tag, after_tag), p, e₁) = >>=-eq-ok (read_varint bytes 0) _ (rw more at e) in
      elim (Bool-cases (not (wire_type tag == 2))) [
        | inl bad ↦ absurd (cc (rw bad at e₁))
        | inr good ↦
            let ((inner, next), q, e₂) =
              >>=-eq-ok (read_length_delimited bytes after_tag) _ (rw good at e₁) in
            let (same, past) = kind_loop-found fuel bytes next (field_of tag) kind e₂ in
            let frame = read_length_delimited-Frame bytes after_tag inner next q in
            let ends : next ≡ length bytes = omega (arith, past, frame.fits) in
            record {
              tag = tag;
              after_tag = after_tag;
              inner = inner;
              tagged = p;
              delimited = (==_iff _ _).0 (not-false _ good);
              kind_is = same;
              whole = rw ends at frame;
            }
      ]
  | inr done ↦ absurd (cc (rw done at e))
]

-- What a round of the loop appends.
push_item-cases :
    (field : ℕ) (content : Bytes) (items items' : List ScannedItem)
    → push_item field content items ≡ ok items'
    → ((field ≡ 1)
        × ((kind : ℕ) × OneField content kind
            × (items' ≡ items ++ (record { field_number = kind; item_bytes = content } ∷ []))))
      ⊎ ((field ≢ 1) × (items' ≡ items))
unfolding push_item scan_item_kind
push_item-cases field content items items' e = elim (Bool-cases (field == 1)) [
  | inl one ↦
      let (kind, p, q) = >>=-eq-ok (scan_item_kind content) _ (rw one at e) in
      inl (
        (==_iff _ _).0 one,
        (kind, kind_loop-OneField (length content) content kind p, sym (ok_injective q)),
      )
  | inr another ↦
      inr (λ h. absurd (cc (another, (==_iff _ _).1 h)), sym (ok_injective (rw another at e)))
]

-- The items behind those that the loop has already found.
Behind : Bytes → ℕ → List ScannedItem → List ScannedItem → Type 0
Behind bytes offset items found =
    (rest : List ScannedItem) × (found ≡ items ++ rest) × IsTiled bytes offset rest

nothing-Behind :
    (bytes : Bytes) (offset : ℕ) (items found : List ScannedItem)
    → ltb offset (length bytes) ≡ false
    → ok items ≡ ok found
    → Behind bytes offset items found
unfolding Behind
nothing-Behind bytes offset items found done e =
    ([], sym (ok_injective e) ∙ sym (append-nil items), at_end (ltb→le _ _ done))

-- One round before what lies behind it.
round-Behind :
    (bytes : Bytes) (offset tag after_tag next : ℕ) (content : Bytes)
    (items items' found : List ScannedItem)
    → offset < length bytes
    → read_varint bytes offset ≡ ok (tag, after_tag)
    → wire_type tag ≡ 2
    → read_length_delimited bytes after_tag ≡ ok (content, next)
    → push_item (field_of tag) content items ≡ ok items'
    → Behind bytes next items' found
    → Behind bytes offset items found
unfolding Behind
round-Behind bytes offset tag after_tag next content items items' found here p wire q r
      (rest, parts, scanned) =
    let frame = read_length_delimited-Frame bytes after_tag content next q in
    elim (push_item-cases (field_of tag) content items items' r) [
      | inl (one, (kind, field, grown)) ↦
          let new : ScannedItem = record { field_number = kind; item_bytes = content } in
          (
            new ∷ rest,
            parts ∙ ap (λ t. t ++ rest) grown ∙ append_assoc items (new ∷ []) rest,
            item here p wire frame one field scanned,
          )
      | inr (another, same) ↦
          (rest, parts ∙ ap (λ t. t ++ rest) same, other here p wire frame another scanned)
    ]

items_loop-Behind :
    (fuel : ℕ) (bytes : Bytes) (offset : ℕ) (items found : List ScannedItem)
    → items_loop fuel bytes offset items ≡ ok found
    → Behind bytes offset items found
unfolding items_loop
items_loop-Behind zero bytes offset items found e = elim (Bool-cases (ltb offset (length bytes))) [
  | inl more ↦ absurd (cc (rw more at e))
  | inr done ↦ nothing-Behind bytes offset items found done (rw done at e)
]
items_loop-Behind (suc fuel) bytes offset items found e =
    elim (Bool-cases (ltb offset (length bytes))) [
      | inl more ↦
          let ((tag, after_tag), p, e₁) = >>=-eq-ok (read_varint bytes offset) _ (rw more at e) in
          elim (Bool-cases (not (wire_type tag == 2))) [
            | inl bad ↦ absurd (cc (rw bad at e₁))
            | inr good ↦
                let ((content, next), q, e₂) =
                  >>=-eq-ok (read_length_delimited bytes after_tag) _ (rw good at e₁) in
                let (items', r, e₃) = >>=-eq-ok (push_item (field_of tag) content items) _ e₂ in
                round-Behind bytes offset tag after_tag next content items items' found
                  (ltb→lt offset (length bytes) more) p ((==_iff _ _).0 (not-false _ good)) q r
                  (items_loop-Behind fuel bytes next items' found e₃)
          ]
      | inr done ↦ nothing-Behind bytes offset items found done (rw done at e)
    ]

-- A block that the scan accepts is a sequence of length-delimited fields up to its end. The items are the
-- contents of its fields with number 1, all of them and in their order, each of which is one
-- length-delimited field, whose number the scan gives as the item's.
pub scan_block_items-IsTiled :
    (block_bytes : Bytes) (items : List ScannedItem)
    → scan_block_items block_bytes ≡ ok items
    → IsTiled block_bytes 0 items
unfolding scan_block_items Behind
scan_block_items-IsTiled block_bytes items e =
    let (rest, same, scanned) = items_loop-Behind (length block_bytes) block_bytes 0 [] items e in
    rw same scanned
