-- ===== src/Block/Parser/Pairing.antt =====
-- What `parse_block` and `block_activity` of src/block/mod.rs return, by the items of the block.
use hiero_streams_rs.Prelude.{
  ℕ, ◌+◌, ◌≡◌, refl, sym, ap, ◌∙◌, inl, inr, Option, some, List, [], ◌∷◌, ◌++◌, map, arith, Bytes,
  Bool-cases, All, append_assoc, append-nil,
}
use hiero_streams_rs.Prelude.Int.{ℤ, eqb_ℤ}
use hiero_streams_rs.Result.{ok, ok_injective}
use hiero_streams_rs.Stream.{Gzip, inflate}
use hiero_streams_rs.Hapi.{Prost, Item, TransactionResult, value}
use hiero_streams_rs.Transaction.{ParsedTransaction}
use hiero_streams_rs.Block.Parser.{
  ParsedBlock, Parsing, new_parsing, body_of, transaction_from, parse_step, parse_steps,
  parse_block, BlockActivity, count_event, total_events, creator_of, activity_step, activity_steps,
  block_activity,
}

abbrev pub IsNoResult : Option Item → Type 0
IsNoResult (some (Item.transaction_result r)) = ⊥
IsNoResult _ = Unit

-- Neither a transaction nor a result.
abbrev pub IsPlumbing : Option Item → Type 0
IsPlumbing (some (Item.transaction_result r)) = ⊥
IsPlumbing (some (Item.signed_transaction b)) = ⊥
IsPlumbing _ = Unit

-- One user transaction in a block: items before it, its bytes, plumbing, and its result.
pub record Segment : Type 0 where
  pub before : List (Option Item)
  pub signed : Bytes
  pub between : List (Option Item)
  pub outcome : TransactionResult

abbrev pub IsSegment : Segment → Type 0
IsSegment g = All IsNoResult g.before × All IsPlumbing g.between

abbrev pub items_of : List Segment → List (Option Item)
items_of [] = []
items_of (g ∷ gs) =
    g.before
    ++ (some (Item.signed_transaction g.signed)
        ∷ (g.between ++ (some (Item.transaction_result g.outcome) ∷ items_of gs)))

abbrev pub events_in : List (Option Item) → ℕ
events_in [] = 0
events_in (some (Item.event_header h) ∷ items) = 1 + events_in items
events_in (_ ∷ items) = events_in items

items_of-append :
    (b m r after : List (Option Item)) (x y : Option Item)
    → (b ++ (x ∷ (m ++ (y ∷ r)))) ++ after ≡ b ++ (x ∷ (m ++ (y ∷ (r ++ after))))
items_of-append b m r after x y =
    append_assoc b (x ∷ (m ++ (y ∷ r))) after
    ∙ ap (λ t. b ++ (x ∷ t)) (append_assoc m (y ∷ r) after)

module _ ⦃pb : Prost⦄ where
  parse_steps-append :
      (s : Parsing) (xs ys : List (Option Item))
      → parse_steps s (xs ++ ys) ≡ parse_steps (parse_steps s xs) ys
  unfolding parse_steps
  parse_steps-append s [] ys = refl
  parse_steps-append s (x ∷ xs) ys = parse_steps-append (parse_step s x) xs ys

  parse_step-IsNoResult :
      (s : Parsing) (item : Option Item)
      → IsNoResult item
      → (parse_step s item).transactions ≡ s.transactions
  unfolding parse_step
  parse_step-IsNoResult s (some (Item.block_header h)) n = refl
  parse_step-IsNoResult s (some (Item.round_header r)) n = refl
  parse_step-IsNoResult s (some (Item.signed_transaction b)) n = refl
  parse_step-IsNoResult s (some (Item.transaction_result r)) n = absurd n
  parse_step-IsNoResult s _ n = refl

  parse_step-IsPlumbing :
      (s : Parsing) (item : Option Item)
      → IsPlumbing item
      → ((parse_step s item).transactions ≡ s.transactions)
        × ((parse_step s item).pending ≡ s.pending)
  unfolding parse_step
  parse_step-IsPlumbing s (some (Item.block_header h)) n = (refl, refl)
  parse_step-IsPlumbing s (some (Item.round_header r)) n = (refl, refl)
  parse_step-IsPlumbing s (some (Item.signed_transaction b)) n = absurd n
  parse_step-IsPlumbing s (some (Item.transaction_result r)) n = absurd n
  parse_step-IsPlumbing s _ n = (refl, refl)

  parse_steps-IsNoResult :
      (s : Parsing) (items : List (Option Item))
      → All IsNoResult items
      → (parse_steps s items).transactions ≡ s.transactions
  unfolding parse_steps
  parse_steps-IsNoResult s [] a = refl
  parse_steps-IsNoResult s (x ∷ xs) (n, a) =
      parse_steps-IsNoResult (parse_step s x) xs a ∙ parse_step-IsNoResult s x n

  parse_steps-IsPlumbing :
      (s : Parsing) (items : List (Option Item))
      → All IsPlumbing items
      → ((parse_steps s items).transactions ≡ s.transactions)
        × ((parse_steps s items).pending ≡ s.pending)
  unfolding parse_steps
  parse_steps-IsPlumbing s [] a = (refl, refl)
  parse_steps-IsPlumbing s (x ∷ xs) (n, a) =
      let (t, p) = parse_step-IsPlumbing s x n in
      let (t', p') = parse_steps-IsPlumbing (parse_step s x) xs a in (t' ∙ t, p' ∙ p)

  abbrev pub transaction_of_segment : Segment → ParsedTransaction
  transaction_of_segment g = transaction_from (body_of g.signed) g.outcome

  -- One segment adds its transaction.
  segment_step :
      (s : Parsing) (g : Segment) (rest : List (Option Item))
      → IsSegment g
      → (s' : Parsing) × (s'.transactions ≡ s.transactions ++ (transaction_of_segment g ∷ []))
        × (parse_steps s (
              g.before
              ++ (some (Item.signed_transaction g.signed)
                  ∷ (g.between ++ (some (Item.transaction_result g.outcome) ∷ rest))))
            ≡ parse_steps s' rest)
  unfolding parse_steps parse_step
  segment_step s g rest (n₁, n₂) =
      let s₁ = parse_steps s g.before in
      let s₂ = parse_step s₁ (some (Item.signed_transaction g.signed)) in
      let s₃ = parse_steps s₂ g.between in
      let (same, kept) = parse_steps-IsPlumbing s₂ g.between n₂ in
      (
        parse_step s₃ (some (Item.transaction_result g.outcome)),
        rw (same, kept, parse_steps-IsNoResult s g.before n₁) refl,
        parse_steps-append s g.before _
            ∙ parse_steps-append s₂ g.between (some (Item.transaction_result g.outcome) ∷ rest),
      )

  parse_steps-Segments :
      (s : Parsing) (gs : List Segment) (after : List (Option Item))
      → All IsSegment gs
      → All IsNoResult after
      → (parse_steps s (items_of gs ++ after)).transactions
        ≡ s.transactions ++ map transaction_of_segment gs
  parse_steps-Segments s [] after a n =
      parse_steps-IsNoResult s after n ∙ sym (append-nil s.transactions)
  parse_steps-Segments s (g ∷ gs) after (h, a) n =
      let (s', t, e) = segment_step s g (items_of gs ++ after) h in
      ap (λ items. (parse_steps s items).transactions)
        (items_of-append g.before g.between (items_of gs) after _ _)
      ∙ ap (λ q. q.transactions) e
      ∙ parse_steps-Segments s' gs after a n
      ∙ ap (λ ts. ts ++ map transaction_of_segment gs) t
      ∙ append_assoc s.transactions (transaction_of_segment g ∷ []) (map transaction_of_segment gs)

  -- Where a block is a sequence of user transactions, each followed, behind plumbing items, by its
  -- result, with any items but results before each and after the last (node transactions without a
  -- result among them), `parse_block` returns one transaction for each, in order, made of that
  -- transaction's body and that result.
  pub parse_block-Segments :
      ⦃gz : Gzip⦄ (bytes raw : Bytes) (gs : List Segment) (after : List (Option Item))
      → inflate bytes ≡ ok raw
      → pb.decode_block raw ≡ value (items_of gs ++ after)
      → All IsSegment gs
      → All IsNoResult after
      → (block : ParsedBlock) × (parse_block bytes ≡ ok block)
        × (block.transactions ≡ map transaction_of_segment gs)
  unfolding parse_block
  parse_block-Segments bytes raw gs after i d a n =
      let s = parse_steps new_parsing (items_of gs ++ after) in
      let block : ParsedBlock = record {
        block_number = s.block_number;
        hapi_version = s.hapi_version;
        rounds = s.rounds;
        transactions = s.transactions;
      } in
      (block, rw (i, d) refl, parse_steps-Segments new_parsing gs after a n)

total_events-count_event :
    (creator : ℤ) (counts : List (ℤ × ℕ))
    → total_events (count_event creator counts) ≡ total_events counts + 1
unfolding count_event total_events
total_events-count_event creator [] = refl
total_events-count_event creator ((node, n) ∷ counts) = elim (Bool-cases (eqb_ℤ creator node)) [
  | inl same ↦ rw (same, count_event) (omega arith)
  | inr other ↦ rw (other, count_event) (omega (arith, total_events-count_event creator counts))
]

activity_steps-events :
    (a : BlockActivity) (items : List (Option Item))
    → total_events (activity_steps a items).events_by_node
      ≡ total_events a.events_by_node + events_in items
unfolding activity_steps activity_step
activity_steps-events a [] = omega arith
activity_steps-events a (some (Item.event_header h) ∷ items) = omega (
  arith,
  activity_steps-events (activity_step a (some (Item.event_header h))) items,
  total_events-count_event (creator_of h) a.events_by_node,
)
activity_steps-events a (some (Item.block_header h) ∷ items) = activity_steps-events _ items
activity_steps-events a (some (Item.round_header r) ∷ items) = activity_steps-events _ items
activity_steps-events a (_ ∷ items) = activity_steps-events a items

module _ ⦃gz : Gzip⦄ ⦃pb : Prost⦄ where
  -- The events that `block_activity` counts, over all nodes, are the event headers of the block.
  pub block_activity-events :
      (bytes raw : Bytes) (items : List (Option Item)) (a : BlockActivity)
      → inflate bytes ≡ ok raw
      → pb.decode_block raw ≡ value items
      → block_activity bytes ≡ ok a
      → total_events a.events_by_node ≡ events_in items
  unfolding block_activity total_events
  block_activity-events bytes raw items a i d e =
      let found = ok_injective (rw (i, d) at e) in
      rw (← found) (
        omega (
          arith,
          activity_steps-events (record { block_number = 0; rounds = []; events_by_node = [] })
              items,
        ))
