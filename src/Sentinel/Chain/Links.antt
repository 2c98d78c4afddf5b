-- ===== src/Sentinel/Chain/Links.antt =====
-- What a chain of accepted blocks of src/cli/sentinel.rs says of the blocks: consecutive numbers,
-- linked roots, one proof format, and a threshold signature wherever the format has one.
use hiero_streams_rs.Prelude.{
  ℕ, suc, ◌≤◌, ◌<◌, ◌≡◌, refl, sym, ap, ◌∙◌, inl, inr, true, none, some, arith, ◌==◌, ==_iff,
  Bool-cases,
}
use hiero_streams_rs.Hex.{Hex}
use hiero_streams_rs.Result.{Result}
use hiero_streams_rs.Stream.{Gzip}
use hiero_streams_rs.Hapi.{Prost}
use hiero_streams_rs.Block.Merkle.{Sha384}
use hiero_streams_rs.Block.Material.{BlockProofMaterial}
use hiero_streams_rs.Block.Proof.Curves.{Bls, Sha256}
use hiero_streams_rs.Block.Proof.Hints.{HintsChecks, verify_hints, all_passed}
use hiero_streams_rs.Sentinel.{path_name, advance, check_fetched}
use hiero_streams_rs.Sentinel.Types.{State, Source, done}
use hiero_streams_rs.Sentinel.Chain.{Chain, start, next}
use hiero_streams_rs.Sentinel.Chain.Holds.{Fetched, check_fetched-Holds}

module _ ⦃hx : Hex⦄ ⦃bls : Bls⦄ ⦃s : Sha256⦄ ⦃gz : Gzip⦄ ⦃sha : Sha384⦄ ⦃pb : Prost⦄ where
  -- The last block of a chain, and the state behind it.
  pub record Tip (source : Source) (m : ℕ) (state : State) : Type 0 where
    pub number : ℕ
    pub before : m ≡ suc number
    pub material : BlockProofMaterial
    pub fetched : Fetched source number material
    pub numbered : material.block_number ≡ number
    pub block_saved : state.last_block ≡ some number
    pub root_saved : state.last_root ≡ some (hx.encode material.block_root)

  -- A chain that is not empty leaves a state that names the chain's last block and that block's root.
  pub Chain-Tip :
      (source : Source) {n : ℕ} {state : State} {m : ℕ} {state' : State}
      → Chain source n state m state'
      → n < m
      → Tip source m state'
  unfolding advance
  Chain-Tip source start h = absurd (omega arith)
  Chain-Tip source (next {m = m} {state' = s'} {state'' = s''} c e) h =
      let (a, f, holds) = check_fetched-Holds source m (source.fetch m) s' s'' refl e in
      record {
        number = m;
        before = refl;
        material = a;
        fetched = f;
        numbered = holds.numbered;
        block_saved = ap (λ t. t.last_block) holds.advanced;
        root_saved = ap (λ t. t.last_root) holds.advanced;
      }

  -- Two blocks of a chain in a row have consecutive numbers, and the second claims the root that was
  -- recomputed for the first.
  pub record Linked (source : Source) (i : ℕ) : Type 0 where
    pub first : BlockProofMaterial
    pub second : BlockProofMaterial
    pub first_fetched : Fetched source i first
    pub second_fetched : Fetched source (suc i) second
    pub first_numbered : first.block_number ≡ i
    pub second_numbered : second.block_number ≡ suc i
    pub roots : second.previous_block_root ≡ first.block_root

  Linked-Tip :
      (source : Source) (i m : ℕ) (state' state'' : State)
      → suc i ≡ m
      → Tip source m state'
      → check_fetched m (source.fetch m) state' ≡ done state''
      → Linked source i
  Linked-Tip source i m state' state'' at_m tip e =
      let (b, f, holds) = check_fetched-Holds source m (source.fetch m) state' state'' refl e in
      let same : tip.number ≡ i = omega (arith, tip.before) in
      record {
        first = tip.material;
        second = b;
        first_fetched = rw same at tip.fetched;
        second_fetched = rw at_m f;
        first_numbered = tip.numbered ∙ same;
        second_numbered = holds.numbered ∙ sym at_m;
        roots = hx.encode_injective _ _ (holds.linked _ tip.root_saved);
      }

  -- In a chain from block `n` up to block `m`, `m` not included, every two blocks in a row are linked.
  pub Chain-Linked :
      (source : Source) {n : ℕ} {state : State} {m : ℕ} {state' : State}
      → Chain source n state m state'
      → (i : ℕ) → n ≤ i
      → suc i < m
      → Linked source i
  Chain-Linked source start i h k = absurd (omega arith)
  Chain-Linked source (next {m = m} {state' = s'} {state'' = s''} c e) i h k =
      elim (Bool-cases (suc i == m)) [
        | inl last ↦
            Linked-Tip source i m s' s'' ((==_iff _ _).0 last) (Chain-Tip source c (ground arith)) e
        | inr other ↦ Chain-Linked source c i h (ground arith)
      ]

  -- Every block of a chain that carries a TSS proof has a threshold signature that verifies, and no
  -- block of it carries a ledger-ID publication.
  pub Chain-signed :
      (source : Source) {n : ℕ} {state : State} {m : ℕ} {state' : State}
      → Chain source n state m state'
      → (i : ℕ) → n ≤ i
      → i < m
      → (a : BlockProofMaterial) × Fetched source i a
        × (a.bootstrap ≡ none)
        × ((path_name a.layout.path).1 ≡ true
            → (checks : HintsChecks) × (verify_hints a.layout a.block_root ≡ Result.ok checks)
              × (all_passed checks ≡ true))
  Chain-signed source start i h k = absurd (omega arith)
  Chain-signed source (next {m = m} {state' = s'} {state'' = s''} c e) i h k =
      elim (Bool-cases (i == m)) [
        | inl last ↦
            let (a, f, holds) = check_fetched-Holds source m (source.fetch m) s' s'' refl e in
            let same : i ≡ m = (==_iff _ _).0 last in
            (a, rw same f, holds.unpublished, holds.signed)
        | inr other ↦ Chain-signed source c i h (ground arith)
      ]
