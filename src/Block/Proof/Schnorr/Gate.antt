-- ===== src/Block/Proof/Schnorr/Gate.antt =====
-- What a Schnorr check of src/block/proof/schnorr.rs that succeeds says of the address book.
use hiero_streams_rs.Prelude.{
  ℕ, suc, ◌+◌, ◌≤◌, ◌<◌, ◌≡◌, refl, sym, ap, ◌∙◌, inl, inr, Bool, true, false, not, ◌||◌, Option,
  none, some, List, [], ◌∷◌, arith, leb, leb→le, not-false, ◌==◌, ==_iff, if◌then◌else◌, length,
  get_elem?, get_elem?-none, get_elem?-some, take, drop, length-take, Bytes, Bool-cases,
}
use hiero_streams_rs.Result.{
  Result, ok, err, ◌>>=◌, >>=-eq-ok, ok_injective, else_part, Settles, Settles-bind, Settles-if,
  proof, node_public_key, not_schnorr_path, bad_schnorr_suffix, no_node_contributions,
}
use hiero_streams_rs.Hapi.{Decoded, value, failure}
use hiero_streams_rs.Block.Material.{ProofLayout, Bootstrap, NodeContribution}
use hiero_streams_rs.Block.Proof.Curves.{Jubjub, Bn254}
use hiero_streams_rs.Block.Proof.Schnorr.{
  SchnorrVerification, bitvector_length, suffix_length, node_key_length, selects,
  point_from_key_bytes, aggregate, rotation_message, recomputed_challenge, judge, verify_schnorr,
  is_schnorr,
}

abbrev pub chosen : Option ℕ → Bool
chosen none = false
chosen (some b) = not (b == 0)

-- The nodes whose byte of the vector is not zero.
abbrev pub signers : Bytes → ℕ → List NodeContribution → List NodeContribution
signers bitvector i [] = []
signers bitvector i (c ∷ cs) =
    let rest = signers bitvector (suc i) cs in
    if chosen (get_elem? bitvector i) then c ∷ rest else rest

length-signers :
    (bitvector : Bytes) (i : ℕ) (cs : List NodeContribution)
    → length (signers bitvector i cs) ≤ length cs
length-signers bitvector i [] = omega arith
length-signers bitvector i (c ∷ cs) =
    let rest = length-signers bitvector (suc i) cs in
    elim (Bool-cases (chosen (get_elem? bitvector i))) [
      | inl e ↦ rw e (omega arith)
      | inr e ↦ rw e (omega arith)
    ]

selects-chosen :
    (bitvector : Bytes) (i : ℕ)
    → length bitvector ≡ bitvector_length
    → selects bitvector i ≡ ok (chosen (get_elem? bitvector i))
unfolding selects
selects-chosen bitvector i e = elim (Bool-cases (leb bitvector_length i)) [
  | inl past ↦ rw (past, get_elem?-none bitvector i (omega (arith, leb→le _ _ past))) refl
  | inr inside ↦ let (b, here) = get_elem?-some bitvector i (ground arith) in rw (inside, here) refl
]

length-bitvector :
    (suffix : Bytes)
    → not (length suffix == suffix_length) ≡ false
    → length (take bitvector_length suffix) ≡ bitvector_length
length-bitvector suffix h =
    let sized : length suffix ≡ suffix_length = (==_iff _ _).0 (not-false _ h) in
    omega (arith, sized, length-take bitvector_length suffix)

module _ ⦃jj : Jubjub⦄ where
  -- The keys of the nodes, summed up.
  abbrev pub sum_keys : jj.Point → List NodeContribution → Result jj.Point
  sum_keys total [] = ok total
  sum_keys total (c ∷ cs) = do
    pk ← point_from_key_bytes c.history_proof_key
    sum_keys (jj.add total pk) cs

  aggregate-signers :
      (bitvector : Bytes) (i : ℕ) (cs : List NodeContribution) (n : ℕ) (total : jj.Point) {m : ℕ}
      {sum : jj.Point}
      → length bitvector ≡ bitvector_length
      → aggregate bitvector i cs n total ≡ ok (m, sum)
      → (m ≡ n + length (signers bitvector i cs))
        × (sum_keys total (signers bitvector i cs) ≡ ok sum)
  unfolding aggregate
  aggregate-signers bitvector i [] n total {m} {sum} e h =
      let same = ok_injective h in (counted m sum same, ap (λ p. ok (p.1)) same)
    where
      counted : (m : ℕ) (sum : jj.Point) → ◌≡◌ {A = ℕ × jj.Point} (n, total) (m, sum) → m ≡ n + 0
      counted m sum same = omega (arith, ap (λ p. p.0) same)
  aggregate-signers bitvector i (c ∷ cs) n total {m} {sum} e h =
      let read = rw (selects-chosen bitvector i e) at h in
      elim (Bool-cases (chosen (get_elem? bitvector i))) [
        | inr skipped ↦
            let here = rw skipped at read in
            rw skipped (aggregate-signers bitvector (suc i) cs n total e here)
        | inl taken ↦
            let here = rw taken at read in
            elim (Bool-cases (length c.history_proof_key == node_key_length)) [
              | inr short ↦ absurd (cc (rw short at here))
              | inl long ↦
                  let go = rw long at here in
                  let (pk, key, rest) = >>=-eq-ok (point_from_key_bytes c.history_proof_key) _ go in
                  let (counted, summed) =
                    aggregate-signers bitvector (suc i) cs (n + 1) (jj.add total pk) e rest in
                  rw (taken, key) (omega arith, summed)
            ]
      ]

  point_from_key_bytes-Settles :
      (b : Bytes) → length b ≡ node_key_length → Settles (point_from_key_bytes b)
  unfolding point_from_key_bytes
  point_from_key_bytes-Settles b e =
      let fits : leb 64 (length b) ≡ true = rw e refl in
      rw fits (go (jj.deserialize_uncompressed (take 64 b)))
    where
      go :
          (d : Decoded jj.Point)
          → Settles (elim d as (λ _. Result jj.Point) [
            | value p ↦ ok p
            | failure e ↦ err (proof (node_public_key e))
          ])
      go (value p) = tt
      go (failure e) = tt

  aggregate-Settles :
      (bitvector : Bytes) (i : ℕ) (cs : List NodeContribution) (n : ℕ) (total : jj.Point)
      → length bitvector ≡ bitvector_length
      → Settles (aggregate bitvector i cs n total)
  unfolding aggregate
  aggregate-Settles bitvector i [] n total e = tt
  aggregate-Settles bitvector i (c ∷ cs) n total e = rw (selects-chosen bitvector i e) (
      Settles-if (chosen (get_elem? bitvector i)) _ _
        (λ _.
          Settles-if (not (length c.history_proof_key == node_key_length)) _ _ (λ _. tt)
            (λ long.
              Settles-bind (point_from_key_bytes c.history_proof_key) _
                (point_from_key_bytes-Settles c.history_proof_key (ground (arith, long)))
                (λ pk _. aggregate-Settles bitvector (suc i) cs (n + 1) (jj.add total pk) e)))
        (λ _. aggregate-Settles bitvector (suc i) cs n total e))

  module _ ⦃bn : Bn254⦄ where
    -- `verify_schnorr` never panics, on any proof layout and any bootstrap.
    pub verify_schnorr-Settles :
        (layout : ProofLayout) (bootstrap : Bootstrap) → Settles (verify_schnorr layout bootstrap)
    unfolding verify_schnorr
    verify_schnorr-Settles layout bootstrap =
        Settles-if (not (is_schnorr layout.path)) _ _ (λ _. tt)
          (λ _.
            Settles-if (not (length layout.suffix == suffix_length)) _ _ (λ _. tt)
              (λ sized.
                Settles-if (length bootstrap.node_contributions == 0) _ _ (λ _. tt)
                  (λ _.
                    Settles-bind
                      (aggregate (take bitvector_length layout.suffix) 0
                        bootstrap.node_contributions 0 jj.identity)
                      _
                      (aggregate-Settles (take bitvector_length layout.suffix) 0
                        bootstrap.node_contributions 0 jj.identity
                        (length-bitvector layout.suffix sized))
                      (λ _ _. tt))))

    -- What the last test of a check that accepts rests on.
    pub record Accepts (layout : ProofLayout) (bootstrap : Bootstrap) (n : ℕ) (agg_pk : jj.Point)
        : Type 0 where
      pub some_signer : 0 < n
      pub not_zero : jj.is_zero agg_pk ≡ false
      pub challenge :
          jj.scalar_eq
            (recomputed_challenge agg_pk
              (jj.from_le_bytes_mod_order (take 32 (drop bitvector_length layout.suffix)))
              (jj.from_le_bytes_mod_order (drop (bitvector_length + 32) layout.suffix))
              (rotation_message layout bootstrap))
            (jj.from_le_bytes_mod_order (drop (bitvector_length + 32) layout.suffix))
          ≡ true

    judge-Accepts :
        (layout : ProofLayout) (bootstrap : Bootstrap) (n : ℕ) (agg_pk : jj.Point)
        → (judge layout bootstrap n agg_pk).valid ≡ true
        → Accepts layout bootstrap n agg_pk
    unfolding judge
    judge-Accepts layout bootstrap n agg_pk v = elim (Bool-cases ((n == 0) || jj.is_zero agg_pk)) [
      | inl refused ↦ absurd (cc (rw refused at v))
      | inr passed ↦ record {
        some_signer = ground (arith, passed);
        not_zero = ground (arith, passed);
        challenge = rw passed at v;
      }
    ]

    judge_counts :
        (layout : ProofLayout) (bootstrap : Bootstrap) (n : ℕ) (agg_pk : jj.Point)
        → ((judge layout bootstrap n agg_pk).signer_count ≡ n)
          × ((judge layout bootstrap n agg_pk).total_nodes ≡ length bootstrap.node_contributions)
    unfolding judge
    judge_counts layout bootstrap n agg_pk = elim (Bool-cases ((n == 0) || jj.is_zero agg_pk)) [
      | inl e ↦ rw e (refl, refl)
      | inr e ↦ rw e (refl, refl)
    ]

    -- If `verify_schnorr` returns an outcome `v` that is valid, the suffix has 192 bytes, `v` counts the nodes
    -- whose byte of the 128-byte vector is not zero, of which there is one at least and no more than
    -- the address book has, and for the sum of exactly their keys, which is not zero, the recomputed
    -- challenge equals the one in the suffix.
    pub verify_schnorr-signers :
        (layout : ProofLayout) (bootstrap : Bootstrap) (v : SchnorrVerification)
        → verify_schnorr layout bootstrap ≡ ok v
        → v.valid ≡ true
        → (length layout.suffix ≡ suffix_length)
          × (v.signer_count
              ≡ length
                  (signers (take bitvector_length layout.suffix) 0 bootstrap.node_contributions))
          × (v.signer_count ≤ v.total_nodes)
          × ((agg_pk : jj.Point) × (sum_keys jj.identity
                  (signers (take bitvector_length layout.suffix) 0 bootstrap.node_contributions)
                ≡ ok agg_pk)
              × Accepts layout bootstrap v.signer_count agg_pk)
    unfolding verify_schnorr
    verify_schnorr-signers layout bootstrap v h accepted =
        let (on_path, h₁) = else_part (not (is_schnorr layout.path)) (proof not_schnorr_path) _ h in
        let (sized, h₂) =
          else_part (not (length layout.suffix == suffix_length))
            (proof (bad_schnorr_suffix (length layout.suffix))) _ h₁ in
        let (_, h₃) =
          else_part (length bootstrap.node_contributions == 0) (proof no_node_contributions) _ h₂ in
        let bitvector = take bitvector_length layout.suffix in
        let ((n, agg_pk), walked, h₄) =
          >>=-eq-ok (aggregate bitvector 0 bootstrap.node_contributions 0 jj.identity) _ h₃ in
        let (counted, summed) =
          aggregate-signers bitvector 0 bootstrap.node_contributions 0 jj.identity
            (length-bitvector layout.suffix sized) walked in
        let judged : judge layout bootstrap n agg_pk ≡ v = ok_injective h₄ in
        let (same_count, same_total) = judge_counts layout bootstrap n agg_pk in
        let n_is : n ≡ v.signer_count = sym same_count ∙ ap (λ w. w.signer_count) judged in
        let total_is : length bootstrap.node_contributions ≡ v.total_nodes =
          sym same_total ∙ ap (λ w. w.total_nodes) judged in
        let bounded = length-signers bitvector 0 bootstrap.node_contributions in
        (
          (==_iff _ _).0 (not-false _ sized),
          omega (arith, n_is, counted),
          omega (arith, n_is, counted, total_is, bounded),
          (
            agg_pk,
            summed,
            rw (← n_is)
                (judge-Accepts layout bootstrap n agg_pk (ap (λ w. w.valid) judged ∙ accepted)),
          ),
        )
