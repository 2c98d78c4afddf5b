-- ===== src/Sentinel/Chain/Holds.antt =====
-- What an accepted block of src/cli/sentinel.rs is, read back from the checks that it passed.
use hiero_streams_rs.Prelude.{
  ℕ, ◌≡◌, refl, sym, ap, ◌∙◌, Bool, true, false, not-false, Option, none, some, bytes_eq→eq, ==_iff,
  Bytes,
}
use hiero_streams_rs.Hex.{Hex}
use hiero_streams_rs.Text.{Text}
use hiero_streams_rs.Result.{Result, Error}
use hiero_streams_rs.Stream.{Gzip}
use hiero_streams_rs.Hapi.{Prost, Decoded, value, failure}
use hiero_streams_rs.Block.Merkle.{Sha384}
use hiero_streams_rs.Block.Material.{BlockProofMaterial, Bootstrap, extract_proof_material}
use hiero_streams_rs.Block.Proof.Curves.{Bls, Sha256}
use hiero_streams_rs.Block.Proof.Hints.{HintsChecks, verify_hints, all_passed}
use hiero_streams_rs.Sentinel.{
  path_name, refuse_if, check_number, check_root, check_path, check_size, check_publication,
  passed_or_false, advance, check_signature, check_material, check_block, check_fetched,
}
use hiero_streams_rs.Sentinel.Types.{
  Alarm, State, Source, done, >>=-eq-done, done_injective, or_alarm,
}

refuse_if-done : (b : Bool) (a : Alarm) {u : Unit {0}} → refuse_if b a ≡ done u → b ≡ false
refuse_if-done true a h = cc
refuse_if-done false a h = refl

or_alarm-done :
    {T : Type 0} (f : Error → Alarm) (r : Result T) {t : T}
    → or_alarm f r ≡ done t
    → r ≡ Result.ok t
or_alarm-done f (Result.ok t) h = ap Result.ok (done_injective h)
or_alarm-done f (Result.err e) h = cc
or_alarm-done f Result.panic h = cc
or_alarm-done f Result.stuck h = cc

module _ ⦃hx : Hex⦄ where
  check_root-done :
      (n : ℕ) (m : BlockProofMaterial) (known : Option Text) (root : Text) {u : Unit {0}}
      → check_root n m known ≡ done u
      → known ≡ some root
      → hx.encode m.previous_block_root ≡ root
  unfolding check_root
  check_root-done n m none root h e = cc
  check_root-done n m (some prev) root h e =
      let same : prev ≡ root = cc in bytes_eq→eq _ _ (not-false _ (refuse_if-done _ _ h)) ∙ same

check_publication-done :
    (n : ℕ) (o : Option Bootstrap) {u : Unit {0}} → check_publication n o ≡ done u → o ≡ none
unfolding check_publication
check_publication-done n none h = refl
check_publication-done n (some b) h = cc

module _ ⦃hx : Hex⦄ ⦃bls : Bls⦄ ⦃s : Sha256⦄ where
  -- What an accepted block is: its number, its claim of the previous root, no publication, and, where
  -- its path carries a TSS proof, a threshold signature that verifies; the state advances through it.
  pub record Holds (n : ℕ) (m : BlockProofMaterial) (state state' : State) : Type 0 where
    pub numbered : m.block_number ≡ n
    pub linked :
        (root : Text) → state.last_root ≡ some root → hx.encode m.previous_block_root ≡ root
    pub unpublished : m.bootstrap ≡ none
    pub signed :
        (path_name m.layout.path).1 ≡ true
        → (checks : HintsChecks) × (verify_hints m.layout m.block_root ≡ Result.ok checks)
          × (all_passed checks ≡ true)
    pub advanced : state' ≡ advance n m state

  passed-true :
      (r : Result HintsChecks) {b : Bool}
      → passed_or_false r ≡ done b
      → b ≡ true
      → (checks : HintsChecks) × (r ≡ Result.ok checks) × (all_passed checks ≡ true)
  passed-true (Result.ok checks) h t = (checks, refl, done_injective h ∙ t)
  passed-true (Result.err e) h t = absurd (cc (done_injective h, t))
  passed-true Result.panic h t = absurd (cc h)
  passed-true Result.stuck h t = absurd (cc h)

  check_signature-done :
      (n : ℕ) (m : BlockProofMaterial) {u : Unit {0}}
      → check_signature n m ≡ done u
      → (path_name m.layout.path).1 ≡ true
      → (checks : HintsChecks) × (verify_hints m.layout m.block_root ≡ Result.ok checks)
        × (all_passed checks ≡ true)
  unfolding check_signature
  check_signature-done n m h tss =
      let (passed, e, h₁) =
        >>=-eq-done (passed_or_false (verify_hints m.layout m.block_root)) _ (rw tss at h) in
      passed-true (verify_hints m.layout m.block_root) e (not-false _ (refuse_if-done _ _ h₁))

  check_material-Holds :
      (n : ℕ) (m : BlockProofMaterial) (state state' : State)
      → check_material n m state ≡ done state'
      → Holds n m state state'
  unfolding check_material check_number
  check_material-Holds n m state state' h =
      let (_, a, h₁) = >>=-eq-done (check_number n m) _ h in
      let (_, b, h₂) = >>=-eq-done (check_root n m state.last_root) _ h₁ in
      let (_, c, h₃) = >>=-eq-done (check_path n m state.proof_path state.signature_bytes) _ h₂ in
      let (_, d, h₄) = >>=-eq-done (check_size n m state.signature_bytes) _ h₃ in
      let (_, e, h₅) = >>=-eq-done (check_publication n m.bootstrap) _ h₄ in
      let (_, f, h₆) = >>=-eq-done (check_signature n m) _ h₅ in
      record {
        numbered = (==_iff _ _).0 (not-false _ (refuse_if-done _ _ a));
        linked = λ root known. check_root-done n m state.last_root root b known;
        unpublished = check_publication-done n m.bootstrap e;
        signed = λ tss. check_signature-done n m f tss;
        advanced = sym (done_injective h₆);
      }

  module _ ⦃gz : Gzip⦄ ⦃sha : Sha384⦄ ⦃pb : Prost⦄ where
    -- The material that a fetched block holds.
    pub record Fetched (source : Source) (n : ℕ) (m : BlockProofMaterial) : Type 0 where
      pub file : Bytes
      pub arrived : source.fetch n ≡ value file
      pub read : extract_proof_material file ≡ Result.ok m

    pub check_fetched-Holds :
        (source : Source) (n : ℕ) (d : Decoded Bytes) (state state' : State)
        → source.fetch n ≡ d
        → check_fetched n d state ≡ done state'
        → (m : BlockProofMaterial) × Fetched source n m × Holds n m state state'
    unfolding check_fetched check_block
    check_fetched-Holds source n (value file) state state' e h =
        let (m, r, h₁) = >>=-eq-done (or_alarm _ (extract_proof_material file)) _ h in
        (
          m,
          record {
            file = file;
            arrived = e;
            read = or_alarm-done _ (extract_proof_material file) r;
          },
          check_material-Holds n m state state' h₁,
        )
    check_fetched-Holds source n (failure t) state state' e h = absurd (cc h)
