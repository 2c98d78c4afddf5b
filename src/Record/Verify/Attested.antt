-- ===== src/Record/Verify/Attested.antt =====
-- What `verify_record_file` of src/record/verify.rs reports.
use hiero_streams_rs.Prelude.{
  ◌+◌, ◌*◌, ◌≤◌, ◌<◌, ◌≡◌, ◌≢◌, refl, sym, ap, ◌∙◌, ◌⊎◌, inl, inr, true, Option, none, some, List,
  [], ◌∷◌, ◌++◌, map, arith, length, Bytes, Bool-cases, All, append_assoc, append-nil,
  length-append,
}
use hiero_streams_rs.Result.{ok, >>=-eq-ok, ok_injective}
use hiero_streams_rs.Text.{Text}
use hiero_streams_rs.Stream.{Gzip, inflate}
use hiero_streams_rs.Proto
use hiero_streams_rs.Block.Merkle.{Sha384}
use hiero_streams_rs.Record.Verify.{
  Rsa, NodeSignature, VerifyResult, Tally, AddressBook, get, signs, tally_one, tally_all,
  verify_record_file, record_file_hash,
}

abbrev pub NoDup : List Text → Type 0
NoDup [] = Unit
NoDup (x ∷ xs) = All (λ y. x ≢ y) xs × NoDup xs

abbrev pub nodes_of : List NodeSignature → List Text
nodes_of = map λ sig. sig.node

module _ ⦃pr : Proto.Proto⦄ ⦃rsa : Rsa⦄ (hash : Bytes) (book : AddressBook) where
  -- The node is in the book, and one of the files, published by it, signs the hash with its key.
  abbrev pub Attests : List NodeSignature → Text → Type 0
  Attests [] node = ⊥
  Attests (sig ∷ sigs) node =
      ((sig.node ≡ node) × ((k : Text) × (get node book ≡ some k) × (signs hash sig k ≡ true)))
      ⊎ Attests sigs node

  data Verdict (sig : NodeSignature) (t : Tally) : Type 0 where
    is_valid :
        (k : Text)
        → get sig.node book ≡ some k
        → signs hash sig k ≡ true
        → tally_one hash book t sig ≡ record t { valid = t.valid ++ (sig.node ∷ []) }
        → Verdict sig t
    is_invalid :
        tally_one hash book t sig ≡ record t { invalid = t.invalid ++ (sig.node ∷ []) }
        → Verdict sig t
    is_unknown :
        tally_one hash book t sig ≡ record t { unknown = t.unknown ++ (sig.node ∷ []) }
        → Verdict sig t

  option_cases {ℓ} : {A : Type ℓ} (o : Option A) → (o ≡ none) ⊎ ((a : A) × (o ≡ some a))
  option_cases none = inl refl
  option_cases (some a) = inr (a, refl)

  verdict : (sig : NodeSignature) (t : Tally) → Verdict sig t
  unfolding tally_one
  verdict sig t = elim (option_cases (get sig.node book)) [
    | inl missing ↦ is_unknown (rw (missing, tally_one) refl)
    | inr (k, known) ↦ elim (Bool-cases (signs hash sig k)) [
      | inl good ↦ is_valid k known good (rw (known, tally_one) (rw good refl))
      | inr bad ↦ is_invalid (rw (known, tally_one) (rw bad refl))
    ]
  ]

  -- What the rest of the loop adds to the valid nodes.
  record Added (sigs : List NodeSignature) (t t' : Tally) : Type 0 where
    added : List Text
    valid_is : t'.valid ≡ t.valid ++ added
    attest : All (Attests sigs) added
    once : NoDup (nodes_of sigs) → NoDup added
    among : (x : Text) → All (λ y. x ≢ y) (nodes_of sigs) → All (λ y. x ≢ y) added
    counted :
        length t'.valid + length t'.invalid + length t'.unknown
        ≡ length t.valid + length t.invalid + length t.unknown + length sigs

  All-map {ℓ} :
      {P Q : Text → Type ℓ} (xs : List Text) → ((x : Text) → P x → Q x) → All P xs → All Q xs
  All-map [] f a = tt
  All-map (x ∷ xs) f (a, rest) = (f x a, All-map xs f rest)

  Added-skip :
      (sig : NodeSignature) (sigs : List NodeSignature) (t t₁ t' : Tally)
      → t₁.valid ≡ t.valid
      → length t₁.invalid + length t₁.unknown ≡ length t.invalid + length t.unknown + 1
      → Added sigs t₁ t'
      → Added (sig ∷ sigs) t t'
  Added-skip sig sigs t t₁ t' same grows a = record {
    added = a.added;
    valid_is = a.valid_is ∙ ap (λ v. v ++ a.added) same;
    attest = All-map a.added (λ x h. inr h) a.attest;
    once = λ (_, rest). a.once rest;
    among = λ y (_, rest). a.among y rest;
    counted = omega (arith, a.counted, ap length same);
  }

  tally_all-Added :
      (sigs : List NodeSignature) (t : Tally) → Added sigs t (tally_all hash book t sigs)
  unfolding tally_all
  tally_all-Added [] t = record {
    added = [];
    valid_is = sym (append-nil t.valid);
    attest = tt;
    once = λ _. tt;
    among = λ y _. tt;
    counted = omega arith;
  }
  tally_all-Added (sig ∷ sigs) t = elim (verdict sig t) [
    | is_unknown e ↦ rw e (
        Added-skip sig sigs t (record t { unknown = t.unknown ++ (sig.node ∷ []) }) _ refl
          (omega (arith, length-append t.unknown (sig.node ∷ []))) (tally_all-Added sigs _))
    | is_invalid e ↦ rw e (
        Added-skip sig sigs t (record t { invalid = t.invalid ++ (sig.node ∷ []) }) _ refl
          (omega (arith, length-append t.invalid (sig.node ∷ []))) (tally_all-Added sigs _))
    | is_valid k known good e ↦
        let a = tally_all-Added sigs (record t { valid = t.valid ++ (sig.node ∷ []) }) in
        rw e (record {
          added = sig.node ∷ a.added;
          valid_is = a.valid_is ∙ append_assoc t.valid (sig.node ∷ []) a.added;
          attest = (inl (refl, (k, known, good)), All-map a.added (λ x h. inr h) a.attest);
          once = λ (others, rest). (a.among sig.node others, a.once rest);
          among = λ y (p, rest). (p, a.among y rest);
          counted = omega (arith, a.counted, length-append t.valid (sig.node ∷ []));
        })
  ]

module _ ⦃gz : Gzip⦄ ⦃sha : Sha384⦄ ⦃pr : Proto.Proto⦄ ⦃rsa : Rsa⦄ where
  -- What `verify_record_file` has found where it returns `r`.
  pub record Report (bytes : Bytes) (sigs : List NodeSignature) (book : AddressBook)
      (r : VerifyResult) : Type 0 where
    pub raw : Bytes
    pub inflated : inflate bytes ≡ ok raw
    pub hash_is : r.hash ≡ sha.digest raw
    pub attest : All (Attests r.hash book sigs) r.valid
    pub once : NoDup (nodes_of sigs) → NoDup r.valid
    pub counted : length r.valid + length r.invalid + length r.unknown ≡ length sigs
    pub threshold : r.attested ≡ true → (0 < length book) × (length book ≤ 3 * length r.valid)

  -- When `verify_record_file` returns, its hash is SHA-384 of the inflated file; each signature
  -- file is counted once, as valid, invalid or unknown; each valid node is in the address book and
  -- published a file that signs that hash with its key; no node is valid twice where the files are
  -- of different nodes; and an attested file has valid entries for a third of a book that is not
  -- empty.
  pub verify_record_file-Report :
      (bytes : Bytes) (sigs : List NodeSignature) (book : AddressBook) (r : VerifyResult)
      → verify_record_file bytes sigs book ≡ ok r
      → Report bytes sigs book r
  unfolding verify_record_file record_file_hash
  verify_record_file-Report bytes sigs book r e =
      let (hash, h, e₁) = >>=-eq-ok (record_file_hash bytes) _ e in
      let (raw, i, h₁) = >>=-eq-ok (inflate bytes) _ h in
      let a = tally_all-Added hash book sigs (record { valid = []; invalid = []; unknown = [] }) in
      let same_hash : sha.digest raw ≡ hash = ok_injective h₁ in
      rw (← ok_injective e₁) (record {
        raw = raw;
        inflated = i;
        hash_is = sym same_hash;
        attest = rw a.valid_is a.attest;
        once = λ n. rw a.valid_is (a.once n);
        counted = omega (arith, a.counted);
        threshold = λ t. ground arith;
      })
