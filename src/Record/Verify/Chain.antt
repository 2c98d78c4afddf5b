-- ===== src/Record/Verify/Chain.antt =====
-- `verify_running_hash_chain` of src/record/verify.rs against what a chain of files is.
use hiero_streams_rs.Prelude.{
  ℕ, zero, suc, ◌+◌, ◌≡◌, ◌≢◌, refl, sym, ap, ◌↔◌, ◌⊎◌, inl, inr, true, false, none, some, List, [],
  ◌∷◌, arith, get_elem?, take, Bool-cases, bytes_eq, bytes_eq→eq, bytes_eq_refl,
}
use hiero_streams_rs.Prelude.Int.{ℤ, pos, negsuc, ◌+ℤ◌, eqb_ℤ}
use hiero_streams_rs.Record.{ParsedRecordFile}
use hiero_streams_rs.Record.Verify.{
  ChainBreak, i64_max, checked_suc, follows, chain_from, verify_running_hash_chain,
}

-- The second file continues the first: its start hash is the other's end hash, and its number the next
-- `i64`, if there is one.
abbrev pub IsLink : ParsedRecordFile → ParsedRecordFile → Type 0
IsLink prev next =
    (next.start_running_hash ≡ prev.end_running_hash)
    × (next.block_number ≡ prev.block_number +ℤ pos 1)
    × (prev.block_number ≢ i64_max)

abbrev pub IsChain : List ParsedRecordFile → Type 0
IsChain files =
    (i : ℕ) (prev next : ParsedRecordFile)
    → get_elem? files i ≡ some prev
    → get_elem? files (suc i) ≡ some next
    → IsLink prev next

eqb_ℤ→eq : (a b : ℤ) → eqb_ℤ a b ≡ true → a ≡ b
eqb_ℤ→eq (pos a) (pos b) h = ap pos (ground arith)
eqb_ℤ→eq (pos a) (negsuc b) h = cc
eqb_ℤ→eq (negsuc a) (pos b) h = cc
eqb_ℤ→eq (negsuc a) (negsuc b) h = ap negsuc (ground arith)

eqb_ℤ_refl : (a : ℤ) → eqb_ℤ a a ≡ true
eqb_ℤ_refl (pos a) = ground arith
eqb_ℤ_refl (negsuc a) = ground arith

follows→IsLink :
    (next prev : ℤ) → follows next prev ≡ true → (next ≡ prev +ℤ pos 1) × (prev ≢ i64_max)
unfolding follows checked_suc
follows→IsLink next prev h = elim (Bool-cases (eqb_ℤ prev i64_max)) [
  | inl last ↦ absurd (cc (rw (last, follows, checked_suc) at h))
  | inr other ↦ (
    eqb_ℤ→eq next (prev +ℤ pos 1) (rw (other, follows, checked_suc) at h),
    λ e. absurd (cc (eqb_ℤ_refl i64_max, ap (λ z. eqb_ℤ z i64_max) e)),
  )
]

IsLink→follows : (next prev : ℤ) → next ≡ prev +ℤ pos 1 → prev ≢ i64_max → follows next prev ≡ true
unfolding follows checked_suc
IsLink→follows next prev e n = elim (Bool-cases (eqb_ℤ prev i64_max)) [
  | inl last ↦ absurd (n (eqb_ℤ→eq prev i64_max last))
  | inr other ↦ rw (other, follows, checked_suc) (rw e (eqb_ℤ_refl (prev +ℤ pos 1)))
]

-- What one round decides.
IsLink-cases :
    (prev next : ParsedRecordFile)
    → ((bytes_eq next.start_running_hash prev.end_running_hash ≡ true)
        × (follows next.block_number prev.block_number ≡ true)
        × IsLink prev next)
      ⊎ ((IsLink prev next → ⊥)
          × ((bytes_eq next.start_running_hash prev.end_running_hash ≡ false)
              ⊎ ((bytes_eq next.start_running_hash prev.end_running_hash ≡ true)
                  × (follows next.block_number prev.block_number ≡ false))))
IsLink-cases prev next =
    elim (Bool-cases (bytes_eq next.start_running_hash prev.end_running_hash)) [
      | inr differ ↦ inr (
        λ l. absurd (
            cc (
              ap (λ h. bytes_eq h prev.end_running_hash) (l.0),
              bytes_eq_refl prev.end_running_hash,
            )),
        inl differ,
      )
      | inl same ↦ elim (Bool-cases (follows next.block_number prev.block_number)) [
        | inl next_number ↦
            let l = follows→IsLink next.block_number prev.block_number next_number in
            inl (same, next_number, (bytes_eq→eq _ _ same, l.0, l.1))
        | inr gap ↦ inr (
          λ l. absurd (cc (IsLink→follows next.block_number prev.block_number (l.1) (l.2))),
          inr (same, gap),
        )
      ]
    ]

abbrev pub Links : ParsedRecordFile → List ParsedRecordFile → Type 0
Links prev [] = Unit
Links prev (next ∷ files) = IsLink prev next × Links next files

pub chain_from-Links :
    (i : ℕ) (prev : ParsedRecordFile) (files : List ParsedRecordFile)
    → Links prev files
    → chain_from i prev files ≡ none
unfolding chain_from
chain_from-Links i prev [] l = refl
chain_from-Links i prev (next ∷ files) (l, ls) = elim (IsLink-cases prev next) [
  | inl (same, number, _) ↦ rw (same, number) (chain_from-Links (suc i) next files ls)
  | inr (n, _) ↦ absurd (n l)
]

pub Links-chain_from :
    (i : ℕ) (prev : ParsedRecordFile) (files : List ParsedRecordFile)
    → chain_from i prev files ≡ none
    → Links prev files
unfolding chain_from
Links-chain_from i prev [] e = tt
Links-chain_from i prev (next ∷ files) e = elim (IsLink-cases prev next) [
  | inl (same, number, l) ↦ (l, Links-chain_from (suc i) next files (rw (same, number) at e))
  | inr (n, inl differ) ↦ absurd (cc (rw differ at e))
  | inr (n, inr (same, gap)) ↦ absurd (cc (rw (same, gap) at e))
]

some_injective {ℓ} : {A : Type ℓ} {a b : A} → some a ≡ some b → a ≡ b
some_injective h = cc

pub Links-IsChain :
    (prev : ParsedRecordFile) (files : List ParsedRecordFile)
    → Links prev files
    → IsChain (prev ∷ files)
Links-IsChain prev [] l i a b p q = cc
Links-IsChain prev (next ∷ files) (l, ls) zero a b p q =
    rw (← some_injective p, ← some_injective q) l
Links-IsChain prev (next ∷ files) (l, ls) (suc i) a b p q = Links-IsChain next files ls i a b p q

IsChain-Links :
    (prev : ParsedRecordFile) (files : List ParsedRecordFile)
    → IsChain (prev ∷ files)
    → Links prev files
IsChain-Links prev [] c = tt
IsChain-Links prev (next ∷ files) c =
    (c 0 prev next refl refl, IsChain-Links next files (λ i a b p q. c (suc i) a b p q))

-- The check finds no break exactly where every file continues the one before it.
pub verify_running_hash_chain-IsChain :
    (files : List ParsedRecordFile) → (verify_running_hash_chain files ≡ none) ↔ IsChain files
unfolding verify_running_hash_chain
verify_running_hash_chain-IsChain [] = (λ e i a b p q. cc, λ c. refl)
verify_running_hash_chain-IsChain (file ∷ files) = (
  λ e. Links-IsChain file files (Links-chain_from 1 file files e),
  λ c. chain_from-Links 1 file files (IsChain-Links file files c),
)

IsChain-cons :
    (prev next : ParsedRecordFile) (files : List ParsedRecordFile)
    → IsLink prev next
    → IsChain (next ∷ files)
    → IsChain (prev ∷ (next ∷ files))
IsChain-cons prev next files l c zero a b p q = rw (← some_injective p, ← some_injective q) l
IsChain-cons prev next files l c (suc i) a b p q = c i a b p q

-- Where a run of the loop breaks; `first` is the index of the second file.
pub record BreaksAt (first : ℕ) (files : List ParsedRecordFile) (b : ChainBreak) : Type 0 where
  pub place : ℕ
  pub index_is : b.index ≡ first + place
  pub before : ParsedRecordFile
  pub after : ParsedRecordFile
  pub before_is : get_elem? files place ≡ some before
  pub after_is : get_elem? files (suc place) ≡ some after
  pub no_link : IsLink before after → ⊥
  pub chain_before : IsChain (take (suc place) files)

BreaksAt-here :
    (i : ℕ) (prev next : ParsedRecordFile) (files : List ParsedRecordFile) (b : ChainBreak)
    → b.index ≡ i
    → (IsLink prev next → ⊥)
    → BreaksAt i (prev ∷ (next ∷ files)) b
BreaksAt-here i prev next files b e n = record {
  place = 0;
  index_is = omega (arith, e);
  before = prev;
  after = next;
  before_is = refl;
  after_is = refl;
  no_link = n;
  chain_before = Links-IsChain prev [] tt;
}

chain_from-BreaksAt :
    (i : ℕ) (prev : ParsedRecordFile) (files : List ParsedRecordFile) (b : ChainBreak)
    → chain_from i prev files ≡ some b
    → BreaksAt i (prev ∷ files) b
unfolding chain_from
chain_from-BreaksAt i prev [] b e = cc
chain_from-BreaksAt i prev (next ∷ files) b e = elim (IsLink-cases prev next) [
  | inl (same, number, l) ↦
      let r = chain_from-BreaksAt (suc i) next files b (rw (same, number) at e) in
      record {
        place = suc r.place;
        index_is = omega (arith, r.index_is);
        before = r.before;
        after = r.after;
        before_is = r.before_is;
        after_is = r.after_is;
        no_link = r.no_link;
        chain_before = IsChain-cons prev next (take r.place files) l r.chain_before;
      }
  | inr (n, inl differ) ↦
      let found = some_injective (rw differ at e) in
      BreaksAt-here i prev next files b (sym (ap (λ c. c.index) found)) n
  | inr (n, inr (same, gap)) ↦
      let found = some_injective (rw (same, gap) at e) in
      BreaksAt-here i prev next files b (sym (ap (λ c. c.index) found)) n
]

-- A break that the check reports is the first one: at its index stands a file that does not continue
-- the file before it, and all the files before that index are a chain.
pub verify_running_hash_chain-BreaksAt :
    (files : List ParsedRecordFile) (b : ChainBreak)
    → verify_running_hash_chain files ≡ some b
    → BreaksAt 1 files b
unfolding verify_running_hash_chain
verify_running_hash_chain-BreaksAt [] b e = cc
verify_running_hash_chain-BreaksAt (file ∷ files) b e = chain_from-BreaksAt 1 file files b e
