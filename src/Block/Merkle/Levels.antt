-- ===== src/Block/Merkle/Levels.antt =====
-- A run of 2 ^ k leaves, paired level by level, comes down to one root (`perfect_root` and
-- `peak_path` of src/block/merkle.rs).
use mathlib.Core.Path.{subst}
use native.Mathlib.Nat.{pow-suc}
use hiero_streams_rs.Prelude.{
  ℕ, zero, suc, ◌*◌, ◌^◌, ◌≤◌, ◌≡◌, refl, sym, some, List, [], ◌∷◌, ◌++◌, arith, length, get_elem?,
  Bytes, length-append,
}
use hiero_streams_rs.Result.{ok, >>=-eq-ok}
use hiero_streams_rs.Block.Merkle.{Sha384, hash_internal, pair_up, perfect_loop, perfect_root}

module _ ⦃sha : Sha384⦄ where
  pair_up-even :
      (m : ℕ) (level : List Bytes)
      → length level ≡ 2 * m
      → (next : List Bytes) × (pair_up level ≡ ok next) × (length next ≡ m)
  unfolding pair_up
  pair_up-even zero [] h = ([], refl, refl)
  pair_up-even zero (l ∷ level) h = absurd (omega arith)
  pair_up-even (suc m) [] h = absurd (omega arith)
  pair_up-even (suc m) (l ∷ []) h = absurd (omega arith)
  pair_up-even (suc m) (l ∷ (r ∷ level)) h =
      let (next, e, size) = pair_up-even m level (omega arith) in
      (hash_internal l r ∷ next, rw e, omega arith)

  pair_up-append :
      (level level' : List Bytes) {next next' : List Bytes}
      → pair_up level ≡ ok next
      → pair_up level' ≡ ok next'
      → pair_up (level ++ level') ≡ ok (next ++ next')
  unfolding pair_up
  pair_up-append [] level' e e' = ground arith
  pair_up-append (l ∷ []) level' e e' = cc
  pair_up-append (l ∷ (r ∷ level)) level' {next} {next'} e e' =
      let (rest, p, q) = >>=-eq-ok (pair_up level) (λ n. ok (hash_internal l r ∷ n)) e in
      rw (pair_up-append level level' p e') (cc)

  pub get_elem?-pair_up :
      (level : List Bytes) (i j : ℕ) {next : List Bytes} {l r : Bytes}
      → i ≡ 2 * j
      → pair_up level ≡ ok next
      → get_elem? level i ≡ some l
      → get_elem? level (suc i) ≡ some r
      → get_elem? next j ≡ some (hash_internal l r)
  unfolding pair_up
  get_elem?-pair_up [] i j d e p q = cc
  get_elem?-pair_up (x ∷ []) i j d e p q = cc
  get_elem?-pair_up (x ∷ (y ∷ level)) zero zero d e p q =
      let (rest, a, b) = >>=-eq-ok (pair_up level) (λ n. ok (hash_internal x y ∷ n)) e in
      ground arith
  get_elem?-pair_up (x ∷ (y ∷ level)) zero (suc j) d e p q = absurd (omega arith)
  get_elem?-pair_up (x ∷ (y ∷ level)) (suc zero) j d e p q = absurd (omega arith)
  get_elem?-pair_up (x ∷ (y ∷ level)) (suc (suc i)) zero d e p q = absurd (omega arith)
  get_elem?-pair_up (x ∷ (y ∷ level)) (suc (suc i)) (suc j) d e p q =
      let (rest, a, b) = >>=-eq-ok (pair_up level) (λ n. ok (hash_internal x y ∷ n)) e in
      ground (arith, get_elem?-pair_up level i j {next = rest} (omega arith) a p q)

  -- `k` rounds of pairing bring the level down to the root.
  pub data Perfect : ℕ → List Bytes → Bytes → Type 0 where
    one : {r : Bytes} → Perfect zero (r ∷ []) r
    up :
        {k : ℕ} {level next : List Bytes} {r : Bytes}
        → pair_up level ≡ ok next
        → length level ≡ 2 ^ suc k
        → Perfect k next r
        → Perfect (suc k) level r

  pub power_pos : (k : ℕ) → 1 ≤ 2 ^ k
  power_pos zero = omega arith
  power_pos (suc k) = omega (arith, pow-suc 2 k, power_pos k)

  pub length-Perfect :
      {k : ℕ} {level : List Bytes} {r : Bytes} → Perfect k level r → length level ≡ 2 ^ k
  length-Perfect one = refl
  length-Perfect (up e h p) = h

  single : (level : List Bytes) → length level ≡ 1 → (r : Bytes) × (level ≡ r ∷ [])
  single [] h = absurd (omega arith)
  single (r ∷ []) h = (r, refl)
  single (r ∷ (x ∷ level)) h = absurd (omega arith)

  pub Perfect-total :
      (k : ℕ) (level : List Bytes) → length level ≡ 2 ^ k → (r : Bytes) × Perfect k level r
  Perfect-total zero level h =
      let (r, e) = single level h in (r, subst (λ t. Perfect zero t r) (sym e) one)
  Perfect-total (suc k) level h =
      let (next, e, size) = pair_up-even (2 ^ k) level (omega (arith, pow-suc 2 k)) in
      let (r, p) = Perfect-total k next size in (r, up e h p)

  -- Two neighbours of one size make a run of twice the size.
  pub Perfect-join :
      {k : ℕ} {xs ys : List Bytes} {a b : Bytes}
      → Perfect k xs a
      → Perfect k ys b
      → Perfect (suc k) (xs ++ ys) (hash_internal a b)
  unfolding pair_up
  Perfect-join one one = up refl refl one
  Perfect-join (up {k = k} {level = xs} e h p) (up {level = ys} e' h' p') =
      up (pair_up-append xs ys e e') (omega (arith, length-append xs ys, pow-suc 2 (suc k)))
        (Perfect-join p p')

  perfect_loop-Perfect :
      {k : ℕ} {level : List Bytes} {r : Bytes} (fuel : ℕ)
      → Perfect k level r
      → length level ≤ fuel
      → perfect_loop fuel level ≡ ok (r ∷ [])
  unfolding perfect_loop
  perfect_loop-Perfect zero one h = refl
  perfect_loop-Perfect (suc fuel) one h = refl
  perfect_loop-Perfect zero (up {k = k} e s p) h = absurd (omega (arith, power_pos (suc k)))
  perfect_loop-Perfect (suc fuel) (up {k = k} e s p) h =
      ground (arith, pow-suc 2 k, power_pos k, length-Perfect p, perfect_loop-Perfect fuel p)

  pub perfect_root-Perfect :
      {k : ℕ} {level : List Bytes} {r : Bytes} → Perfect k level r → perfect_root level ≡ ok r
  unfolding perfect_root
  perfect_root-Perfect {level = level} p = rw (perfect_loop-Perfect (length level) p (omega arith))
