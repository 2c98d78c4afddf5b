-- ===== src/Etl/Workers.antt =====
-- The parse workers of src/cli/etl/record.rs and src/cli/etl/block.rs: contiguous chunks of the
-- files, one thread each, joined in the order of the chunks.
use native.Mathlib.Nat.{mod-lt, div-add-mod}
use hiero_streams_rs.Prelude.{
  ◌*◌, ◌%◌, ◌<◌, inl, inr, Bool-cases, ◌==◌, ==_iff, ℕ, zero, suc, ◌+◌, ◌/◌, ◌≤◌, ◌≡◌, refl, sym,
  ap, ◌∙◌, List, [], ◌∷◌, ◌++◌, map, arith, take, drop, length, take-append-drop, length-drop,
}
use hiero_streams_rs.Etl.Types.{
  Job, done, failed, panicked, unfinished, ◌>>=◌, >>=-eq-done, done_injective,
}

-- `iter().map(f).collect::<Result<Vec<_>, _>>()` within one worker.
unfoldable pub map_job : {A B : Type 0} → (A → Job B) → List A → Job (List B)
map_job f [] = done []
map_job f (x ∷ xs) = do y ← f x; ys ← map_job f xs; done (y ∷ ys)

-- `chunks(size)`; a round takes an element at least.
unfoldable pub chunks : {A : Type 0} → ℕ → ℕ → List A → List (List A)
chunks zero size xs = []
chunks (suc fuel) size [] = []
chunks (suc fuel) size (x ∷ xs) = take size (x ∷ xs) ∷ chunks fuel size (drop size (x ∷ xs))

-- The first error in the order of the chunks; a worker that panicked makes the scope panic, whether
-- or not it was still to be joined.
unfoldable pub join_two : {A : Type 0} → Job A → Job (List A) → Job (List A)
join_two unfinished js = unfinished
join_two panicked js = panicked
join_two (done x) (done xs) = done (x ∷ xs)
join_two (done x) (failed e) = failed e
join_two (done x) panicked = panicked
join_two (done x) unfinished = unfinished
join_two (failed e) (done xs) = failed e
join_two (failed e) (failed e') = failed e
join_two (failed e) panicked = panicked
join_two (failed e) unfinished = unfinished

unfoldable pub join_all : {A : Type 0} → List (Job A) → Job (List A)
join_all [] = done []
join_all (j ∷ js) = join_two j (join_all js)

unfoldable pub flatten : {A : Type 0} → List (List A) → List A
flatten [] = []
flatten (xs ∷ rest) = xs ++ flatten rest

-- `div_ceil(threads)`, which panics at 0.
unfoldable pub chunk_size : ℕ → ℕ → Job ℕ
chunk_size n zero = panicked
chunk_size n (suc threads) = done ((n + threads) / suc threads)

unfoldable pub parse_all : {A B : Type 0} → ℕ → (A → Job B) → List A → Job (List B)
parse_all threads f xs = do
  size ← chunk_size (length xs) threads
  parsed ← join_all (map (map_job f) (chunks (length xs) size xs))
  done (flatten parsed)

join_two-done :
    {A : Type 0} (j : Job A) (js : Job (List A)) {ys : List A}
    → join_two j js ≡ done ys
    → (x : A) × (xs : List A) × (j ≡ done x) × (js ≡ done xs) × (ys ≡ x ∷ xs)
unfolding join_two
join_two-done unfinished js h = absurd (cc h)
join_two-done panicked js h = absurd (cc h)
join_two-done (done x) (done xs) h = (x, xs, refl, refl, sym (done_injective h))
join_two-done (done x) (failed e) h = absurd (cc h)
join_two-done (done x) panicked h = absurd (cc h)
join_two-done (done x) unfinished h = absurd (cc h)
join_two-done (failed e) (done xs) h = absurd (cc h)
join_two-done (failed e) (failed e') h = absurd (cc h)
join_two-done (failed e) panicked h = absurd (cc h)
join_two-done (failed e) unfinished h = absurd (cc h)

pub map_job-append :
    {A B : Type 0} (f : A → Job B) (xs ys : List A) {us vs : List B}
    → map_job f xs ≡ done us
    → map_job f ys ≡ done vs
    → map_job f (xs ++ ys) ≡ done (us ++ vs)
unfolding map_job
map_job-append f [] ys {us} {vs} h k = k ∙ ap (λ t. done (t ++ vs)) (done_injective h)
map_job-append f (x ∷ xs) ys {us} {vs} h k =
    let (u, e, h₁) = >>=-eq-done (f x) _ h in
    let (us', e', h₂) = >>=-eq-done (map_job f xs) _ h₁ in
    rw (e, map_job-append f xs ys {us = us'} {vs = vs} e' k)
      (ap (λ t. done (t ++ vs)) (done_injective h₂))

join_all-map_job :
    {A B : Type 0} (f : A → Job B) (fuel size : ℕ) (xs : List A) {yss : List (List B)}
    → length xs ≤ fuel
    → 1 ≤ size
    → join_all (map (map_job f) (chunks fuel size xs)) ≡ done yss
    → map_job f xs ≡ done (flatten yss)
unfolding join_all chunks flatten map_job
join_all-map_job f zero size [] {yss} h k e = ap (λ t. done (flatten t)) (done_injective e)
join_all-map_job f zero size (x ∷ xs) h k e = absurd (omega arith)
join_all-map_job f (suc fuel) size [] h k e = ap (λ t. done (flatten t)) (done_injective e)
join_all-map_job f (suc fuel) size (x ∷ xs) {yss} h k e =
    let (ys, rest, a, b, c) = join_two-done (map_job f (take size (x ∷ xs))) _ e in
    let shorter : length (drop size (x ∷ xs)) ≤ fuel =
      omega (arith, h, k, length-drop size (x ∷ xs)) in
    let after = join_all-map_job f fuel size (drop size (x ∷ xs)) shorter k b in
    let both = map_job-append f (take size (x ∷ xs)) (drop size (x ∷ xs)) a after in
    ap (map_job f) (sym (take-append-drop size (x ∷ xs)))
    ∙ both
    ∙ ap (λ t. done (flatten t)) (sym c)

ceil_positive : (n threads : ℕ) → 1 ≤ (suc n + threads) / suc threads
ceil_positive n threads = elim (Bool-cases ((suc n + threads) / suc threads == 0)) [
  | inr positive ↦ ground (arith, positive)
  | inl none_fit ↦
      let e : (suc n + threads) / suc threads ≡ 0 = (==_iff _ _).0 none_fit in
      let left : (suc n + threads) % suc threads < suc threads =
        mod-lt (suc n + threads) (omega arith) in
      absurd (
        omega (
          arith,
          left,
          ap (λ (t : ℕ). suc threads * t) e,
          div-add-mod (suc n + threads) (suc threads),
        ))
]

-- Where the workers succeed, they parsed what one loop over the files would have parsed, in its order.
pub parse_all-map_job :
    {A B : Type 0} (threads : ℕ) (f : A → Job B) (xs : List A) (ys : List B)
    → parse_all threads f xs ≡ done ys
    → map_job f xs ≡ done ys
unfolding parse_all chunk_size map_job chunks join_all flatten
parse_all-map_job zero f xs ys h = absurd (cc h)
parse_all-map_job (suc threads) f [] ys h = h
parse_all-map_job (suc threads) f (x ∷ xs) ys h =
    let size = (length (x ∷ xs) + threads) / suc threads in
    let (yss, e, k) =
      >>=-eq-done (join_all (map (map_job f) (chunks (length (x ∷ xs)) size (x ∷ xs)))) _ h in
    join_all-map_job f (length (x ∷ xs)) size (x ∷ xs) (omega arith)
      (ceil_positive (length xs) threads) e
    ∙ ap done (done_injective k)
