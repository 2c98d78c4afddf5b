-- ===== src/Result.antt =====
-- The crate's `Error` (src/lib.rs), and the outcome of a call: a value, an `Err`, a Rust panic (an
-- index out of range, a failed `expect`), or a model loop that ran out of fuel, which is no outcome
-- of the program. `Error::Proof` carries a formatted text there; here each text is a constructor
-- with the values that it shows.
use Prim.Native.String.{String}
use hiero_streams_rs.Prelude.{ℕ, ◌≡◌, refl, Option, none, some}
use hiero_streams_rs.Prelude.{Bool, true, false, if◌then◌else◌, List, [], ◌∷◌, ◌++◌, arith}
use hiero_streams_rs.Prelude.Int.{ℤ}

pub data ProofError : Type 0 where
  truncated_varint : ProofError
  varint_exceeds_64_bits : ProofError
  length_overflow : ProofError
  field_exceeds_available_bytes : ProofError
  unsupported_block_wire_type : ℕ → ℕ → ProofError
  unsupported_block_item_wire_type : ℕ → ℕ → ProofError
  multiple_oneof_fields : ProofError
  empty_block_item : ProofError
  signed_block_proof_missing : ProofError
  no_publication_in_block : ProofError
  no_publication_in_genesis : ProofError
  filtered_items_unsupported : ProofError
  unknown_block_item_field : ℕ → ProofError
  block_header_missing : ProofError
  block_footer_missing : ProofError
  bad_hash_length : ℕ → ProofError
  transaction_index_out_of_range : ℕ → ℕ → ProofError
  unrecognized_proof_suffix : ℕ → ProofError
  witness_root_mismatch : ProofError
  not_schnorr_path : ProofError
  bad_schnorr_suffix : ℕ → ProofError
  no_node_contributions : ProofError
  bad_node_key : ℕ → ℕ → ProofError
  node_public_key : String → ProofError
  malformed_fq : String → ProofError
  g1_outside_subgroup : ProofError
  g2_outside_subgroup : ProofError
  bad_hints_vk : ℕ → ProofError
  bad_hints_signature : ℕ → ProofError
  weight_exceeds_128_bits : ProofError
  hash_to_curve_init : String → ProofError
  hash_to_curve : String → ProofError
  no_root_of_unity : ℕ → ProofError
  omega_is_zero : ProofError
  not_wraps_path : ProofError
  bad_wraps_suffix : ℕ → ProofError
  bad_verifier_param : ℕ → ProofError
  malformed : String → String → ProofError
  trailing_bytes : String → ℕ → ProofError
  bad_vector_length : String → ℕ → ProofError
  bad_input_coefficients : ℕ → ℕ → ProofError

pub data Error : Type 0 where
  too_short : Error
  too_large : Error
  unsupported_version : ℤ → Error
  unsupported_signature_version : ℕ → Error
  missing_file_signature : Error
  gzip : String → Error
  decode_error : String → Error
  key : String → Error
  proof : ProofError → Error

pub data Result {ℓ} (A : Type ℓ) : Type ℓ where
  ok : A → Result A
  err : Error → Result A
  panic : Result A
  stuck : Result A

-- The `?` operator, with the rest of the body.
infixl 5 ◌>>=◌
abbrev pub ◌>>=◌ {ℓ κ} : {T : Type ℓ} {U : Type κ} → Result T → (T → Result U) → Result U
stuck >>= rest = stuck
panic >>= rest = panic
err e >>= rest = err e
ok x >>= rest = rest x

-- `ok_or`, and `expect` or an index, which panics.
abbrev pub ok_or {ℓ} : {A : Type ℓ} → Option A → Error → Result A
ok_or none e = err e
ok_or (some a) e = ok a

abbrev pub expect {ℓ} : {A : Type ℓ} → Option A → Result A
expect none = panic
expect (some a) = ok a

-- `iter().map(f).collect()` for a body that may panic.
unfoldable pub map_result {ℓ κ} :
    {A : Type ℓ} {B : Type κ} → (A → Result B) → List A → Result (List B)
map_result f [] = ok []
map_result f (x ∷ xs) = do y ← f x; ys ← map_result f xs; ok (y ∷ ys)

-- The outcome is one that the program has, and no panic.
abbrev pub Settles {ℓ} : {A : Type ℓ} → Result A → Type 0
Settles (ok a) = Unit
Settles (err e) = Unit
Settles panic = ⊥
Settles stuck = ⊥

-- Where a body with a `?` succeeds, so did both of its parts.
pub >>=-eq-ok {ℓ κ} :
    {T : Type ℓ} {U : Type κ} (first : Result T) (rest : T → Result U) {u : U}
    → (first >>= rest) ≡ ok u
    → (x : T) × (first ≡ ok x) × (rest x ≡ ok u)
>>=-eq-ok stuck rest e = cc
>>=-eq-ok panic rest e = cc
>>=-eq-ok (err t) rest e = cc
>>=-eq-ok (ok x) rest e = (x, refl, e)

pub Settles-bind {ℓ κ} :
    {A : Type ℓ} {B : Type κ} (m : Result A) (f : A → Result B)
    → Settles m
    → ((a : A) → m ≡ ok a → Settles (f a))
    → Settles (m >>= f)
Settles-bind (ok a) f h k = k a refl
Settles-bind (err e) f h k = tt
Settles-bind panic f h k = h
Settles-bind stuck f h k = h

pub Settles-if {ℓ} :
    {A : Type ℓ} (b : Bool) (m n : Result A)
    → (b ≡ true → Settles m)
    → (b ≡ false → Settles n)
    → Settles (if b then m else n)
Settles-if true m n h k = h refl
Settles-if false m n h k = k refl

pub Settles-ok_or {ℓ} : {A : Type ℓ} (o : Option A) (e : Error) → Settles (ok_or o e)
Settles-ok_or none e = tt
Settles-ok_or (some a) e = tt

pub ok_injective {ℓ} : {A : Type ℓ} {a b : A} → ok a ≡ ok b → a ≡ b
ok_injective h = cc

-- Behind a guard that returns an `Err`, where the whole succeeds.
pub else_part {ℓ} :
    {A : Type ℓ} (b : Bool) (e : Error) (m : Result A) {v : A}
    → (if b then err e else m) ≡ ok v
    → (b ≡ false) × (m ≡ ok v)
else_part true e m h = cc
else_part false e m h = (refl, h)

pub ok_or-ok {ℓ} : {A : Type ℓ} (o : Option A) (e : Error) {a : A} → ok_or o e ≡ ok a → o ≡ some a
ok_or-ok none e h = cc
ok_or-ok (some x) e h = cc

pub expect-ok {ℓ} : {A : Type ℓ} (o : Option A) {a : A} → expect o ≡ ok a → o ≡ some a
expect-ok none h = cc
expect-ok (some x) h = cc

pub map_result-cons {ℓ κ} :
    {A : Type ℓ} {B : Type κ} (f : A → Result B) (x : A) (xs : List A) {y : B} {ys : List B}
    → f x ≡ ok y
    → map_result f xs ≡ ok ys
    → map_result f (x ∷ xs) ≡ ok (y ∷ ys)
unfolding map_result
map_result-cons f x xs e h = rw (e, h)

pub map_result-snoc {ℓ κ} :
    {A : Type ℓ} {B : Type κ} (f : A → Result B) (xs : List A) (x : A) {ys : List B} {y : B}
    → map_result f xs ≡ ok ys
    → f x ≡ ok y
    → map_result f (xs ++ (x ∷ [])) ≡ ok (ys ++ (y ∷ []))
unfolding map_result
map_result-snoc f [] x {y = y} e h = ground (arith, h)
map_result-snoc f (a ∷ xs) x {ys} {y} e h =
    let (b, p, q) = >>=-eq-ok (f a) _ e in
    let (bs, p', q') = >>=-eq-ok (map_result f xs) _ q in
    ground (arith, map_result-snoc f xs x {ys = bs} {y = y} p' h)
