-- ===== src/Json/Decimal.antt =====
-- The reading of the decimal texts that src/json.rs writes: JavaScript's `BigInt` of a text, and the
-- three numbers of an account or a token.
use hiero_streams_rs.Prelude.{
  ℕ, suc, ◌+◌, ◌-◌, ◌*◌, ◌≡◌, refl, ap, inl, inr, Option, none, some, [], ◌∷◌, ◌++◌, ◌==◌,
  if◌then◌else◌, Bool-cases,
}
use hiero_streams_rs.Prelude.Int.{ℤ, pos, negsuc}
use hiero_streams_rs.Text.{Text, show_ℕ, show_ℤ}
use hiero_streams_rs.Transaction.{dotted}
use hiero_streams_rs.Transaction.Calendar.DayOf.{
  before_dot, parse_digits, parse_magnitude, is_digit, negated, digit_is_no_dot, digit_is_no_sign,
  read_back, parse_magnitude-show_ℕ, before_dot-show_ℤ,
}

infixl 5 ◌>>=◌
abbrev pub ◌>>=◌ {ℓ ℓ'} : {A : Type ℓ} {B : Type ℓ'} → Option A → (A → Option B) → Option B
none >>= rest = none
some a >>= rest = rest a

unfoldable pub big_int : Text → Option ℤ
big_int [] = none
big_int (c ∷ cs) =
    if c == b'-'
    then parse_magnitude cs >>= (λ n. some (negated n))
    else parse_magnitude (c ∷ cs) >>= (λ n. some (pos n))

big_int-digits : (xs : Text) {n : ℕ} → parse_magnitude xs ≡ some n → big_int xs ≡ some (pos n)
unfolding big_int parse_magnitude parse_digits
big_int-digits [] h = cc
big_int-digits (c ∷ cs) h = elim (Bool-cases (is_digit c)) [
  | inl t ↦ rw ((digit_is_no_sign c t).0) (ap (λ o. o >>= (λ n. some (pos n))) h)
  | inr f ↦ absurd (cc (rw f at h))
]

pub big_int-show_ℤ : (z : ℤ) → big_int (show_ℤ z) ≡ some z
unfolding big_int show_ℤ
big_int-show_ℤ (pos n) = big_int-digits (show_ℕ n) (parse_magnitude-show_ℕ n)
big_int-show_ℤ (negsuc n) = rw (parse_magnitude-show_ℕ (suc n)) refl

-- What follows the first dot.
unfoldable pub after_dot : Text → Text
after_dot [] = []
after_dot (c ∷ cs) = let more = after_dot cs in if c == b'.' then cs else more

after_dot-digits :
    (acc : ℕ) (xs rest : Text) {n : ℕ}
    → parse_digits acc xs ≡ some n
    → after_dot (xs ++ (b'.' ∷ rest)) ≡ rest
unfolding parse_digits after_dot
after_dot-digits acc [] rest h = refl
after_dot-digits acc (c ∷ cs) rest h = elim (Bool-cases (is_digit c)) [
  | inl t ↦ rw (digit_is_no_dot c t) (after_dot-digits (acc * 10 + (c - 48)) cs rest (rw t at h))
  | inr f ↦ absurd (cc (rw f at h))
]

after_dot-show_ℤ : (z : ℤ) (rest : Text) → after_dot (show_ℤ z ++ (b'.' ∷ rest)) ≡ rest
unfolding show_ℤ after_dot
after_dot-show_ℤ (pos n) rest = after_dot-digits 0 (show_ℕ n) rest (read_back n)
after_dot-show_ℤ (negsuc n) rest = after_dot-digits 0 (show_ℕ (suc n)) rest (read_back (suc n))

-- The numbers of "a.b.c", handed on.
unfoldable pub read_dotted {ℓ} : {A : Type ℓ} → (ℤ → ℤ → ℤ → A) → Text → Option A
read_dotted made t =
    let rest = after_dot t in
    big_int (before_dot t) >>= (λ a.
      big_int (before_dot rest) >>= (λ b. big_int (after_dot rest) >>= (λ c. some (made a b c))))

pub read_dotted-dotted {ℓ} :
    {A : Type ℓ} (made : ℤ → ℤ → ℤ → A) (a b c : ℤ)
    → read_dotted made (dotted a b c) ≡ some (made a b c)
unfolding read_dotted dotted
read_dotted-dotted made a b c =
    rw
      (
        after_dot-show_ℤ a (show_ℤ b ++ (b'.' ∷ show_ℤ c)),
        before_dot-show_ℤ a (show_ℤ b ++ (b'.' ∷ show_ℤ c)),
        after_dot-show_ℤ b (show_ℤ c),
        before_dot-show_ℤ b (show_ℤ c),
        big_int-show_ℤ a,
        big_int-show_ℤ b,
        big_int-show_ℤ c,
      )
      refl
