-- ===== src/Transaction/Calendar/DayOf.antt =====
-- `day_of` of src/transaction.rs: the UTC day of a timestamp's text "seconds.nanos", with the
-- `str::parse::<i64>` of the standard library.
use hiero_streams_rs.Prelude.{
  ℕ, zero, suc, ◌+◌, ◌-◌, ◌*◌, ◌/◌, ◌%◌, ◌^◌, ◌≤◌, ◌<◌, ◌≡◌, refl, ap, ◌∙◌, inl, inr, Bool, true,
  false, ◌&&◌, Option, none, some, [], ◌∷◌, ◌++◌, arith, ltb, leb, ◌==◌, if◌then◌else◌, Bool-cases,
}
use hiero_streams_rs.Prelude.Int.{ℤ, pos, negsuc}
use hiero_streams_rs.Text.{Text, show_ℕ, show_ℤ, show_padded, decimal_digits}
use hiero_streams_rs.Hapi.{Timestamp}
use hiero_streams_rs.Transaction.{consensus_string, seconds_of}
use hiero_streams_rs.Transaction.Calendar.{day_from_seconds}

-- `split('.').next()`
unfoldable pub before_dot : Text → Text
before_dot [] = []
before_dot (c ∷ cs) = if c == b'.' then [] else c ∷ before_dot cs

abbrev pub is_digit : ℕ → Bool
is_digit c = leb 48 c && leb c 57

unfoldable pub parse_digits : ℕ → Text → Option ℕ
parse_digits acc [] = some acc
parse_digits acc (c ∷ cs) =
    let rest = parse_digits (acc * 10 + (c - 48)) cs in if is_digit c then rest else none

-- An empty text of digits is an error.
unfoldable pub parse_magnitude : Text → Option ℕ
parse_magnitude [] = none
parse_magnitude (c ∷ cs) = parse_digits 0 (c ∷ cs)

unfoldable pub positive : Option ℕ → Option ℤ
positive none = none
positive (some n) = if ltb n (2 ^ 63) then some (pos n) else none

abbrev pub negated : ℕ → ℤ
negated zero = pos 0
negated (suc n) = negsuc n

unfoldable pub negative : Option ℕ → Option ℤ
negative none = none
negative (some n) = if leb n (2 ^ 63) then some (negated n) else none

-- An optional sign, then digits, of a value that an `i64` holds.
unfoldable pub parse_i64 : Text → Option ℤ
parse_i64 [] = none
parse_i64 (c ∷ cs) =
    if c == b'-'
    then negative (parse_magnitude cs)
    else if c == b'+'
    then positive (parse_magnitude cs)
    else positive (parse_magnitude (c ∷ cs))

-- The range of an `i64`.
unfoldable pub InI64 : ℤ → Type 0
InI64 (pos n) = n < 2 ^ 63
InI64 (negsuc n) = n < 2 ^ 63

abbrev pub seconds_or_zero : Option ℤ → ℤ
seconds_or_zero none = pos 0
seconds_or_zero (some s) = s

unfoldable pub day_of : Text → Text
day_of timestamp = day_from_seconds (seconds_or_zero (parse_i64 (before_dot timestamp)))

parse_digits-append :
    (acc : ℕ) (xs ys : Text) {n : ℕ}
    → parse_digits acc xs ≡ some n
    → parse_digits acc (xs ++ ys) ≡ parse_digits n ys
unfolding parse_digits
parse_digits-append acc [] ys h = ap (λ a. parse_digits a ys) cc
parse_digits-append acc (c ∷ cs) ys h = elim (Bool-cases (is_digit c)) [
  | inl t ↦ rw t (parse_digits-append (acc * 10 + (c - 48)) cs ys (rw t at h))
  | inr f ↦ absurd (cc (rw f at h))
]

digit_IsDigit : (d : ℕ) → d < 10 → is_digit (48 + d) ≡ true
digit_IsDigit d h = ground arith

parse_digits-one : (acc d : ℕ) → d < 10 → parse_digits acc ((48 + d) ∷ []) ≡ some (acc * 10 + d)
unfolding parse_digits
parse_digits-one acc d h = rw (digit_IsDigit d h) (ap some (omega arith))

parse_digits-decimal_digits :
    (fuel n : ℕ) → n ≤ fuel → parse_digits 0 (decimal_digits fuel n) ≡ some n
unfolding decimal_digits
parse_digits-decimal_digits zero n h =
    parse_digits-one 0 (n % 10) (omega arith) ∙ ap some (omega arith)
parse_digits-decimal_digits (suc fuel) n h = elim (Bool-cases (ltb n 10)) [
  | inl t ↦ rw t (parse_digits-one 0 n (ground arith) ∙ ap some (omega arith))
  | inr f ↦
      let highest = parse_digits-decimal_digits fuel (n / 10) (ground arith) in
      rw f (
        parse_digits-append 0 (decimal_digits fuel (n / 10)) ((48 + n % 10) ∷ []) highest
        ∙ (parse_digits-one (n / 10) (n % 10) (omega arith) ∙ ap some (omega arith)))
]

pub digit_is_no_dot : (c : ℕ) → is_digit c ≡ true → (c == b'.') ≡ false
digit_is_no_dot c h = ground arith

-- Digits hold no dot.
pub before_dot-digits :
    (acc : ℕ) (xs rest : Text) {n : ℕ}
    → parse_digits acc xs ≡ some n
    → before_dot (xs ++ (b'.' ∷ rest)) ≡ xs
unfolding parse_digits before_dot
before_dot-digits acc [] rest h = refl
before_dot-digits acc (c ∷ cs) rest h = elim (Bool-cases (is_digit c)) [
  | inl t ↦
      rw (digit_is_no_dot c t)
        (ap (λ ds. c ∷ ds) (before_dot-digits (acc * 10 + (c - 48)) cs rest (rw t at h)))
  | inr f ↦ absurd (cc (rw f at h))
]

nonempty : (xs : Text) (d : ℕ) → parse_magnitude (xs ++ (d ∷ [])) ≡ parse_digits 0 (xs ++ (d ∷ []))
unfolding parse_magnitude
nonempty [] d = refl
nonempty (x ∷ xs) d = refl

parse_magnitude-decimal_digits :
    (fuel n : ℕ) → parse_magnitude (decimal_digits fuel n) ≡ parse_digits 0 (decimal_digits fuel n)
unfolding parse_magnitude decimal_digits
parse_magnitude-decimal_digits zero n = refl
parse_magnitude-decimal_digits (suc fuel) n = elim (Bool-cases (ltb n 10)) [
  | inl t ↦ rw t refl
  | inr f ↦ rw f (nonempty (decimal_digits fuel (n / 10)) (48 + n % 10))
]

pub read_back : (n : ℕ) → parse_digits 0 (show_ℕ n) ≡ some n
unfolding show_ℕ
read_back n = parse_digits-decimal_digits n n (omega arith)

pub parse_magnitude-show_ℕ : (n : ℕ) → parse_magnitude (show_ℕ n) ≡ some n
unfolding show_ℕ
parse_magnitude-show_ℕ n = parse_magnitude-decimal_digits n n ∙ read_back n

pub digit_is_no_sign : (c : ℕ) → is_digit c ≡ true → ((c == b'-') ≡ false) × ((c == b'+') ≡ false)
digit_is_no_sign c h = (ground arith, ground arith)

-- A text of digits has no sign.
parse_i64-digits :
    (xs : Text) {n : ℕ} → parse_magnitude xs ≡ some n → parse_i64 xs ≡ positive (some n)
unfolding parse_i64 parse_magnitude parse_digits
parse_i64-digits [] h = cc
parse_i64-digits (c ∷ cs) h = elim (Bool-cases (is_digit c)) [
  | inl t ↦ let (a, b) = digit_is_no_sign c t in rw (a, b) (ap positive h)
  | inr f ↦ absurd (cc (rw f at h))
]

-- `parse` reads back every number that an `i64` holds.
pub parse_i64-show_ℤ : (s : ℤ) → InI64 s → parse_i64 (show_ℤ s) ≡ some s
unfolding show_ℤ positive negative parse_i64 InI64
parse_i64-show_ℤ (pos n) h = parse_i64-digits (show_ℕ n) (parse_magnitude-show_ℕ n) ∙ ground arith
parse_i64-show_ℤ (negsuc n) h = rw (parse_magnitude-show_ℕ (suc n)) (ground arith)

pub before_dot-show_ℤ : (s : ℤ) (rest : Text) → before_dot (show_ℤ s ++ (b'.' ∷ rest)) ≡ show_ℤ s
unfolding show_ℤ before_dot
before_dot-show_ℤ (pos n) rest = before_dot-digits 0 (show_ℕ n) rest (read_back n)
before_dot-show_ℤ (negsuc n) rest =
    ap (λ ds. b'-' ∷ ds) (before_dot-digits 0 (show_ℕ (suc n)) rest (read_back (suc n)))

-- The day of a timestamp's text is the day of its seconds, where these fit in an `i64`, so that
-- `day_of` and the direct call of `day_from_seconds` in both parsers agree.
pub day_of-consensus_string :
    (t : Option Timestamp)
    → InI64 (seconds_of t)
    → day_of (consensus_string t) ≡ day_from_seconds (seconds_of t)
unfolding day_of consensus_string seconds_of
day_of-consensus_string none h =
    rw (before_dot-show_ℤ (pos 0) (show_padded 9 (pos 0)), parse_i64-show_ℤ (pos 0) h) refl
day_of-consensus_string (some t) h =
    rw (before_dot-show_ℤ t.seconds (show_padded 9 t.nanos), parse_i64-show_ℤ t.seconds h) refl
