-- ===== src/Text.antt =====
-- Formatted text as the list of its code points, and the decimal forms that `format!` writes.
use Prim.Native.Char.{code}
use Prim.Native.Nat.{compare, Ordering}
use Prim.Native.String.{String}
use hiero_streams_rs.Prelude.{
  ℕ, zero, suc, ◌+◌, ◌-◌, ◌/◌, ◌%◌, Bool, true, false, List, [], ◌∷◌, ◌++◌, ltb, if◌then◌else◌,
  length, replicate,
}
use hiero_streams_rs.Prelude.Int.{ℤ, pos, negsuc}

abbrev pub Text : Type 0
Text = List ℕ

abbrev pub codes : String → Text
codes String.[] = []
codes (String.◌∷◌ c s) = code c ∷ codes s

-- The decimal digits of `n`, the highest first; `n` rounds are enough.
unfoldable pub decimal_digits : ℕ → ℕ → Text
decimal_digits zero n = (48 + n % 10) ∷ []
decimal_digits (suc fuel) n =
    let more = decimal_digits fuel (n / 10) in
    if ltb n 10 then (48 + n) ∷ [] else more ++ ((48 + n % 10) ∷ [])

-- `{}` of an unsigned integer.
unfoldable pub show_ℕ : ℕ → Text
show_ℕ n = decimal_digits n n

-- `{}` of a signed integer.
unfoldable pub show_ℤ : ℤ → Text
show_ℤ (pos n) = show_ℕ n
show_ℤ (negsuc n) = b'-' ∷ show_ℕ (suc n)

pub pad_zeros : ℕ → Text → Text
pad_zeros width digits = replicate (width - length digits) 48 ++ digits

-- `{:0width}`: the sign counts in the width and stands before the zeros.
pub show_padded : ℕ → ℤ → Text
show_padded width (pos n) = pad_zeros width (show_ℕ n)
show_padded width (negsuc n) = b'-' ∷ pad_zeros (width - 1) (show_ℕ (suc n))

-- The order of strings.
unfoldable pub text_leb : Text → Text → Bool
text_leb [] u = true
text_leb (a ∷ t) [] = false
text_leb (a ∷ t) (b ∷ u) = elim (compare a b) [
  | Ordering.lt ↦ true
  | Ordering.eq ↦ text_leb t u
  | Ordering.gt ↦ false
]
