-- ===== src/Prelude/Bits.antt =====
-- `|` and `&` on numbers, for the shifts and masks of the byte readers.
use Prim.Native.Nat.{
  ℕ, zero, suc, ◌+◌, ◌*◌, ◌/◌, ◌%◌, ◌^◌, ◌≤◌, ◌<◌, max, bit_and, bit_or, digits, bit_or-bitwise,
}
use mathlib.Core.Path.{◌≡◌, refl, ap}
use mathlib.Core.Logic.{inl, inr}
use mathlib.Core.Bool.{Bool, true, ◌&&◌}
use native.Mathlib.Omega.{arith}
use native.Mathlib.Nat.{pow-suc}
use hiero_streams_rs.Prelude.Tests.{◌==◌, ==_iff, Bool-cases}

-- The law for the lowest digit of `|`, from the definition that the native operation stands for.
abbrev or_digits : ℕ → ℕ → ℕ → ℕ
or_digits n a b = digits (λ b. b) max n a b

-- Any fuel from the first number on gives one result.
or_digits_fuel : (k l x y : ℕ) → x ≤ k → x ≤ l → or_digits k x y ≡ or_digits l x y
or_digits_fuel zero zero x y hk hl = refl
or_digits_fuel (suc k) zero zero y hk hl = refl
or_digits_fuel zero (suc l) zero y hk hl = refl
or_digits_fuel (suc k) zero (suc x) y hk hl = absurd (omega arith)
or_digits_fuel zero (suc l) (suc x) y hk hl = absurd (omega arith)
or_digits_fuel (suc k) (suc l) zero y hk hl = refl
or_digits_fuel (suc k) (suc l) (suc x) y hk hl =
    let halved = or_digits_fuel k l (suc x / 2) (y / 2) (omega arith) (omega arith) in
    omega (arith, halved)

pub zero-bit_or : (b : ℕ) → bit_or 0 b ≡ b
zero-bit_or b = bit_or-bitwise 0 b

bit_or_step : (a b : ℕ) → bit_or a b ≡ bit_or (a / 2) (b / 2) * 2 + max (a % 2) (b % 2)
bit_or_step zero b = omega (arith, zero-bit_or b, zero-bit_or (b / 2))
bit_or_step (suc a) b = omega (
  arith,
  bit_or-bitwise (suc a) b,
  bit_or-bitwise (suc a / 2) (b / 2),
  or_digits_fuel a (suc a / 2) (suc a / 2) (b / 2) (omega arith) (omega arith),
)

-- `v | g << s` is a sum where `v` has no digit from `s` on.
pub bit_or-shifted : (s v g : ℕ) → v < 2 ^ s → bit_or v (g * 2 ^ s) ≡ v + g * 2 ^ s
bit_or-shifted zero v g h = let e : v ≡ 0 = omega arith in rw e (omega (arith, zero-bit_or (g * 1)))
bit_or-shifted (suc s) v g h =
    let twice : g * 2 ^ suc s ≡ g * 2 ^ s * 2 =
      omega (arith, ap (λ (t : ℕ). g * t) (pow-suc 2 s)) in
    let half : g * 2 ^ s * 2 / 2 ≡ g * 2 ^ s = omega arith in
    let step = bit_or_step v (g * 2 ^ s * 2) in
    rw twice
      (omega (arith, rw half at step, bit_or-shifted s (v / 2) g (omega (arith, pow-suc 2 s))))

-- A Boolean test of every number below a bound.
unfoldable pub all_below : (ℕ → Bool) → ℕ → Bool
all_below f zero = true
all_below f (suc n) = f n && all_below f n

pub all_below-lt : (f : ℕ → Bool) (n i : ℕ) → all_below f n ≡ true → i < n → f i ≡ true
unfolding all_below
all_below-lt f zero i h l = absurd (omega arith)
all_below-lt f (suc n) i h l = elim (Bool-cases (i == n)) [
  | inl same ↦ let e : i ≡ n = ground arith in rw e (ground arith)
  | inr other ↦ all_below-lt f n i (ground arith) (ground arith)
]

low_table : all_below (λ x. bit_and x 0x7f == x % 128) 256 ≡ true
unfolding all_below
low_table = refl

top_table : all_below (λ x. bit_and x 0x80 == x / 128 * 128) 256 ≡ true
unfolding all_below
top_table = refl

-- Masks on one byte as arithmetic, from a table of 256 entries.
pub low_bits : (x : ℕ) → x < 256 → bit_and x 0x7f ≡ x % 128
low_bits x h = (==_iff _ _).0 (all_below-lt _ 256 x low_table h)

pub top_bit : (x : ℕ) → x < 256 → bit_and x 0x80 ≡ x / 128 * 128
top_bit x h = (==_iff _ _).0 (all_below-lt _ 256 x top_table h)

-- `|` of two words is a word.
pub bit_or-lt : (s a b : ℕ) → a < 2 ^ s → b < 2 ^ s → bit_or a b < 2 ^ s
bit_or-lt zero a b h k = let e : a ≡ 0 = omega arith in rw e (omega (arith, zero-bit_or b))
bit_or-lt (suc s) a b h k = omega (
  arith,
  pow-suc 2 s,
  bit_or_step a b,
  bit_or-lt s (a / 2) (b / 2) (omega (arith, pow-suc 2 s)) (omega (arith, pow-suc 2 s)),
)
