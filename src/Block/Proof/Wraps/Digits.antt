-- ===== src/Block/Proof/Wraps/Digits.antt =====
-- The limbs of src/block/proof/wraps.rs are the digits of the coordinate to the base 2 ^ 55.
use Prim.Native.Nat.{bit_or}
use native.Mathlib.Nat.{pow-suc, div-div-eq-div-mul, div-add-mod, zero-div, mod-lt}
use hiero_streams_rs.Prelude.{
  ℕ, zero, suc, ◌+◌, ◌*◌, ◌/◌, ◌%◌, ◌^◌, ◌<◌, ◌≡◌, refl, sym, ap, ◌∙◌, inl, inr, false, List, [],
  ◌∷◌, arith, ◌==◌, ==_iff, Bool-cases,
}
use hiero_streams_rs.Prelude.Bits.{bit_or-shifted}
use hiero_streams_rs.Prelude.Encode.{le_bytes}
use hiero_streams_rs.Block.Proof.Wraps.Limbs.{
  byte_at, bit_at, limb_bits, limb, limbs_of, bits_per_limb,
}

byte_at-le_bytes : (n v i : ℕ) → v < 256 ^ n → byte_at (le_bytes n v) i ≡ v / 256 ^ i % 256
unfolding byte_at le_bytes
byte_at-le_bytes zero v i h =
    let e : v ≡ 0 = omega arith in rw e (ap (λ (t : ℕ). t % 256) (sym (zero-div (256 ^ i))))
byte_at-le_bytes (suc n) v zero h = omega arith
byte_at-le_bytes (suc n) v (suc i) h =
    byte_at-le_bytes n (v / 256) i (omega (arith, pow-suc 256 n))
    ∙ ap (λ (t : ℕ). t % 256)
        (div-div-eq-div-mul v 256 (256 ^ i) ∙ ap (λ (t : ℕ). v / t) (omega (arith, pow-suc 256 i)))

pow_add : (a b : ℕ) → 2 ^ (a + b) ≡ 2 ^ a * 2 ^ b
pow_add zero b = let zero_left : 0 + b ≡ b = omega arith in rw zero_left (omega arith)
pow_add (suc a) b =
    let moved : suc a + b ≡ suc (a + b) = omega arith in
    rw moved
      (omega (arith, pow-suc 2 (a + b), pow_add a b, ap (λ (t : ℕ). t * 2 ^ b) (pow-suc 2 a)))

pow_256 : (q : ℕ) → 256 ^ q ≡ 2 ^ (8 * q)
pow_256 zero = refl
pow_256 (suc q) =
    let next : 8 * suc q ≡ 8 * q + 8 = omega arith in
    rw next (omega (arith, pow-suc 256 q, pow_256 q, pow_add (8 * q) 8))

low_bit : (x r : ℕ) → r < 8 → x % 256 / 2 ^ r % 2 ≡ x / 2 ^ r % 2
low_bit x zero h = omega arith
low_bit x (suc zero) h = omega arith
low_bit x (suc (suc zero)) h = omega arith
low_bit x (suc (suc (suc zero))) h = omega arith
low_bit x (suc (suc (suc (suc zero)))) h = omega arith
low_bit x (suc (suc (suc (suc (suc zero))))) h = omega arith
low_bit x (suc (suc (suc (suc (suc (suc zero)))))) h = omega arith
low_bit x (suc (suc (suc (suc (suc (suc (suc zero))))))) h = omega arith
low_bit x (suc (suc (suc (suc (suc (suc (suc (suc r)))))))) h = absurd (omega arith)

bit_at-le_bytes : (n v k : ℕ) → v < 256 ^ n → bit_at (le_bytes n v) k ≡ v / 2 ^ k % 2
unfolding bit_at
bit_at-le_bytes n v k h =
    let q = k / 8 in
    let r = k % 8 in
    let split : 8 * q + r ≡ k = omega arith in
    let joined : 256 ^ q * 2 ^ r ≡ 2 ^ k =
      ap (λ (t : ℕ). t * 2 ^ r) (pow_256 q)
      ∙ sym (pow_add (8 * q) r)
      ∙ ap (λ (t : ℕ). 2 ^ t) split in
    ap (λ (t : ℕ). t / 2 ^ r % 2) (byte_at-le_bytes n v q h)
    ∙ low_bit (v / 256 ^ q) r (omega arith)
    ∙ ap (λ (t : ℕ). t % 2) (div-div-eq-div-mul v (256 ^ q) (2 ^ r) ∙ ap (λ (t : ℕ). v / t) joined)

or_one : (value bit : ℕ) → value < 2 ^ bit → bit_or value (2 ^ bit) ≡ value + 2 ^ bit
or_one value bit h =
    let one_times : 1 * 2 ^ bit ≡ 2 ^ bit = omega arith in
    rw one_times at (bit_or-shifted bit value 1 h)

not_one : (b : ℕ) → (b % 2 == 1) ≡ false → b % 2 ≡ 0
not_one b h = ground arith

mod_twice : (w m : ℕ) → 0 < m → w % (m * 2) ≡ w % m + m * (w / m % 2)
mod_twice w m h =
    let q = w / m in
    let halves : m * q ≡ m * (q / 2) * 2 + m * (q % 2) =
      ap (λ (t : ℕ). m * t) (sym (div-add-mod q 2)) ∙ omega arith in
    let whole = div-add-mod w m in
    let outer = div-add-mod w (m * 2) in
    let quotient : w / (m * 2) ≡ q / 2 = sym (div-div-eq-div-mul w m 2) in
    let moved : m * 2 * (w / (m * 2)) ≡ m * 2 * (q / 2) = ap (λ (t : ℕ). m * 2 * t) quotient in
    omega (arith, halves, whole, outer, moved)

power_positive : (n : ℕ) → 0 < 2 ^ n
power_positive zero = omega arith
power_positive (suc n) = omega (arith, pow-suc 2 n, power_positive n)

limb_bits-digits :
    (n v start count bit value : ℕ)
    → v < 256 ^ n
    → value ≡ v / 2 ^ start % 2 ^ bit
    → limb_bits (le_bytes n v) start count bit value ≡ v / 2 ^ start % 2 ^ (bit + count)
unfolding limb_bits
limb_bits-digits n v start zero bit value h e = let same : bit + 0 ≡ bit = omega arith in rw same e
limb_bits-digits n v start (suc count) bit value h e =
    let next : suc bit + count ≡ bit + suc count = omega arith in
    let w = v / 2 ^ start in
    let here : bit_at (le_bytes n v) (start + bit) ≡ w / 2 ^ bit % 2 =
      bit_at-le_bytes n v (start + bit) h
      ∙ ap (λ (t : ℕ). v / t % 2) (pow_add start bit)
      ∙ ap (λ (t : ℕ). t % 2) (sym (div-div-eq-div-mul v (2 ^ start) (2 ^ bit))) in
    let small : value < 2 ^ bit = rw e (mod-lt w (power_positive bit)) in
    let grown : w % 2 ^ suc bit ≡ value + 2 ^ bit * (w / 2 ^ bit % 2) =
      ap (λ (t : ℕ). w % t) (pow-suc 2 bit)
      ∙ mod_twice w (2 ^ bit) (power_positive bit)
      ∙ ap (λ (t : ℕ). t + 2 ^ bit * (w / 2 ^ bit % 2)) (sym e) in
    let whole = λ (value' : ℕ) (e' : value' ≡ w % 2 ^ suc bit).
      limb_bits-digits n v start count (suc bit) value' h e' ∙ ap (λ (t : ℕ). w % 2 ^ t) next in
    elim (Bool-cases (bit_at (le_bytes n v) (start + bit) == 1)) [
      | inl set ↦
          let one : w / 2 ^ bit % 2 ≡ 1 = sym here ∙ (==_iff _ _).0 set in
          rw set (
            whole (bit_or value (2 ^ bit)) (
              or_one value bit small
              ∙ sym (grown ∙ ap (λ (t : ℕ). value + 2 ^ bit * t) one ∙ omega arith)))
      | inr unset ↦
          let zero_bit : w / 2 ^ bit % 2 ≡ 0 = not_one _ (rw here at unset) in
          rw unset
            (whole value (sym (grown ∙ ap (λ (t : ℕ). value + 2 ^ bit * t) zero_bit ∙ omega arith)))
    ]

-- Each of the five limbs of a number below 2 ^ 256 is a digit of it to the base 2 ^ 55.
pub limb-digits :
    (v i : ℕ)
    → v < 256 ^ 32
    → limb (le_bytes 32 v) i ≡ v / 2 ^ (i * bits_per_limb) % 2 ^ bits_per_limb
unfolding limb
limb-digits v i h = limb_bits-digits 32 v (i * bits_per_limb) 55 0 0 h (omega arith)

-- The number that limbs stand for, the lowest first.
abbrev pub from_limbs : List ℕ → ℕ
from_limbs [] = 0
from_limbs (l ∷ ls) = l + 2 ^ 55 * from_limbs ls

-- The five limbs of a number below 2 ^ 256 determine it: they add up to it with the powers of 2 ^ 55.
pub from_limbs-limbs_of : (v : ℕ) → v < 256 ^ 32 → from_limbs (limbs_of (le_bytes 32 v)) ≡ v
unfolding limbs_of
from_limbs-limbs_of v h = omega (
  arith,
  h,
  limb-digits v 0 h,
  limb-digits v 1 h,
  limb-digits v 2 h,
  limb-digits v 3 h,
  limb-digits v 4 h,
)
