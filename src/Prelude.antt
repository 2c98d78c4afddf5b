-- ===== src/Prelude.antt =====
-- Names shared by all modules: library names passed on, Boolean tests, lists over the native
-- numbers, bytes.
mod Tests
mod Lists
pub mod Bits
pub mod Int
pub mod Encode
pub use Tests.*
pub use Lists.*
pub use Prim.Native.Nat.{ℕ, zero, suc, ◌+◌, ◌-◌, ◌*◌, ◌/◌, ◌%◌, ◌^◌, ◌≤◌, ◌<◌}
pub use mathlib.Core.Path.{◌≡◌, refl, sym, ap, ◌∙◌}
pub use mathlib.Core.Logic.{◌≢◌, ◌↔◌, ◌⊎◌, inl, inr}
pub use mathlib.Core.Bool.{Bool, true, false, not, ◌&&◌, ◌||◌}
pub use mathlib.Core.Option.{Option, none, some}
pub use mathlib.Core.List.{List, [], ◌∷◌, ◌++◌, map, reverse}
pub use mathlib.Core.List.{append-nil, append_assoc}
pub use native.Mathlib.Omega.{arith}

-- A byte slice or a `Vec<u8>`; each element stands for a byte.
abbrev pub Bytes : Type 0
Bytes = List ℕ

-- The number of values of a `u64`, and of a `usize` on the 64-bit targets.
abbrev pub u64_mod : ℕ
u64_mod = 2 ^ 64
