-- ===== src/Prelude/Sizes.antt =====
-- `size_t` and `uintptr_t` on a 64-bit target: a number below 2 ^ 64, with the wrap written out.
use Prim.Native.Nat.{ℕ, ◌+◌, ◌*◌, ◌%◌, ◌^◌, ◌<◌}
use mathlib.Core.Path.{◌≡◌}
use native.Mathlib.Omega.{arith}

abbrev pub size_mod : ℕ
size_mod = 2 ^ 64

abbrev pub add_size : ℕ → ℕ → ℕ
add_size a b = (a + b) % size_mod

abbrev pub mul_size : ℕ → ℕ → ℕ
mul_size a b = (a * b) % size_mod

-- A sum that fits is the sum of the integers.
pub add_size_fits : (a b : ℕ) → a + b < size_mod → add_size a b ≡ a + b
add_size_fits a b h = omega arith
