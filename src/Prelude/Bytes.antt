-- ===== src/Prelude/Bytes.antt =====
-- `memcpy` between byte buffers, as lists of bytes.
use Prim.Native.Nat.{ℕ, zero, suc, ◌+◌, ◌≤◌}
use mathlib.Core.Path.{◌≡◌, refl, ap, ◌∙◌}
use mathlib.Core.List.{List, [], ◌∷◌, ◌++◌}
use native.Mathlib.Omega.{arith}
use sbox.Prelude.Lists.{
  length, take, drop, length-append, length-take, length-drop, take_append_left, drop_append_left,
}

-- The `n` bytes at `off`.
abbrev pub read_at : List ℕ → ℕ → ℕ → List ℕ
read_at buf off n = take n (drop off buf)

-- memcpy(&dst[off], src, n), where the range lies inside `dst`.
unfoldable pub memcpy_to : List ℕ → ℕ → List ℕ → ℕ → List ℕ
memcpy_to dst off src n = take off dst ++ (take n src ++ drop (off + n) dst)

module _ {ℓ} {A : Type ℓ} where
  pub drop_append_of_length : (n : ℕ) (xs ys : List A) → length xs ≡ n → drop n (xs ++ ys) ≡ ys
  drop_append_of_length n xs ys h = rw (← h) (drop_append_left xs ys)

  pub take_append_of_length : (n : ℕ) (xs ys : List A) → length xs ≡ n → take n (xs ++ ys) ≡ xs
  take_append_of_length n xs ys h = rw (← h) (take_append_left xs ys)

  take_below :
      (dst ys : List A) (off m : ℕ)
      → m ≤ off
      → off ≤ length dst
      → take m (take off dst ++ ys) ≡ take m dst
  take_below dst ys off zero h k = refl
  take_below dst ys zero (suc m) h k = absurd (omega arith)
  take_below [] ys (suc off) (suc m) h k = absurd (omega arith)
  take_below (x ∷ dst) ys (suc off) (suc m) h k =
      ap (λ l. x ∷ l) (take_below dst ys off m (omega arith) (omega arith))

  read_below :
      (dst ys : List A) (off at m : ℕ)
      → at + m ≤ off
      → off ≤ length dst
      → take m (drop at (take off dst ++ ys)) ≡ take m (drop at dst)
  read_below dst ys off zero m h k = take_below dst ys off m (omega arith) k
  read_below dst ys zero (suc at) m h k = absurd (omega arith)
  read_below [] ys (suc off) (suc at) m h k = absurd (omega arith)
  read_below (x ∷ dst) ys (suc off) (suc at) m h k =
      read_below dst ys off at m (omega arith) (omega arith)

  pub length-take_of_le : (n : ℕ) (xs : List A) → n ≤ length xs → length (take n xs) ≡ n
  length-take_of_le n xs h = omega (arith, length-take {ℓ} n xs)

pub length-memcpy_to :
    (dst src : List ℕ) (off n : ℕ)
    → off + n ≤ length dst
    → n ≤ length src
    → length (memcpy_to dst off src n) ≡ length dst
unfolding memcpy_to
length-memcpy_to dst src off n h k = omega (
  arith,
  length-append {0} (take off dst) (take n src ++ drop (off + n) dst),
  length-append {0} (take n src) (drop (off + n) dst),
  length-take {0} off dst,
  length-take {0} n src,
  length-drop {0} (off + n) dst,
)

-- What was copied is read back.
pub read_at-memcpy_to :
    (dst src : List ℕ) (off n : ℕ)
    → off + n ≤ length dst
    → n ≤ length src
    → read_at (memcpy_to dst off src n) off n ≡ take n src
unfolding memcpy_to
read_at-memcpy_to dst src off n h k =
    ap (take n) (
      drop_append_of_length off (take off dst) (take n src ++ drop (off + n) dst)
        (length-take_of_le off dst (omega arith)))
    ∙ take_append_of_length n (take n src) (drop (off + n) dst) (length-take_of_le n src k)

-- A copy does not touch the bytes below it.
pub read_at-memcpy_to_below :
    (dst src : List ℕ) (off n at m : ℕ)
    → at + m ≤ off
    → off ≤ length dst
    → read_at (memcpy_to dst off src n) at m ≡ read_at dst at m
unfolding memcpy_to
read_at-memcpy_to_below dst src off n at m h k =
    read_below dst (take n src ++ drop (off + n) dst) off at m h k
