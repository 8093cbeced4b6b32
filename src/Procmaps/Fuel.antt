-- ===== src/Procmaps/Fuel.antt =====
-- The loop of `parse_proc_maps` (src/pbox/pbox_procmaps.c) ends at the end of the file.
use sbox.Prelude.{
  ℕ, zero, suc, ◌≤◌, ◌≡◌, inl, inr, refl, List, [], ◌∷◌, Bool, length, arith, Option-cases,
}
use sbox.Procmaps.{Region}
use sbox.Procmaps.Maps.{fgets, parse_lines, store_region, scan_region}

fgets-le : (n : ℕ) (s : List ℕ) → length (fgets n s).1 ≤ length s
unfolding fgets
fgets-le zero s = omega arith
fgets-le (suc n) [] = omega arith
fgets-le (suc n) (c ∷ s) = let rest = fgets-le n s in ground arith

-- A read takes a character at least.
fgets-lt : (n c : ℕ) (s : List ℕ) → length (fgets (suc n) (c ∷ s)).1 ≤ length s
unfolding fgets
fgets-lt n c s = let rest = fgets-le n s in ground arith

-- With a round of fuel for each character, more fuel changes nothing: the loop has read the file.
pub parse_lines-fuel :
    (grants : ℕ → Bool) (fuel more : ℕ) (s : List ℕ) (cap : ℕ) (regions : List Region)
    → length s ≤ fuel
    → length s ≤ more
    → parse_lines grants fuel s cap regions ≡ parse_lines grants more s cap regions
unfolding parse_lines
parse_lines-fuel grants zero zero [] cap regions h k = refl
parse_lines-fuel grants zero (suc more) [] cap regions h k = refl
parse_lines-fuel grants (suc fuel) zero [] cap regions h k = refl
parse_lines-fuel grants (suc fuel) (suc more) [] cap regions h k = refl
parse_lines-fuel grants zero more (c ∷ s) cap regions h k = absurd (omega arith)
parse_lines-fuel grants (suc fuel) zero (c ∷ s) cap regions h k = absurd (omega arith)
parse_lines-fuel grants (suc fuel) (suc more) (c ∷ s) cap regions h k =
    let shorter = fgets-lt 510 c s in
    elim (Option-cases (store_region grants cap regions (scan_region (fgets 511 (c ∷ s)).0))) [
      | inl refused ↦ rw refused refl
      | inr (stored, e) ↦ rw e (
          parse_lines-fuel grants fuel more (fgets 511 (c ∷ s)).1 (stored.0) (stored.1)
            (omega arith) (omega arith))
    ]
