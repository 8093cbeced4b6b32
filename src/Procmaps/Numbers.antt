-- ===== src/Procmaps/Numbers.antt =====
-- `sscanf` reads a number in hexadecimal digits (src/pbox/pbox_procmaps.c).
use sbox.Prelude.{
  ℕ, ◌+◌, ◌*◌, ◌<◌, ◌≡◌, ◌≢◌, refl, ap, ◌∙◌, List, [], ◌∷◌, ◌++◌, true, false, ltb, some,
  if◌then◌else◌, size_mod, All, map, arith,
}
use sbox.Procmaps.Maps.{
  hex_value, is_space, skip_space, scan_sign, skip_prefix, scan_digits, signed, scan_number,
  scan_pointer,
}

abbrev pub IsDigit : ℕ → Type 0
IsDigit d = d < 16

-- The kernel's character for a digit.
abbrev pub hex_digit : ℕ → ℕ
hex_digit d = if ltb d 10 then 48 + d else 87 + d

abbrev pub value_from : ℕ → List ℕ → ℕ
value_from acc [] = acc
value_from acc (d ∷ ds) = value_from (acc * 16 + d) ds

hex_value-hex_digit : (d : ℕ) → IsDigit d → hex_value (hex_digit d) ≡ d
unfolding hex_value
hex_value-hex_digit d h = ground arith

-- A character that ends a number.
abbrev pub Ends : ℕ → Type 0
Ends c = (hex_value c ≡ 16) × (c ≢ 120) × (c ≢ 88)

scan_digits-eq :
    (acc : ℕ) (ds : List ℕ) (c : ℕ) (s : List ℕ)
    → All IsDigit ds
    → hex_value c ≡ 16
    → scan_digits acc (map hex_digit ds ++ c ∷ s) ≡ (value_from acc ds, c ∷ s)
unfolding scan_digits
scan_digits-eq acc [] c s ds h = rw h refl
scan_digits-eq acc (d ∷ ds) c s (here, all) h =
    let is_digit : ltb d 16 ≡ true = ground arith in
    rw (hex_value-hex_digit d here, is_digit) (scan_digits-eq (acc * 16 + d) ds c s all h)

skip_space-digit : (d : ℕ) (s : List ℕ) → IsDigit d → skip_space (hex_digit d ∷ s) ≡ hex_digit d ∷ s
unfolding skip_space is_space
skip_space-digit d s h = ground arith

scan_sign-digit :
    (d : ℕ) (s : List ℕ) → IsDigit d → scan_sign (hex_digit d ∷ s) ≡ (false, hex_digit d ∷ s)
unfolding scan_sign
scan_sign-digit d s h = ground arith

skip_prefix-other : (a x : ℕ) (s : List ℕ) → x ≢ 120 → x ≢ 88 → skip_prefix (a ∷ x ∷ s) ≡ a ∷ x ∷ s
unfolding skip_prefix
skip_prefix-other a x s h k = ground arith

-- Behind a digit comes another one or the end of the number, and so no x.
skip_prefix-digits :
    (d : ℕ) (ds : List ℕ) (c : ℕ) (s : List ℕ)
    → All IsDigit ds
    → Ends c
    → skip_prefix (hex_digit d ∷ (map hex_digit ds ++ c ∷ s))
      ≡ hex_digit d ∷ (map hex_digit ds ++ c ∷ s)
skip_prefix-digits d [] c s all (stop, h, k) = skip_prefix-other (hex_digit d) c s h k
skip_prefix-digits d (e ∷ ds) c s (here, all) ends =
    skip_prefix-other (hex_digit d) (hex_digit e) (map hex_digit ds ++ c ∷ s) (λ q. ground arith)
      (λ q. ground arith)

signed-small : (n : ℕ) → n < size_mod → signed false n ≡ n
unfolding signed
signed-small n h = ground arith

-- A number below 2^64 is read back.
pub scan_pointer-eq :
    (d : ℕ) (ds : List ℕ) (c : ℕ) (s : List ℕ)
    → All IsDigit (d ∷ ds)
    → value_from 0 (d ∷ ds) < size_mod
    → Ends c
    → scan_pointer (map hex_digit (d ∷ ds) ++ c ∷ s) ≡ some (value_from 0 (d ∷ ds), c ∷ s)
unfolding scan_pointer scan_number
scan_pointer-eq d ds c s (here, all) small ends =
    let is_digit : ltb (hex_value (hex_digit d)) 16 ≡ true =
      ap (λ (v : ℕ). ltb v 16) (hex_value-hex_digit d here) ∙ ground arith in
    rw
      (
        skip_space-digit d (map hex_digit ds ++ c ∷ s) here,
        scan_sign-digit d (map hex_digit ds ++ c ∷ s) here,
        skip_prefix-digits d ds c s all ends,
        is_digit,
        scan_digits-eq 0 (d ∷ ds) c s (here, all) ends.0,
        signed-small (value_from 0 (d ∷ ds)) small,
      )
      refl

pub dash-Ends : Ends 45
unfolding hex_value
dash-Ends = (refl, λ q. omega arith, λ q. omega arith)

pub space-Ends : Ends 32
unfolding hex_value
space-Ends = (refl, λ q. omega arith, λ q. omega arith)
