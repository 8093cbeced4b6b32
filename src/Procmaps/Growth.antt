-- ===== src/Procmaps/Growth.antt =====
-- The array of regions of `parse_proc_maps` (src/pbox/pbox_procmaps.c), and what it asks of `realloc`.
use sbox.Prelude.{
  false, true, ltb, ◌*◌, ◌+◌, if◌then◌else◌, ◌&&◌, ℕ, zero, suc, ◌<◌, ◌≤◌, ◌≡◌, refl, List, [], ◌∷◌,
  ◌++◌, Bool, leb, none, some, length, arith,
}
use sbox.Procmaps.{Region}
use sbox.Procmaps.Maps.{store_region}

-- The capacities that the array of regions grows to until it holds `n`, starting from `cap`.
abbrev pub requests : (fuel cap n : ℕ) → List ℕ
requests zero cap n = []
requests (suc fuel) cap n =
    let further = requests fuel (cap * 2) n in if ltb cap n then cap * 2 ∷ further else []

abbrev pub all_granted : (ℕ → Bool) → List ℕ → Bool
all_granted grants [] = true
all_granted grants (cap ∷ caps) = grants cap && all_granted grants caps

pub requests-none : (fuel cap n : ℕ) → n ≤ cap → requests fuel cap n ≡ []
requests-none zero cap n h = refl
requests-none (suc fuel) cap n h = let enough : ltb cap n ≡ false = ground arith in rw enough refl

pub requests-more :
    (fuel cap n : ℕ) → cap < n → requests (suc fuel) cap n ≡ cap * 2 ∷ requests fuel (cap * 2) n
requests-more fuel cap n h = let more : ltb cap n ≡ true = ground arith in rw more refl

pub length-snoc : (xs : List Region) (r : Region) → length (xs ++ (r ∷ [])) ≡ length xs + 1
length-snoc [] r = refl
length-snoc (x ∷ xs) r = let rest = length-snoc xs r in omega arith

pub store_free :
    (grants : ℕ → Bool) (cap : ℕ) (regions : List Region) (r : Region)
    → leb cap (length regions) ≡ false
    → store_region grants cap regions (some r) ≡ some (cap, regions ++ (r ∷ []))
unfolding store_region
store_free grants cap regions r free = rw free refl

pub store_grown :
    (grants : ℕ → Bool) (cap : ℕ) (regions : List Region) (r : Region)
    → leb cap (length regions) ≡ true
    → grants (cap * 2) ≡ true
    → store_region grants cap regions (some r) ≡ some (cap * 2, regions ++ (r ∷ []))
unfolding store_region
store_grown grants cap regions r full granted = rw (full, granted) refl

pub store_refused :
    (grants : ℕ → Bool) (cap : ℕ) (regions : List Region) (r : Region)
    → leb cap (length regions) ≡ true
    → grants (cap * 2) ≡ false
    → store_region grants cap regions (some r) ≡ none
unfolding store_region
store_refused grants cap regions r full refused = rw (full, refused) refl

pub is_suc : (n : ℕ) → 1 ≤ n → (m : ℕ) × (n ≡ suc m)
is_suc zero h = absurd (omega arith)
is_suc (suc m) h = (m, refl)
