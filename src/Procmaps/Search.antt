-- ===== src/Procmaps/Search.antt =====
-- The address that the search returns is free in both processes, and it returns none only when no
-- candidate is free.
use sbox.Prelude.{
  ℕ, zero, suc, ◌+◌, ◌-◌, ◌*◌, ◌/◌, ◌%◌, ◌^◌, ◌<◌, ◌≤◌, ◌≡◌, ◌⊎◌, ◌↔◌, refl, inl, inr, List, [],
  ◌∷◌, Bool, true, false, none, some, add_size, size_mod, All, arith, Option-cases, ◌∙◌,
}
use sbox.Procmaps.{
  Region, range_overlaps, align, window, round_up, is_free, scan_window, rounds, scan_candidates,
  candidates, find_common_free_address,
}

-- [addr, addr + len) and the region have no address in common.
abbrev pub Disjoint : ℕ → ℕ → Region → Type 0
Disjoint addr len (r_start, r_end) = (r_end ≤ addr) ⊎ (addr + len ≤ r_start)

range_overlaps_iff :
    (addr len : ℕ) (l : List Region)
    → addr + len < size_mod
    → (range_overlaps addr len l ≡ false) ↔ All (Disjoint addr len) l
unfolding range_overlaps
range_overlaps_iff addr len [] h = (λ e. tt, λ a. refl)
range_overlaps_iff addr len ((s, e) ∷ rest) h = (
  λ q. ground (arith, range_overlaps_iff addr len rest h),
  λ q. ground (arith, range_overlaps_iff addr len rest h),
)

module _ (free : ℕ → Bool) where
  -- A result of the inner loop passed the test, and is a multiple of the alignment from the base.
  scan_window_sound :
      (base fuel offset addr : ℕ)
      → base + window + align < size_mod
      → offset ≤ window
      → offset % align ≡ 0
      → scan_window free base fuel offset ≡ some addr
      → (free addr ≡ true) × (base ≤ addr) × (addr < base + window) × ((addr - base) % align ≡ 0)
  unfolding scan_window
  scan_window_sound base zero offset addr fits le al e = cc
  scan_window_sound base (suc fuel) offset addr fits le al e =
      ground (arith, scan_window_sound base fuel (add_size offset align) addr fits)

  -- With fuel for the rounds that are left, no result means that every later address was tested.
  scan_window_complete :
      (base fuel offset k x : ℕ)
      → base + window + align < size_mod
      → window < offset + fuel * align
      → offset ≤ window
      → offset % align ≡ 0
      → scan_window free base fuel offset ≡ none
      → offset + k * align < window
      → x ≡ base + offset + k * align
      → free x ≡ false
  unfolding scan_window
  scan_window_complete base zero offset k x fits enough le al e lt at = absurd (omega arith)
  scan_window_complete base (suc fuel) offset zero x fits enough le al e lt at =
      let here : x ≡ add_size base offset = omega arith in rw here (ground arith)
  scan_window_complete base (suc fuel) offset (suc k) x fits enough le al e lt at =
      scan_window_complete base fuel (add_size offset align) k x fits (omega arith) (omega arith)
        (omega arith) (ground arith) (omega arith) (omega arith)

-- An address that the two loops try: `k` steps behind a candidate.
abbrev pub Tried : List ℕ → ℕ → Type 0
Tried [] addr = ⊥
Tried (base ∷ rest) addr =
    ((k : ℕ) × (k * align < window) × (addr ≡ base + k * align)) ⊎ Tried rest addr

abbrev InSpace : List ℕ → Type 0
InSpace l = All (λ (base : ℕ). base + window + align < size_mod) l

module _ (free : ℕ → Bool) where
  scan_candidates_sound :
      (l : List ℕ) (addr : ℕ)
      → InSpace l
      → scan_candidates free l ≡ some addr
      → (free addr ≡ true) × Tried l addr
  unfolding scan_candidates
  scan_candidates_sound [] addr fits e = cc
  scan_candidates_sound (base ∷ rest) addr fits e =
      elim (Option-cases (scan_window free base rounds 0)) [
        | inl none_here ↦
            let (f, t) =
              scan_candidates_sound rest addr fits.1 (rw (none_here, scan_candidates) at e) in
            (f, inr t)
        | inr (a, here) ↦
            let got : scan_window free base rounds 0 ≡ some addr =
              here ∙ (rw (here, scan_candidates) at e) in
            let (f, lo, hi, al) =
              scan_window_sound free base rounds 0 addr fits.0 (omega arith) (omega arith) got in
            (f, inl ((addr - base) / align, omega arith, omega arith))
      ]

  scan_candidates-none :
      (base : ℕ) (rest : List ℕ)
      → scan_candidates free (base ∷ rest) ≡ none
      → (scan_window free base rounds 0 ≡ none) × (scan_candidates free rest ≡ none)
  unfolding scan_candidates
  scan_candidates-none base rest e = ground arith

  scan_candidates_complete :
      (l : List ℕ) (addr : ℕ)
      → InSpace l
      → scan_candidates free l ≡ none
      → Tried l addr
      → free addr ≡ false
  scan_candidates_complete [] addr fits e t = absurd t
  scan_candidates_complete (base ∷ rest) addr fits e (inl (k, lt, at)) =
      scan_window_complete free base rounds 0 k addr fits.0 (omega arith) (omega arith)
        (omega arith) (scan_candidates-none base rest e).0 (omega arith) (omega arith)
  scan_candidates_complete (base ∷ rest) addr fits e (inr t) =
      scan_candidates_complete rest addr fits.1 (scan_candidates-none base rest e).1 t

candidates-InSpace : InSpace candidates
candidates-InSpace = omega arith

-- The candidates are aligned, and well below the top of the address space.
abbrev IsBase : ℕ → Type 0
IsBase base = (base < 2 ^ 47) × (base % align ≡ 0)

candidates-IsBase : All IsBase candidates
candidates-IsBase = omega arith

Tried-bounds :
    (l : List ℕ) (addr : ℕ) → All IsBase l → Tried l addr → (addr < 2 ^ 48) × (addr % align ≡ 0)
Tried-bounds [] addr h t = absurd t
Tried-bounds (base ∷ rest) addr h (inl (k, lt, at)) = omega arith
Tried-bounds (base ∷ rest) addr h (inr t) = Tried-bounds rest addr h.1 t

is_free_iff :
    (length addr : ℕ) (regions1 regions2 : List Region)
    → addr + length < size_mod
    → (is_free length regions1 regions2 addr ≡ true)
      ↔ (All (Disjoint addr length) regions1 × All (Disjoint addr length) regions2)
unfolding is_free
is_free_iff length addr regions1 regions2 fits =
    let (to1, from1) = range_overlaps_iff addr length regions1 fits in
    let (to2, from2) = range_overlaps_iff addr length regions2 fits in
    (λ e. (to1 (ground arith), to2 (ground arith)), λ d. rw (from1 d.0, from2 d.1))

round_up_bounds :
    (length : ℕ) → length ≤ 2 ^ 62 → (length ≤ round_up length) × (round_up length ≤ length + 4095)
unfolding round_up
round_up_bounds length h = omega arith

module _ (regions1 regions2 : List Region) (length addr : ℕ) (small : length ≤ 2 ^ 62) where
  -- For a length of at most 2^62, the address that the search returns is aligned to 64KB and
  -- below 2^48, and the whole pages from it on that the length needs are free of every region
  -- of either process.
  pub find_common_free_address_sound :
      find_common_free_address (some regions1) (some regions2) length ≡ some addr
      → (addr % align ≡ 0)
        × (addr < 2 ^ 48)
        × (length ≤ round_up length)
        × All (Disjoint addr (round_up length)) regions1
        × All (Disjoint addr (round_up length)) regions2
  unfolding find_common_free_address
  find_common_free_address_sound e =
      let (f, t) = scan_candidates_sound _ candidates addr candidates-InSpace e in
      let (lt, al) = Tried-bounds candidates addr candidates-IsBase t in
      let (ge, le) = round_up_bounds length small in
      let (d1, d2) = (is_free_iff (round_up length) addr regions1 regions2 (omega arith)).0 f in
      (al, lt, ge, d1, d2)

  -- For a length of at most 2^62, the search fails only when at every 64KB step of the terabyte
  -- behind each candidate some region of either process is in the way.
  pub find_common_free_address_complete :
      find_common_free_address (some regions1) (some regions2) length ≡ none
      → Tried candidates addr
      → ¬ (
          All (Disjoint addr (round_up length)) regions1
          × All (Disjoint addr (round_up length)) regions2)
  unfolding find_common_free_address
  find_common_free_address_complete e t d =
      let (lt, al) = Tried-bounds candidates addr candidates-IsBase t in
      let (ge, le) = round_up_bounds length small in
      let f = scan_candidates_complete _ candidates addr candidates-InSpace e t in
      let f' = (is_free_iff (round_up length) addr regions1 regions2 (omega arith)).1 d in cc
