-- ===== src/Procmaps.antt =====
-- src/pbox/pbox_procmaps.c: the search for an address that is free in both processes.
pub mod Search
pub mod Maps
pub mod Numbers
pub mod Growth
pub mod Parse
pub mod Fuel
use sbox.Prelude.{
  ℕ, zero, suc, ◌+◌, ◌-◌, ◌*◌, ◌/◌, ◌^◌, List, [], ◌∷◌, Bool, true, false, ◌&&◌, not, ltb, Option,
  none, some, if◌then◌else◌, add_size,
}

-- A mapped region: its start and its end.
abbrev pub Region : Type 0
Region = ℕ × ℕ

-- Does [addr, addr + len) overlap a region? The sum may wrap.
unfoldable pub range_overlaps : ℕ → ℕ → List Region → Bool
range_overlaps addr len [] = false
range_overlaps addr len ((r_start, r_end) ∷ rest) =
    if ltb addr r_end && ltb r_start (add_size addr len) then true else range_overlaps addr len rest

abbrev pub page_size : ℕ
page_size = 4096

-- 64KB alignment
abbrev pub align : ℕ
align = 64 * 1024

abbrev pub window : ℕ
window = 0x10000000000

-- `(length + page_size - 1) & ~(page_size - 1)`
unfoldable pub round_up : ℕ → ℕ
round_up length = add_size length (page_size - 1) / page_size * page_size

unfoldable pub is_free : ℕ → List Region → List Region → ℕ → Bool
is_free length regions1 regions2 addr =
    not (range_overlaps addr length regions1) && not (range_overlaps addr length regions2)

-- The inner loop, `for (offset; offset < window; offset += align)`, on fuel.
unfoldable pub scan_window : (ℕ → Bool) → ℕ → ℕ → ℕ → Option ℕ
scan_window free base zero offset = none
scan_window free base (suc fuel) offset =
    let addr = add_size base offset in
    let rest = scan_window free base fuel (add_size offset align) in
    if ltb offset window then (if free addr then some addr else rest) else none

-- One round more than the loop makes.
abbrev pub rounds : ℕ
rounds = window / align + 1

-- The outer loop, which `goto done` leaves.
unfoldable pub scan_candidates : (ℕ → Bool) → List ℕ → Option ℕ
scan_candidates free [] = none
scan_candidates free (base ∷ rest) = elim (scan_window free base rounds 0) [
  | some addr ↦ some addr
  | none ↦ scan_candidates free rest
]

abbrev pub candidates : List ℕ
candidates =
    0x700000000000 ∷ 0x600000000000 ∷ 0x500000000000 ∷ 0x400000000000 ∷ 0x200000000000
    ∷ 0x100000000000 ∷ []

-- `regions1` and `regions2` are the results of `parse_proc_maps`; `none` is NULL.
unfoldable pub find_common_free_address : Option (List Region) → Option (List Region) → ℕ → Option ℕ
find_common_free_address none regions2 length = none
find_common_free_address (some regions1) none length = none
find_common_free_address (some regions1) (some regions2) length =
    scan_candidates (is_free (round_up length) regions1 regions2) candidates
