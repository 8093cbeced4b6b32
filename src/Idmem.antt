-- ===== src/Idmem.antt =====
-- The identity-mapped arena of src/pbox/pbox.c: `pbox_idmem_alloc`, `pbox_idmem_reset` and
-- `pbox_in_idmem`.
pub mod Blocks
pub mod Member
use sbox.Prelude.{
  ℕ, ◌+◌, ◌*◌, ◌/◌, ◌^◌, List, [], ◌∷◌, Bool, true, false, ◌&&◌, ltb, leb, ◌==◌, not, Option, none,
  some, if◌then◌else◌, add_size, size_mod,
}

-- The arena's part of `struct PBoxThreadChannel`. Base 0 is NULL: the region is not mapped.
pub record Arena : Type 0 where
  pub base : ℕ
  pub size : ℕ
  pub offset : ℕ

-- As `create_channel_locked` leaves it.
abbrev pub unmapped : Arena
unmapped = record { base = 0; size = 0; offset = 0 }

-- PBOX_IDMEM_DEFAULT_SIZE
abbrev pub default_size : ℕ
default_size = 2 ^ 20

-- `(size + 15) & ~(size_t) 15`: clearing the low four bits of a sum that may wrap.
unfoldable pub align16 : ℕ → ℕ
align16 size = add_size size 15 / 16 * 16

-- The lazy mapping; `mmap_identity` is the address that `pbox_mmap_identity` returns.
unfoldable pub ensure_mapped : (ℕ → ℕ) → Arena → Option Arena
ensure_mapped mmap_identity a =
    let base = mmap_identity default_size in
    if a.base == 0
    then if base == 0 then none else some (record { base = base; size = default_size; offset = 0 })
    else some a

-- The part of `pbox_idmem_alloc` behind the mapping; a pointer is its address, NULL is 0.
unfoldable pub bump : Arena → ℕ → Arena × ℕ
bump a requested =
    let size = align16 requested in
    if ltb a.size (add_size a.offset size)
    then (a, 0)
    else (record a { offset = add_size a.offset size }, add_size a.base a.offset)

unfoldable pub idmem_alloc : (ℕ → ℕ) → Arena → ℕ → Arena × ℕ
idmem_alloc mmap_identity a requested = elim (ensure_mapped mmap_identity a) [
  | none ↦ (a, 0)
  | some b ↦ bump b requested
]

unfoldable pub idmem_reset : Arena → Arena
idmem_reset a = if a.base == 0 then a else record a { offset = 0 }

-- The test of one channel's region.
unfoldable pub in_region : Arena → ℕ → ℕ → Bool
in_region a addr size =
    not (a.base == 0) && (leb a.base addr && leb (add_size addr size) (add_size a.base a.size))

-- The loop over the channels.
unfoldable pub in_idmem : List Arena → ℕ → ℕ → Bool
in_idmem [] addr size = false
in_idmem (a ∷ rest) addr size = if in_region a addr size then true else in_idmem rest addr size
