-- ===== src/Idmem/Member.antt =====
-- What `pbox_in_idmem` (src/pbox/pbox.c) accepts.
use sbox.Prelude.{ℕ, ◌+◌, ◌-◌, ◌<◌, ◌≤◌, ◌≡◌, ◌⊎◌, ◌↔◌, List, [], ◌∷◌, true, size_mod, All, arith}
use sbox.Idmem.{Arena, in_region, in_idmem}

-- [addr, addr + size) lies in the region of a mapped arena.
abbrev pub Covers : ℕ → ℕ → Arena → Type 0
Covers addr size a = (0 < a.base) × (a.base ≤ addr) × (addr + size ≤ a.base + a.size)

abbrev pub Some : (Arena → Type 0) → List Arena → Type 0
Some P [] = ⊥
Some P (a ∷ rest) = P a ⊎ Some P rest

-- Regions lie in the address space.
abbrev pub InSpace : Arena → Type 0
InSpace a = a.base + a.size < size_mod

-- Where all regions lie in the address space, and for a range that does not pass its end, the
-- answer is yes exactly when one thread's region covers the range.
pub in_idmem_iff :
    (l : List Arena) (addr size : ℕ)
    → All InSpace l
    → addr + size < size_mod
    → (in_idmem l addr size ≡ true) ↔ Some (Covers addr size) l
unfolding in_idmem in_region
in_idmem_iff [] addr size h fits = (λ e. cc, λ h. absurd h)
in_idmem_iff (a ∷ rest) addr size h fits = (
  λ e. ground (arith, in_idmem_iff rest addr size h.1 fits),
  λ c. ground (arith, in_idmem_iff rest addr size h.1 fits),
)

-- A range that passes the end of the address space is accepted, although no region covers it, when
-- its start lies in or behind a region and its wrapped end before that region's end.
pub in_idmem_wraps :
    (a : Arena) (rest : List Arena) (addr size : ℕ)
    → InSpace a
    → 0 < a.base
    → a.base ≤ addr
    → addr < size_mod
    → size < size_mod
    → size_mod ≤ addr + size
    → addr + size - size_mod ≤ a.base + a.size
    → (in_idmem (a ∷ rest) addr size ≡ true) × ¬ (Covers addr size a)
unfolding in_idmem in_region
in_idmem_wraps a rest addr size fits mapped above small big over under =
    (ground arith, λ c. omega arith)
