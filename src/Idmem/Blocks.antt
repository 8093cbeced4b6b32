-- ===== src/Idmem/Blocks.antt =====
-- The blocks that the arena hands out: aligned, inside the region, and apart from one another.
use sbox.Prelude.{
  ℕ, ◌+◌, ◌*◌, ◌-◌, ◌/◌, ◌%◌, ◌^◌, ◌<◌, ◌≤◌, ◌≡◌, ◌≢◌, List, [], ◌∷◌, ◌==◌, if◌then◌else◌, size_mod,
  All, arith, Bool-cases, inl, inr, ==_iff, sym,
}
use sbox.Idmem.{Arena, default_size, align16, bump, idmem_reset}

-- A mapped region of the size that `pbox_idmem_alloc` asks for, with the offset inside it.
pub record IsMapped (a : Arena) : Type 0 where
  pub mapped : 0 < a.base
  pub fits : a.base + a.size < size_mod
  pub sized : a.size ≡ default_size
  pub within : a.offset ≤ a.size
  pub aligned : a.offset % 16 ≡ 0

-- A block: its address, and the bytes that were asked for.
abbrev pub Block : Type 0
Block = ℕ × ℕ

-- One request of a client.
pub data Op : Type 0 where
  alloc : ℕ → Op
  reset : Op

-- The arena and the blocks that are live, latest first, after the requests. A failed request adds
-- none; a reset frees all.
unfoldable pub add_block : ℕ → ℕ → List Block → List Block
add_block p n live = if p == 0 then live else (p, n) ∷ live

unfoldable pub run : Arena → List Block → List Op → Arena × List Block
run a live [] = (a, live)
run a live (reset ∷ ops) = run (idmem_reset a) [] ops
run a live (alloc n ∷ ops) = run (bump a n).0 (add_block (bump a n).1 n live) ops

-- A block lies in the used part of the arena, from a 16-byte boundary of it.
abbrev pub InUse : Arena → Block → Type 0
InUse a (p, n) = (a.base ≤ p) × (p + n ≤ a.base + a.offset) × ((p - a.base) % 16 ≡ 0)

-- Later blocks lie behind earlier ones.
abbrev pub Apart : List Block → Type 0
Apart [] = Unit
Apart ((p, n) ∷ rest) = All (λ (b : Block). b.0 + b.1 ≤ p) rest × Apart rest

-- A request far from the end of the address space.
abbrev pub IsSmall : Op → Type 0
IsSmall reset = Unit
IsSmall (alloc n) = n < 2 ^ 63

pub bump-IsMapped : (a : Arena) (n : ℕ) → IsMapped a → IsMapped (bump a n).0
unfolding bump align16
bump-IsMapped a n m = ground arith

pub bump_block :
    (a : Arena) (n : ℕ)
    → IsMapped a
    → n < 2 ^ 63
    → (bump a n).1 ≢ 0
    → ((bump a n).1 ≡ a.base + a.offset)
      × InUse (bump a n).0 ((bump a n).1, n)
      × (a.offset ≤ (bump a n).0.offset)
unfolding bump align16
bump_block a n m small got = ground arith

InUse-mono :
    (a b : Arena) (live : List Block)
    → a.base ≡ b.base
    → a.offset ≤ b.offset
    → All (InUse a) live
    → All (InUse b) live
InUse-mono a b [] e le h = tt
InUse-mono a b (x ∷ live) e le h = (ground arith, InUse-mono a b live e le h.1)

InUse-Apart :
    (a : Arena) (p : ℕ) (live : List Block)
    → p ≡ a.base + a.offset
    → All (InUse a) live
    → All (λ (b : Block). b.0 + b.1 ≤ p) live
InUse-Apart a p [] e h = tt
InUse-Apart a p (x ∷ live) e h = (ground arith, InUse-Apart a p live e h.1)

pub bump-base : (a : Arena) (n : ℕ) → ((bump a n).0.base ≡ a.base)
unfolding bump
bump-base a n = ground arith

bump_failed : (a : Arena) (n : ℕ) → IsMapped a → (bump a n).1 ≡ 0 → (bump a n).0 ≡ a
unfolding bump
bump_failed a n m e = ground arith

-- A request keeps the blocks apart, granted or not.
bump-Apart :
    (a : Arena) (n : ℕ) (live : List Block)
    → IsMapped a
    → n < 2 ^ 63
    → All (InUse a) live
    → Apart live
    → let live' = add_block (bump a n).1 n live in All (InUse (bump a n).0) live' × Apart live'
unfolding add_block
bump-Apart a n live m small used apart = elim (Bool-cases ((bump a n).1 == 0)) [
  | inl failed ↦ rw failed (rw (bump_failed a n m ((==_iff _ 0).0 failed)) used, apart)
  | inr got ↦
      let (at_end, inside, grew) = bump_block a n m small (ground arith) in
      rw got (
        (inside, InUse-mono a (bump a n).0 live (sym (bump-base a n)) grew used),
        (InUse-Apart a (bump a n).1 live at_end used, apart),
      )
]

-- In a mapped arena, after any requests for less than 2^63 bytes each, with resets among them,
-- every live block lies inside the region from a 16-byte boundary of it, and no two live blocks
-- overlap, if that held of the blocks before.
pub run-Apart :
    (a : Arena) (live : List Block) (ops : List Op)
    → IsMapped a
    → All IsSmall ops
    → All (InUse a) live
    → Apart live
    → let (a', live') = run a live ops in IsMapped a' × All (InUse a') live' × Apart live'
unfolding run
run-Apart a live [] m small used apart = (m, used, apart)
run-Apart a live (reset ∷ ops) m small used apart =
    run-Apart (idmem_reset a) [] ops (unfold idmem_reset in ground arith) small.1 tt tt
run-Apart a live (alloc n ∷ ops) m small used apart =
    let (used', apart') = bump-Apart a n live m small.0 used apart in
    run-Apart (bump a n).0 (add_block (bump a n).1 n live) ops (bump-IsMapped a n m) small.1 used'
      apart'

-- In a mapped arena, a request so large that its rounded size, added to the offset, passes the
-- end of the address space is granted: the sum wraps, the pointer is the arena's next free
-- address, and the offset moves back.
pub bump_wraps :
    (a : Arena) (n : ℕ)
    → IsMapped a
    → n < size_mod
    → size_mod ≤ a.offset + (n + 15) / 16 * 16
    → bump a n ≡ (record a { offset = a.offset + (n + 15) / 16 * 16 - size_mod }, a.base + a.offset)
unfolding bump align16
bump_wraps a n m lt over = ground arith
