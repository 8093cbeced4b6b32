-- ===== src/Passthrough/Arena.antt =====
-- The blocks of the passthrough arena (include/sbox/passthrough.hh).
use mathlib.Core.Path.{subst}
use sbox.Prelude.{
  ℕ, ◌+◌, ◌%◌, ◌^◌, ◌<◌, ◌≤◌, ◌≡◌, ◌≢◌, ◌⊎◌, inl, inr, sym, List, [], ◌∷◌, false, if◌then◌else◌,
  ◌==◌, size_mod, arith,
}
use sbox.Lfi.Stack.Blocks.{IsAlignment}
use sbox.Passthrough.{PassthroughArena, arena_size, align_up, arena_alloc}

-- An arena that malloc gave its memory, at a 16-byte boundary.
pub record IsMade (a : PassthroughArena) : Type 0 where
  pub made : 0 < a.base
  pub fits : a.base + arena_size < size_mod
  pub boundary : a.base % 16 ≡ 0
  pub within : a.offset ≤ arena_size + 16

-- Requests of sizes and alignments, and the blocks that were granted, NULL where none was.
unfoldable pub alloc_all : PassthroughArena → List (ℕ × ℕ) → PassthroughArena × List ℕ
alloc_all a [] = (a, [])
alloc_all a ((size, align) ∷ requests) =
    let (a1, p) = arena_alloc a size align in let (a2, ps) = alloc_all a1 requests in (a2, p ∷ ps)

-- Every block that was granted is aligned, begins at or behind `low`, ends before the next one begins,
-- and ends in the arena.
abbrev pub InOrder : ℕ → ℕ → List (ℕ × ℕ) → List ℕ → Type 0
InOrder base low [] [] = Unit
InOrder base low [] (p ∷ ps) = ⊥
InOrder base low (r ∷ requests) [] = ⊥
InOrder base low ((size, align) ∷ requests) (p ∷ ps) =
    if p == 0
    then InOrder base low requests ps
    else (low ≤ p)
      × (p % align ≡ 0)
      × (p + size ≤ base + arena_size)
      × InOrder base (p + size) requests ps

abbrev pub AreRequests : List (ℕ × ℕ) → Type 0
AreRequests [] = Unit
AreRequests ((size, align) ∷ requests) = (size < 2 ^ 63) × IsAlignment align × AreRequests requests

-- What one request does to the arena.
abbrev Served : PassthroughArena → ℕ → ℕ → PassthroughArena × ℕ → Type 0
Served a size align (a', p) =
    (a'.base ≡ a.base)
    × (a.offset ≤ a'.offset)
    × (a'.offset ≤ arena_size + 16)
    × ((p ≡ 0)
        ⊎ ((p ≢ 0)
            × (a.base + a.offset ≤ p)
            × (p % align ≡ 0)
            × (p + size ≡ a'.base + a'.offset)
            × (a'.offset ≤ arena_size)))

arena_alloc-Served :
    (a : PassthroughArena) (size align : ℕ)
    → IsMade a
    → size < 2 ^ 63
    → IsAlignment align
    → Served a size align (arena_alloc a size align)
unfolding arena_alloc align_up
arena_alloc-Served a size align m small (inl e) = rw e (ground arith)
arena_alloc-Served a size align m small (inr (inl e)) = rw e (ground arith)
arena_alloc-Served a size align m small (inr (inr (inl e))) = rw e (ground arith)
arena_alloc-Served a size align m small (inr (inr (inr (inl e)))) = rw e (ground arith)
arena_alloc-Served a size align m small (inr (inr (inr (inr e)))) = rw e (ground arith)

InOrder-mono :
    (base low low' : ℕ) (requests : List (ℕ × ℕ)) (ps : List ℕ)
    → low' ≤ low
    → InOrder base low requests ps
    → InOrder base low' requests ps
InOrder-mono base low low' [] [] le h = tt
InOrder-mono base low low' [] (p ∷ ps) le h = h
InOrder-mono base low low' (r ∷ requests) [] le h = h
InOrder-mono base low low' ((size, align) ∷ requests) (p ∷ ps) le h =
    ground (arith, InOrder-mono base low low' requests ps)

-- A block in front.
placed :
    (base low next size align p : ℕ) (requests : List (ℕ × ℕ)) (ps : List ℕ)
    → low ≤ next
    → (p ≡ 0)
      ⊎ ((p ≢ 0) × (low ≤ p) × (p % align ≡ 0) × (p + size ≡ next) × (next ≤ base + arena_size))
    → InOrder base next requests ps
    → InOrder base low ((size, align) ∷ requests) (p ∷ ps)
placed base low next size align p requests ps le (inl e) rest =
    rw e (InOrder-mono base next low requests ps le rest)
placed base low next size align p requests ps le (inr (some_block, at, aligned, ends, inside))
      rest =
    let nonzero : (p == 0) ≡ false = ground arith in
    rw nonzero
      (at, aligned, omega arith, subst (λ (n : ℕ). InOrder base n requests ps) (sym ends) rest)

-- Requests of less than 2^63 bytes each, with alignments of fundamental types, get blocks of an arena that
-- malloc made: each block that is granted has its alignment, ends in the arena, and begins behind
-- the blocks granted before it, the first at or behind the arena's free part.
pub alloc_all-InOrder :
    (a : PassthroughArena) (requests : List (ℕ × ℕ))
    → IsMade a
    → AreRequests requests
    → InOrder a.base (a.base + a.offset) requests (alloc_all a requests).1
unfolding alloc_all
alloc_all-InOrder a [] m ok = tt
alloc_all-InOrder a ((size, align) ∷ requests) m (small, al, ok) =
    let (base, grew, within, granted) = arena_alloc-Served a size align m small al in
    let a1 = (arena_alloc a size align).0 in
    let p = (arena_alloc a size align).1 in
    let m1 : IsMade a1 = record {
      made = omega (arith, base, m.made);
      fits = omega (arith, base, m.fits);
      boundary = subst (λ (b : ℕ). b % 16 ≡ 0) (sym base) m.boundary;
      within = within;
    } in
    let rest = alloc_all-InOrder a1 requests m1 ok in
    let rest' =
      subst (λ (b : ℕ). InOrder b (b + a1.offset) requests (alloc_all a1 requests).1) base rest in
    let ends : ((p ≡ 0)
          ⊎ ((p ≢ 0)
              × (a.base + a.offset ≤ p)
              × (p % align ≡ 0)
              × (p + size ≡ a1.base + a1.offset)
              × (a1.offset ≤ arena_size)))
        → (p ≡ 0)
          ⊎ ((p ≢ 0)
              × (a.base + a.offset ≤ p)
              × (p % align ≡ 0)
              × (p + size ≡ a.base + a1.offset)
              × (a.base + a1.offset ≤ a.base + arena_size)) =
      λ g. ground (arith, base) in
    placed a.base (a.base + a.offset) (a.base + a1.offset) size align p requests
      (alloc_all a1 requests).1 (omega arith) (ends granted) rest'
