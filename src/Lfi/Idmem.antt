-- ===== src/Lfi/Idmem.antt =====
-- The identity memory of `Sandbox<LFI>` (include/sbox/lfi.hh, src/sbox_lfi.cc): blocks of the sandbox's
-- malloc. A pointer is its address, NULL is 0.
use sbox.Prelude.{
  ℕ, ◌+◌, ◌≤◌, ◌≡◌, inl, inr, refl, ap, ◌∙◌, List, [], ◌∷◌, ◌++◌, false, if◌then◌else◌, ◌==◌,
  ==_iff, arith, Bool-cases,
}
use sbox.Identity.{drop_addr}

-- The blocks that the sandbox's malloc granted and that are not freed, and `idmem_allocations_`.
pub record Blocks : Type 0 where
  pub live : List ℕ
  pub idmem_allocations : List ℕ

-- `idmem_alloc`; `p` is the answer of `lfi_lib_malloc`.
unfoldable pub lfi_idmem_alloc : ℕ → Blocks → Blocks
lfi_idmem_alloc p b = record {
  live = if p == 0 then b.live else p ∷ b.live;
  idmem_allocations = b.idmem_allocations ++ p ∷ [];
}

-- `lfi_lib_free`, which does nothing about NULL.
unfoldable pub lib_free : ℕ → List ℕ → List ℕ
lib_free p live = if p == 0 then live else drop_addr p live

unfoldable pub free_all : List ℕ → List ℕ → List ℕ
free_all [] live = live
free_all (p ∷ rest) live = free_all rest (lib_free p live)

unfoldable pub lfi_idmem_reset : Blocks → Blocks
lfi_idmem_reset b = record { live = free_all b.idmem_allocations b.live; idmem_allocations = [] }

abbrev pub alloc_each : List ℕ → Blocks → Blocks
alloc_each [] b = b
alloc_each (p ∷ ps) b = alloc_each ps (lfi_idmem_alloc p b)

-- Is `p` the block `r`?
abbrev pub weight : ℕ → ℕ → ℕ
weight r p = if r == p then 1 else 0

-- How often a block is there.
abbrev pub occurrences : ℕ → List ℕ → ℕ
occurrences r [] = 0
occurrences r (p ∷ l) = weight r p + occurrences r l

abbrev non_null : ℕ → List ℕ → ℕ
non_null r [] = 0
non_null r (p ∷ l) = (if p == 0 then 0 else weight r p) + non_null r l

weight_apart : (r p q k : ℕ) → (p == q) ≡ false → weight r p ≤ weight r q + k → weight r p ≤ k
weight_apart r p q k other h = ground arith

drop_addr-occurrences :
    (r p : ℕ) (l : List ℕ)
    → weight r p ≤ occurrences r l
    → occurrences r (drop_addr p l) + weight r p ≡ occurrences r l
unfolding drop_addr
drop_addr-occurrences r p [] h = omega arith
drop_addr-occurrences r p (q ∷ l) h = elim (Bool-cases (p == q)) [
  | inl here ↦
      let same : p ≡ q = (==_iff p q).0 here in
      let equal : weight r p ≡ weight r q = ap (weight r) same in rw here (omega (arith, equal))
  | inr other ↦
      let ih = drop_addr-occurrences r p l (weight_apart r p q (occurrences r l) other h) in
      rw other (omega (arith, ih))
]

lib_free-occurrences :
    (r p : ℕ) (l : List ℕ)
    → (if p == 0 then 0 else weight r p) ≤ occurrences r l
    → occurrences r (lib_free p l) + (if p == 0 then 0 else weight r p) ≡ occurrences r l
unfolding lib_free
lib_free-occurrences r p l h = elim (Bool-cases (p == 0)) [
  | inl null ↦ rw null (omega arith)
  | inr block ↦ let freed = drop_addr-occurrences r p l (ground arith) in rw block freed
]

free_all-occurrences :
    (r : ℕ) (ps live : List ℕ)
    → non_null r ps ≤ occurrences r live
    → occurrences r (free_all ps live) + non_null r ps ≡ occurrences r live
unfolding free_all
free_all-occurrences r [] live h = omega arith
free_all-occurrences r (p ∷ ps) live h =
    let freed = lib_free-occurrences r p live (omega arith) in
    let rest = free_all-occurrences r ps (lib_free p live) (omega (arith, freed)) in
    omega (arith, freed, rest)

added-occurrences :
    (r p : ℕ) (live : List ℕ)
    → occurrences r (if p == 0 then live else p ∷ live)
      ≡ occurrences r live + (if p == 0 then 0 else weight r p)
added-occurrences r p live = elim (Bool-cases (p == 0)) [
  | inl null ↦ rw null (omega arith)
  | inr block ↦ rw block (omega arith)
]

non_null-snoc :
    (r p : ℕ) (ps : List ℕ)
    → non_null r (ps ++ p ∷ []) ≡ non_null r ps + (if p == 0 then 0 else weight r p)
non_null-snoc r p [] = omega arith
non_null-snoc r p (q ∷ ps) = let rest = non_null-snoc r p ps in omega (arith, rest)

-- Blocks of identity memory that are live beside others.
abbrev Owned : ℕ → ℕ → Blocks → Type 0
Owned r others b = occurrences r b.live ≡ others + non_null r b.idmem_allocations

alloc_each-Owned :
    (r others : ℕ) (ps : List ℕ) (b : Blocks) → Owned r others b → Owned r others (alloc_each ps b)
unfolding lfi_idmem_alloc
alloc_each-Owned r others [] b h = h
alloc_each-Owned r others (p ∷ ps) b h =
    alloc_each-Owned r others ps (lfi_idmem_alloc p b)
      (added-occurrences r p b.live ∙ omega (arith, h, non_null-snoc r p b.idmem_allocations))

-- From a state without identity memory, whatever malloc answers any number of allocations, NULL
-- included: a reset frees each of their blocks once, and of any block `r` as many are live as before.
pub lfi_idmem_reset-Balance :
    (r : ℕ) (ps : List ℕ) (b : Blocks)
    → b.idmem_allocations ≡ []
    → (occurrences r (lfi_idmem_reset (alloc_each ps b)).live ≡ occurrences r b.live)
      × ((lfi_idmem_reset (alloc_each ps b)).idmem_allocations ≡ [])
unfolding lfi_idmem_reset
lfi_idmem_reset-Balance r ps b fresh =
    let none_yet : non_null r b.idmem_allocations ≡ 0 = ap (non_null r) fresh in
    let owned = alloc_each-Owned r (occurrences r b.live) ps b (omega (arith, none_yet)) in
    let after = alloc_each ps b in
    (
      omega (
        arith,
        owned,
        free_all-occurrences r after.idmem_allocations after.live (omega (arith, owned)),
      ),
      refl,
    )
