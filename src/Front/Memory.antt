-- ===== src/Front/Memory.antt =====
-- Memory in the sandbox from C++: `alloc`, `calloc`, `realloc`, `free` and `verify` of
-- include/sbox/process.hh.
use sbox.Prelude.{
  ==_iff, ℕ, ◌+◌, ◌*◌, ◌%◌, ◌<◌, ◌≤◌, ◌≡◌, ◌⊎◌, ◌↔◌, inl, inr, refl, List, [], ◌∷◌, Bool, true,
  false, not, ◌&&◌, Option, some, none, if◌then◌else◌, ◌==◌, mul_size, size_mod, All, arith,
}
use sbox.Channel.{Channel}
use sbox.Idmem.{Arena, in_idmem}
use sbox.Idmem.Member.{Covers, Some, InSpace, in_idmem_iff}
use sbox.Wrappers.{Symbols, Serve, Answer, pbox_malloc, pbox_calloc, pbox_realloc, pbox_free}

-- `size` is `sizeof(T)`.
unfoldable pub alloc : Serve → Option Channel → Symbols → (size count : ℕ) → Answer
alloc serve channel syms size count = pbox_malloc serve channel syms (mul_size size count)

unfoldable pub calloc : Serve → Option Channel → Symbols → (size count : ℕ) → Answer
calloc serve channel syms size count = pbox_calloc serve channel syms count size

unfoldable pub realloc : Serve → Option Channel → Symbols → (ptr size count : ℕ) → Answer
realloc serve channel syms ptr size count =
    pbox_realloc serve channel syms ptr (mul_size size count)

unfoldable pub free : Serve → Option Channel → Symbols → ℕ → Answer
free serve channel syms ptr = pbox_free serve channel syms ptr

-- The pointer, promoted to `sbox_safe`; `none` is the call to `abort`.
unfoldable pub verify : List Arena → (ptr size count : ℕ) → Option ℕ
verify arenas raw size count =
    if not (raw == 0) && not (in_idmem arenas raw (mul_size size count)) then none else some raw

small : (n : ℕ) → n < size_mod → n % size_mod ≡ n
small n h = omega arith

test_iff :
    (z m : Bool) (raw : ℕ)
    → ((if not z && not m then none else some raw) ≡ some raw) ↔ ((z ≡ true) ⊎ (m ≡ true))
test_iff true m raw = (λ e. inl refl, λ h. refl)
test_iff false true raw = (λ e. inr refl, λ h. refl)
test_iff false false raw = (λ e. cc, λ h. elim h [ inl e ↦ cc | inr e ↦ cc ])

no_cover :
    (arenas : List Arena) (addr n : ℕ)
    → All InSpace arenas
    → size_mod ≤ n
    → ¬ (Some (Covers addr n) arenas)
no_cover [] addr n space big covered = covered
no_cover (a ∷ rest) addr n (here, space) big (inl (mapped, low, high)) = omega arith
no_cover (a ∷ rest) addr n (here, space) big (inr covered) = no_cover rest addr n space big covered

aborts_or_promotes :
    (bad : Bool) (raw : ℕ)
    → ((if bad then none else some raw) ≡ none) ⊎ ((if bad then none else some raw) ≡ some raw)
aborts_or_promotes true raw = inl refl
aborts_or_promotes false raw = inr refl

-- The host aborts or the pointer is promoted as it is. Where all regions lie in the address space, and
-- for an array that does not pass its end, it is promoted exactly if it is NULL or one thread's region
-- covers the whole array; for any other the host aborts.
pub verify_iff :
    (arenas : List Arena) (raw size count : ℕ)
    → All InSpace arenas
    → raw + size * count < size_mod
    → ((verify arenas raw size count ≡ none) ⊎ (verify arenas raw size count ≡ some raw))
      × ((verify arenas raw size count ≡ some raw)
          ↔ ((raw ≡ 0) ⊎ Some (Covers raw (size * count)) arenas))
unfolding verify
verify_iff arenas raw size count space fits =
    let exact : mul_size size count ≡ size * count = small (size * count) (omega arith) in
    let member = in_idmem_iff arenas raw (size * count) space fits in
    let tested = test_iff (raw == 0) (in_idmem arenas raw (size * count)) raw in
    (
      aborts_or_promotes (not (raw == 0) && not (in_idmem arenas raw (mul_size size count))) raw,
      rw exact (
        λ e. elim (tested.0 e) [
          | inl is_null ↦ inl ((==_iff raw 0).0 is_null)
          | inr inside ↦ inr (member.0 inside)
        ],
        λ h. tested.1 (elim h [
          | inl is_null ↦ inl ((==_iff raw 0).1 is_null)
          | inr covered ↦ inr (member.1 covered)
        ]),
      ),
    )

-- An array so long that its size in bytes wraps is promoted wherever a region covers the wrapped size,
-- although no region covers the array.
pub verify_wraps :
    (arenas : List Arena) (raw size count : ℕ)
    → All InSpace arenas
    → size_mod ≤ size * count
    → raw + mul_size size count < size_mod
    → Some (Covers raw (mul_size size count)) arenas
    → (verify arenas raw size count ≡ some raw) × ¬ (Some (Covers raw (size * count)) arenas)
unfolding verify
verify_wraps arenas raw size count space wraps fits covered =
    let inside = (in_idmem_iff arenas raw (mul_size size count) space fits).1 covered in
    (
      (test_iff (raw == 0) (in_idmem arenas raw (mul_size size count)) raw).1 (inr inside),
      no_cover arenas raw (size * count) space wraps,
    )
