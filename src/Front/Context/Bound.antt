-- ===== src/Front/Context/Bound.antt =====
-- What a process context (include/sbox/process.hh) binds the variables of a call to: blocks of the
-- arena, one behind the other, that hold the variables' values.
use mathlib.Core.Path.{subst}
use sbox.Prelude.{
  ◌>>=◌, >>=-eq-some, ℕ, zero, suc, ◌+◌, ◌-◌, ◌^◌, ◌<◌, ◌≤◌, ◌≡◌, ◌≢◌, ◌⊎◌, inl, inr, refl, sym,
  ◌∙◌, ap, ap₂, List, [], ◌∷◌, ◌++◌, Bool, true, false, some, none, length, get_or, arith, ◌==◌,
  if◌then◌else◌,
}
use sbox.Idmem.{Arena, ensure_mapped, bump, idmem_alloc}
use sbox.Idmem.Blocks.{IsMapped, bump_block, bump-IsMapped, bump-base}
use sbox.Copy.{Memory, write, read}
use sbox.Front.Context.{
  Mode, Param, CopyBack, Context, out, in_value, inout, assign, grant, allocate, push_copyback,
  pass_out, pass_in, pass_inout, pass,
}

-- `j` does not lie in [a, a + n).
abbrev pub Outside : ℕ → ℕ → ℕ → Type 0
Outside a n j = (j < a) ⊎ (a + n ≤ j)

get_or_behind : (l : List ℕ) (i d : ℕ) → length l ≤ i → get_or l i d ≡ d
get_or_behind [] i d h = refl
get_or_behind (x ∷ l) zero d h = absurd (omega arith)
get_or_behind (x ∷ l) (suc i) d h = get_or_behind l i d (omega arith)

pub write_other :
    (mem : Memory) (a j : ℕ) (bs : List ℕ) → Outside a (length bs) j → write mem a bs j ≡ mem j
unfolding write
write_other mem a j bs h = ground (arith, get_or_behind bs (j - a) (mem j))

pub read-ext :
    (m m' : Memory) (a n : ℕ)
    → ((j : ℕ) → a ≤ j → j < a + n → m j ≡ m' j)
    → read m a n ≡ read m' a n
unfolding read
read-ext m m' a zero h = refl
read-ext m m' a (suc n) h =
    ap₂ (λ (x : ℕ) (l : List ℕ). x ∷ l) (h a (omega arith) (omega arith))
      (read-ext m m' (a + 1) n (λ j lo hi. h j (omega arith) (omega arith)))

write_tail :
    (mem : Memory) (a b : ℕ) (bs : List ℕ) (j : ℕ)
    → a + 1 ≤ j
    → write mem a (b ∷ bs) j ≡ write mem (a + 1) bs j
unfolding write
write_tail mem a b bs j le =
    let k : j - a ≡ suc (j - (a + 1)) = omega arith in
    ground (arith, ap (λ (i : ℕ). get_or (b ∷ bs) i (mem j)) k)

first : (mem : Memory) (a b : ℕ) (bs : List ℕ) → write mem a (b ∷ bs) a ≡ b
unfolding write
first mem a b bs =
    let k : a - a ≡ 0 = omega arith in ground (arith, ap (λ (i : ℕ). get_or (b ∷ bs) i (mem a)) k)

pub read-write : (mem : Memory) (a : ℕ) (bs : List ℕ) → read (write mem a bs) a (length bs) ≡ bs
unfolding read
read-write mem a [] = refl
read-write mem a (b ∷ bs) =
    ap₂ (λ (x : ℕ) (l : List ℕ). x ∷ l) (first mem a b bs)
      (read-ext (write mem a (b ∷ bs)) (write mem (a + 1) bs) (a + 1) (length bs)
          (λ j lo hi. write_tail mem a b bs j lo)
        ∙ read-write mem (a + 1) bs)

-- A write elsewhere does not change a block.
pub read-write_apart :
    (mem : Memory) (a p n : ℕ) (bs : List ℕ)
    → (p + n ≤ a) ⊎ (a + length bs ≤ p)
    → read (write mem a bs) p n ≡ read mem p n
read-write_apart mem a p n bs (inl h) =
    read-ext (write mem a bs) mem p n (λ j lo hi. write_other mem a j bs (inl (omega arith)))
read-write_apart mem a p n bs (inr h) =
    read-ext (write mem a bs) mem p n (λ j lo hi. write_other mem a j bs (inr (omega arith)))

-- Blocks that ascend between two bounds.
abbrev pub Ascending : ℕ → ℕ → List Param → Type 0
Ascending lo hi [] = lo ≤ hi
Ascending lo hi ((mode, p, n) ∷ args) = (lo ≤ p) × Ascending (p + n) hi args

-- The arena granted a block.
pub record Granted (a : Arena) (n : ℕ) (a' : Arena) (p : ℕ) : Type 0 where
  pub mapped : IsMapped a'
  pub base_same : a'.base ≡ a.base
  pub size_same : a'.size ≡ a.size
  pub from : a.base + a.offset ≤ p
  pub to : p + n ≤ a'.base + a'.offset

pub bump-size : (a : Arena) (n : ℕ) → (bump a n).0.size ≡ a.size
unfolding bump
bump-size a n = ground arith

pub idmem_alloc-mapped :
    (mmap_identity : ℕ → ℕ) (a : Arena) (n : ℕ)
    → IsMapped a
    → idmem_alloc mmap_identity a n ≡ bump a n
unfolding idmem_alloc ensure_mapped
idmem_alloc-mapped mmap_identity a n m = ground arith

tested :
    (b : Bool) (c ctx' : Context) (q p : ℕ) (r : Context × ℕ)
    → r ≡ (c, q)
    → (if b then none else some r) ≡ some (ctx', p)
    → (b ≡ false) × (p ≡ q) × (ctx' ≡ c)
tested true c ctx' q p r e h = cc
tested false c ctx' q p r e h =
    let pair : r ≡ (ctx', p) = cc in
    (
      refl,
      sym (ap (λ (x : Context × ℕ). x.1) pair) ∙ ap (λ (x : Context × ℕ). x.1) e,
      sym (ap (λ (x : Context × ℕ). x.0) pair) ∙ ap (λ (x : Context × ℕ). x.0) e,
    )

granted :
    (ctx ctx' : Context) (a' : Arena) (q p : ℕ)
    → grant ctx (a', q) ≡ some (ctx', p)
    → (q ≢ 0) × (p ≡ q) × (ctx' ≡ record ctx { arena = a' })
unfolding grant
granted ctx ctx' a' q p e =
    let (fails, at, result) =
      tested (q == 0) (record ctx { arena = a' }) ctx' q p (record ctx { arena = a' }, q) refl e in
    (λ h. ground arith, at, result)

bump-Granted :
    (a : Arena) (n : ℕ)
    → IsMapped a
    → n < 2 ^ 63
    → (bump a n).1 ≢ 0
    → Granted a n (bump a n).0 (bump a n).1
bump-Granted a n m small got =
    let (at, (low, inside, aligned), grew) = bump_block a n m small got in
    record {
      mapped = bump-IsMapped a n m;
      base_same = bump-base a n;
      size_same = bump-size a n;
      from = omega arith;
      to = inside;
    }

allocated :
    (mmap_identity : ℕ → ℕ) (ctx ctx' : Context) (n p : ℕ)
    → IsMapped ctx.arena
    → n < 2 ^ 63
    → allocate mmap_identity ctx n ≡ some (ctx', p)
    → (a' : Arena) × (ctx' ≡ record ctx { arena = a' }) × Granted ctx.arena n a' p
unfolding allocate
allocated mmap_identity ctx ctx' n p m small e =
    let (a', q) = bump ctx.arena n in
    let same = idmem_alloc-mapped mmap_identity ctx.arena n m in
    let (got, at, result) = granted ctx ctx' a' q p (ap (grant ctx) (sym same) ∙ e) in
    (a', result, rw at (bump-Granted ctx.arena n m small got))

-- The copy-back that a mode registers.
abbrev pub back : Mode → ℕ → ℕ → ℕ → List CopyBack
back out host p n = (host, p, n) ∷ []
back in_value host p n = []
back inout host p n = (host, p, n) ∷ []

-- The copy that a mode makes.
abbrev pub moved : Mode → Memory → ℕ → ℕ → ℕ → Memory
moved out mem p host n = mem
moved in_value mem p host n = assign mem p host n
moved inout mem p host n = assign mem p host n

pub record Passed (ctx : Context) (mode : Mode) (host n : ℕ) (ctx' : Context) (p : ℕ) : Type 0 where
  pub grants : Granted ctx.arena n ctx'.arena p
  pub backs : ctx'.copybacks ≡ ctx.copybacks ++ back mode host p n
  pub mem_is : ctx'.mem ≡ moved mode ctx.mem p host n
  pub flag : ctx'.finalized ≡ ctx.finalized

append_nil : (xs : List CopyBack) → xs ≡ xs ++ []
append_nil [] = refl
append_nil (x ∷ xs) = ap (λ (l : List CopyBack). x ∷ l) (append_nil xs)

-- What a mode does once its block is there.
unfoldable pub after : Mode → ℕ → ℕ → Context → ℕ → Context
after out host n ctx p = push_copyback ctx (host, p, n)
after in_value host n ctx p = record ctx { mem = assign ctx.mem p host n }
after inout host n ctx p = push_copyback (record ctx { mem = assign ctx.mem p host n }) (host, p, n)

pub pass-eq :
    (mmap_identity : ℕ → ℕ) (ctx : Context) (mode : Mode) (host n : ℕ)
    → pass mmap_identity ctx (mode, host, n)
      ≡ (allocate mmap_identity ctx n >>= λ r. some (after mode host n r.0 r.1, r.1))
unfolding pass pass_out pass_in pass_inout after
pass-eq mmap_identity ctx out host n = refl
pass-eq mmap_identity ctx in_value host n = refl
pass-eq mmap_identity ctx inout host n = refl

after-Passed :
    (ctx : Context) (a' : Arena) (mode : Mode) (host n p : ℕ)
    → Granted ctx.arena n a' p
    → Passed ctx mode host n (after mode host n (record ctx { arena = a' }) p) p
unfolding after push_copyback
after-Passed ctx a' out host n p g = record { grants = g; backs = refl; mem_is = refl; flag = refl }
after-Passed ctx a' in_value host n p g = record {
  grants = g;
  backs = append_nil ctx.copybacks;
  mem_is = refl;
  flag = refl;
}
after-Passed ctx a' inout host n p g = record {
  grants = g;
  backs = refl;
  mem_is = refl;
  flag = refl;
}

pub pass-Passed :
    (mmap_identity : ℕ → ℕ) (ctx ctx' : Context) (mode : Mode) (host n p : ℕ)
    → IsMapped ctx.arena
    → n < 2 ^ 63
    → pass mmap_identity ctx (mode, host, n) ≡ some (ctx', p)
    → Passed ctx mode host n ctx' p
pass-Passed mmap_identity ctx ctx' mode host n p m small e =
    let ((ctx1, q), first, last) =
      >>=-eq-some (allocate mmap_identity ctx n)
        (λ (r : Context × ℕ). some (after mode host n r.0 r.1, r.1))
        (sym (pass-eq mmap_identity ctx mode host n) ∙ e) in
    let (a', same, g) = allocated mmap_identity ctx ctx1 n q m small first in
    let pair : (after mode host n ctx1 q, q) ≡ (ctx', p) = cc in
    subst (λ (r : Context × ℕ). Passed ctx mode host n r.0 r.1) pair
      (subst (λ (c : Context). Passed ctx mode host n (after mode host n c q) q) (sym same)
        (after-Passed ctx a' mode host n q g))
