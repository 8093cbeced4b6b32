-- ===== src/Front/Context/Room.antt =====
-- Binding the variables of a call does not fail while the arena has room (include/sbox/process.hh).
use mathlib.Core.Path.{subst}
use sbox.Prelude.{
  ℕ, ◌+◌, ◌*◌, ◌/◌, ◌^◌, ◌<◌, ◌≤◌, ◌≡◌, refl, sym, ◌∙◌, ap, List, [], ◌∷◌, Option, some, arith,
  ◌>>=◌,
}
use sbox.Idmem.{Arena, bump, align16}
use sbox.Idmem.Blocks.{IsMapped, bump-IsMapped}
use sbox.Front.Context.{
  Mode, Param, Context, out, in_value, inout, grant, allocate, push_copyback, pass, pass_all,
}
use sbox.Front.Context.Bound.{idmem_alloc-mapped, after, pass-eq}
use sbox.Front.Context.Bindings.{AreSmall}

-- The bytes that variables take of the arena.
abbrev pub total : List Param → ℕ
total [] = 0
total ((mode, host, n) ∷ vars) = (n + 15) / 16 * 16 + total vars

bump_granted :
    (a : Arena) (n : ℕ)
    → IsMapped a
    → n < 2 ^ 63
    → a.offset + (n + 15) / 16 * 16 ≤ a.size
    → bump a n ≡ (record a { offset = a.offset + (n + 15) / 16 * 16 }, a.base + a.offset)
unfolding bump align16
bump_granted a n m small fits = ground arith

grant-some :
    (ctx : Context) (a : Arena) (p : ℕ)
    → 0 < p
    → grant ctx (a, p) ≡ some (record ctx { arena = a }, p)
unfolding grant
grant-some ctx a p h = ground arith

arena-after :
    (mode : Mode) (host n : ℕ) (ctx : Context) (p : ℕ) → (after mode host n ctx p).arena ≡ ctx.arena
unfolding after push_copyback
arena-after out host n ctx p = refl
arena-after in_value host n ctx p = refl
arena-after inout host n ctx p = refl

pass-some :
    (mmap_identity : ℕ → ℕ) (ctx : Context) (mode : Mode) (host n : ℕ)
    → IsMapped ctx.arena
    → n < 2 ^ 63
    → ctx.arena.offset + (n + 15) / 16 * 16 ≤ ctx.arena.size
    → (ctx1 : Context) × (p : ℕ) × (pass mmap_identity ctx (mode, host, n) ≡ some (ctx1, p))
      × (ctx1.arena ≡ (bump ctx.arena n).0)
      × ((bump ctx.arena n).0
          ≡ record (ctx.arena) { offset = ctx.arena.offset + (n + 15) / 16 * 16 })
unfolding allocate
pass-some mmap_identity ctx mode host n m small fits =
    let done = bump_granted ctx.arena n m small fits in
    let positive = m.mapped in
    let a' = record (ctx.arena) { offset = ctx.arena.offset + (n + 15) / 16 * 16 } in
    let p = ctx.arena.base + ctx.arena.offset in
    (
      after mode host n (record ctx { arena = a' }) p,
      p,
      pass-eq mmap_identity ctx mode host n
          ∙ ap
              (λ (r : Arena × ℕ).
                grant ctx r >>= λ (q : Context × ℕ). some (after mode host n q.0 q.1, q.1))
              (idmem_alloc-mapped mmap_identity ctx.arena n m ∙ done)
          ∙ ap
              (λ (g : Option (Context × ℕ)).
                g >>= λ (q : Context × ℕ). some (after mode host n q.0 q.1, q.1))
              (grant-some ctx a' p (omega arith)),
      arena-after mode host n (record ctx { arena = a' }) p
          ∙ sym (ap (λ (r : Arena × ℕ). r.0) done),
      ap (λ (r : Arena × ℕ). r.0) done,
    )

-- All variables find room.
pub pass_all-some :
    (mmap_identity : ℕ → ℕ) (ctx : Context) (vars : List Param)
    → IsMapped ctx.arena
    → AreSmall vars
    → ctx.arena.offset + total vars ≤ ctx.arena.size
    → (ctx' : Context) × (args : List Param) × (pass_all mmap_identity ctx vars ≡ some (ctx', args))
unfolding pass_all
pass_all-some mmap_identity ctx [] m small fits = (ctx, [], refl)
pass_all-some mmap_identity ctx ((mode, host, n) ∷ vars) m (small, smalls) fits =
    let (ctx1, p, first, arena1, arena2) =
      pass-some mmap_identity ctx mode host n m small (omega arith) in
    let both = arena1 ∙ arena2 in
    let offset1 = ap (λ (a : Arena). a.offset) both in
    let size1 = ap (λ (a : Arena). a.size) both in
    let (ctx2, args, second) =
      pass_all-some mmap_identity ctx1 vars
        (subst IsMapped (sym arena1) (bump-IsMapped ctx.arena n m)) smalls
        (omega (arith, offset1, size1)) in
    (ctx2, (mode, p, n) ∷ args, rw (first, second) refl)
