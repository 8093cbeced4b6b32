-- ===== src/Lfi/Stack/Blocks.antt =====
-- The blocks that an LFI context (include/sbox/lfi.hh) takes of the sandbox's stack.
use mathlib.Core.Path.{subst}
use sbox.Copy.{Memory}
use sbox.Prelude.{
  Bool, ◌⊎◌, inl, inr, ℕ, ◌+◌, ◌-◌, ◌*◌, ◌/◌, ◌%◌, ◌<◌, ◌≤◌, ◌≡◌, refl, sym, ◌∙◌, List, [], ◌∷◌,
  arith, size_mod, if◌then◌else◌, true, false,
}
use sbox.Front.Context.{Mode, out, in_value, inout}
use sbox.Lfi.Stack.{
  stack_push, LfiContext, LfiParam, lfi_context, lfi_push, lfi_out, lfi_in, lfi_inout, lfi_pass,
  lfi_pass_all, lfi_finalize, lfi_destroy,
}

-- Every block is aligned and lies below the one before it, the first below `sp`; `low` is where the
-- stack ends.
abbrev pub Descending : ℕ → ℕ → List LfiParam → List ℕ → Type 0
Descending sp low [] [] = low ≡ sp
Descending sp low [] (p ∷ ps) = ⊥
Descending sp low (v ∷ vars) [] = ⊥
Descending sp low ((mode, host, size, align) ∷ vars) (p ∷ ps) =
    (p % align ≡ 0) × (p + size ≤ sp) × Descending p low vars ps

-- The stack that variables take at most.
abbrev pub needed : List LfiParam → ℕ
needed [] = 0
needed ((mode, host, size, align) ∷ vars) = size + align + needed vars

-- The alignments of the fundamental types.
abbrev pub IsAlignment : ℕ → Type 0
IsAlignment a = (a ≡ 1) ⊎ (a ≡ 2) ⊎ (a ≡ 4) ⊎ (a ≡ 8) ⊎ (a ≡ 16)

abbrev pub AreAligned : List LfiParam → Type 0
AreAligned [] = Unit
AreAligned ((mode, host, size, align) ∷ vars) = IsAlignment align × AreAligned vars

-- One block.
abbrev OneBlock : ℕ → ℕ → ℕ → ℕ → Type 0
OneBlock sp size align p = (p % align ≡ 0) × (p + size ≤ sp) × (sp ≤ p + size + align)

stack_push_bounds :
    (sp size align : ℕ)
    → sp < size_mod
    → size + align ≤ sp
    → IsAlignment align
    → OneBlock sp size align (stack_push sp size align)
unfolding stack_push
stack_push_bounds sp size align lt room (inl e) =
    subst (λ (a : ℕ). OneBlock sp size a ((sp + size_mod - size) % size_mod / a * a)) (sym e)
      (omega arith)
stack_push_bounds sp size align lt room (inr (inl e)) =
    subst (λ (a : ℕ). OneBlock sp size a ((sp + size_mod - size) % size_mod / a * a)) (sym e)
      (omega arith)
stack_push_bounds sp size align lt room (inr (inr (inl e))) =
    subst (λ (a : ℕ). OneBlock sp size a ((sp + size_mod - size) % size_mod / a * a)) (sym e)
      (omega arith)
stack_push_bounds sp size align lt room (inr (inr (inr (inl e)))) =
    subst (λ (a : ℕ). OneBlock sp size a ((sp + size_mod - size) % size_mod / a * a)) (sym e)
      (omega arith)
stack_push_bounds sp size align lt room (inr (inr (inr (inr e)))) =
    subst (λ (a : ℕ). OneBlock sp size a ((sp + size_mod - size) % size_mod / a * a)) (sym e)
      (omega arith)

pass_moves :
    (ctx : LfiContext) (mode : Mode) (host size align : ℕ)
    → ((lfi_pass ctx (mode, host, size, align)).1 ≡ stack_push ctx.sp size align)
      × ((lfi_pass ctx (mode, host, size, align)).0.sp ≡ stack_push ctx.sp size align)
      × ((lfi_pass ctx (mode, host, size, align)).0.saved_sp ≡ ctx.saved_sp)
unfolding lfi_pass lfi_out lfi_in lfi_inout lfi_push
pass_moves ctx out host size align = (refl, refl, refl)
pass_moves ctx in_value host size align = (refl, refl, refl)
pass_moves ctx inout host size align = (refl, refl, refl)

pass_all_blocks :
    (ctx : LfiContext) (vars : List LfiParam)
    → ctx.sp < size_mod
    → needed vars ≤ ctx.sp
    → AreAligned vars
    → let (ctx', ps) = lfi_pass_all ctx vars in
      Descending ctx.sp ctx'.sp vars ps × (ctx'.saved_sp ≡ ctx.saved_sp)
unfolding lfi_pass_all
pass_all_blocks ctx [] lt room aligned = (refl, refl)
pass_all_blocks ctx ((mode, host, size, align) ∷ vars) lt room (here, aligned) =
    let (at, moved, kept) = pass_moves ctx mode host size align in
    let (boundary, below, close) = stack_push_bounds ctx.sp size align lt (omega arith) here in
    let ctx1 = (lfi_pass ctx (mode, host, size, align)).0 in
    let (rest, saved) = pass_all_blocks ctx1 vars (omega arith) (omega arith) aligned in
    (
      (
        rw at boundary,
        rw at below,
        subst
            (λ (q : ℕ). Descending q (lfi_pass_all ctx1 vars).0.sp vars (lfi_pass_all ctx1 vars).1)
            (moved ∙ sym at) rest,
      ),
      saved ∙ kept,
    )

lfi_destroy-sp : (ctx : LfiContext) → (lfi_destroy ctx).sp ≡ ctx.saved_sp
unfolding lfi_destroy lfi_finalize
lfi_destroy-sp ctx = kept ctx.finalized ctx _ refl
  where
    kept :
        (b : Bool) (c d : LfiContext)
        → c.saved_sp ≡ d.saved_sp
        → (if b then c else d).saved_sp ≡ c.saved_sp
    kept true c d e = refl
    kept false c d e = sym e

-- Variables of fundamental types, passed through a context on a stack with room for them, lie at
-- addresses with their alignments, each below the one before it and all below the stack pointer that the
-- context found; the destructor puts that stack pointer back.
pub lfi_pass_all-Descending :
    (sp : ℕ) (mem : Memory) (vars : List LfiParam)
    → sp < size_mod
    → needed vars ≤ sp
    → AreAligned vars
    → let (ctx', ps) = lfi_pass_all (lfi_context sp mem) vars in
      Descending sp ctx'.sp vars ps × ((lfi_destroy ctx').sp ≡ sp)
unfolding lfi_context
lfi_pass_all-Descending sp mem vars lt room aligned =
    let start : LfiContext = record {
      sp = sp;
      saved_sp = sp;
      mem = mem;
      copybacks = [];
      finalized = false;
    } in
    let (blocks, saved) = pass_all_blocks start vars lt room aligned in
    (blocks, lfi_destroy-sp (lfi_pass_all start vars).0 ∙ saved)
