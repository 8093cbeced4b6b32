-- ===== src/Front/Context/Equal.antt =====
-- A call through a process context (include/sbox/process.hh) has the effect of one through a
-- passthrough context (include/sbox/passthrough.hh).
use sbox.Prelude.{
  ℕ, ◌+◌, ◌<◌, ◌≤◌, ◌≡◌, ◌⊎◌, refl, sym, ◌∙◌, ap, ap₂, List, [], ◌∷◌, Bool, true, false, some,
  arith, if◌then◌else◌,
}
use mathlib.Core.Path.{subst}
use sbox.Idmem.{Arena}
use sbox.Idmem.Blocks.{IsMapped}
use sbox.Copy.{Memory}
use sbox.Front.Context.{
  Param, CopyBack, Context, out, in_value, inout, pass_all, run_copybacks, finalize, context_call,
  context, inputs, store_results, apply, passthrough_pass, passthrough_pass_all,
}
use sbox.Front.Context.Bound.{Outside}
use sbox.Front.Context.Results.{
  store_results_other, store_results-Holding, copy_back-eq, store_results-at,
}
use sbox.Front.Context.Room.{total, pass_all-some}
use sbox.Front.Context.Bindings.{
  Binding, hosts, blocks, Clear, AreSmall, Sized, Bound, pass_all-Bound,
}

passthrough-eq : (vars : List Param) → passthrough_pass_all vars ≡ vars
unfolding passthrough_pass_all passthrough_pass
passthrough-eq [] = refl
passthrough-eq ((mode, host, n) ∷ vars) =
    ap (λ (l : List Param). (mode, host, n) ∷ l) (passthrough-eq vars)

blocks_sized :
    (bs : List Binding) (values : List (List ℕ))
    → Sized (hosts bs) values
    → Sized (blocks bs) values
blocks_sized [] values h = tt
blocks_sized ((in_value, host, p, n) ∷ bs) values h = blocks_sized bs values h
blocks_sized ((out, host, p, n) ∷ bs) [] h = h
blocks_sized ((out, host, p, n) ∷ bs) (v ∷ values) (len, h) = (len, blocks_sized bs values h)
blocks_sized ((inout, host, p, n) ∷ bs) [] h = h
blocks_sized ((inout, host, p, n) ∷ bs) (v ∷ values) (len, h) = (len, blocks_sized bs values h)

unfinished : (b : Bool) (c d : Context) → b ≡ false → (j : ℕ) → (if b then c else d).mem j ≡ d.mem j
unfinished true c d e j = cc
unfinished false c d e j = refl

call_ctx-Bound :
    (arena : Arena) (mem : Memory) (bs : List Binding) (ctx' : Context)
    (fn : List (List ℕ) → List (List ℕ)) (j : ℕ)
    → Clear arena.base arena.size (hosts bs)
    → Sized (hosts bs) (fn (inputs (hosts bs) mem))
    → Bound (context arena mem) bs ctx'
    → Outside arena.base arena.size j
    → (context_call (apply fn (blocks bs)) ctx').mem j ≡ apply fn (hosts bs) mem j
unfolding context_call finalize apply context
call_ctx-Bound arena mem bs ctx' fn j clear sized bound h =
    let values = fn (inputs (hosts bs) mem) in
    let lo = arena.base + arena.offset in
    let mem2 = store_results (blocks bs) values ctx'.mem in
    let asc = bound.ascend in
    let blocked = blocks_sized bs values sized in
    let apart : (j < lo) ⊎ (arena.base + arena.size ≤ j) = ground arith in
    unfinished ctx'.finalized _ _ bound.flag j
    ∙ ap₂
        (λ (cbs : List CopyBack) (vs : List (List ℕ)).
          run_copybacks cbs (store_results (blocks bs) (fn vs) ctx'.mem) j)
        bound.backs bound.values
    ∙ ap (λ (m : Memory). m j)
        (copy_back-eq arena.base arena.size lo bs values mem2 (omega arith) asc clear sized
          (store_results-Holding lo (arena.base + arena.size) bs values ctx'.mem asc blocked))
    ∙ store_results-at (hosts bs) values mem2 mem j (
        store_results_other lo (arena.base + arena.size) bs values ctx'.mem j asc blocked apart
        ∙ bound.outside j apart)

-- A fresh context has the arena that it is given.
mapped : (arena : Arena) (mem : Memory) → IsMapped arena → IsMapped (context arena mem).arena
unfolding context
mapped arena mem m = m

fits :
    (arena : Arena) (mem : Memory) (vars : List Param)
    → arena.offset + total vars ≤ arena.size
    → (context arena mem).arena.offset + total vars ≤ (context arena mem).arena.size
unfolding context
fits arena mem vars h = h

clears :
    (arena : Arena) (mem : Memory) (vars : List Param)
    → Clear arena.base arena.size vars
    → Clear (context arena mem).arena.base (context arena mem).arena.size vars
unfolding context
clears arena mem vars h = h

-- Variables of less than 2^63 bytes each, outside a mapped arena that has room for them, are passed to
-- a function that reads those passed by `in` and `inout` and leaves a value of the right size for
-- each passed by `out` and `inout`. Through a fresh process context no allocation fails, and after
-- the call any byte `j` outside the arena is what it is after the same call through a passthrough
-- context, where the function works on the variables themselves.
pub contexts_agree :
    (mmap_identity : ℕ → ℕ) (arena : Arena) (mem : Memory) (vars : List Param)
    (fn : List (List ℕ) → List (List ℕ)) (j : ℕ)
    → IsMapped arena
    → AreSmall vars
    → arena.offset + total vars ≤ arena.size
    → Clear arena.base arena.size vars
    → Sized vars (fn (inputs vars mem))
    → Outside arena.base arena.size j
    → (ctx' : Context) × (args : List Param) × (pass_all mmap_identity (context arena mem) vars
        ≡ some (ctx', args))
      × ((context_call (apply fn args) ctx').mem j ≡ apply fn (passthrough_pass_all vars) mem j)
contexts_agree mmap_identity arena mem vars fn j m small room clear sized h =
    let (ctx', args, passed) =
      pass_all-some mmap_identity (context arena mem) vars (mapped arena mem m) small
        (fits arena mem vars room) in
    let (bs, are_hosts, are_blocks, bound) =
      pass_all-Bound mmap_identity (context arena mem) ctx' vars args (mapped arena mem m) small
        (clears arena mem vars clear) passed in
    (
      ctx',
      args,
      passed,
      ap (λ (l : List Param). (context_call (apply fn l) ctx').mem j) are_blocks
          ∙ call_ctx-Bound arena mem bs ctx' fn j
              (subst (Clear arena.base arena.size) are_hosts clear)
              (subst (λ (l : List Param). Sized l (fn (inputs l mem))) are_hosts sized) bound h
          ∙ ap (λ (l : List Param). apply fn l mem j) (sym are_hosts ∙ sym (passthrough-eq vars)),
    )
