-- ===== src/Lfi/Stack.antt =====
-- Threads and the sandbox's stack in the LFI backend: `get_thread_ctx`, `stack_push`, `stack_save`,
-- `stack_restore` (src/sbox_lfi.cc), `call_ptr` and `CallContext<LFI>` (include/sbox/lfi.hh).
pub mod Blocks
pub mod Contexts
use sbox.Prelude.{
  ℕ, ◌+◌, ◌-◌, ◌/◌, ◌*◌, ◌%◌, List, [], ◌∷◌, ◌++◌, Bool, true, false, Option, some, none,
  if◌then◌else◌, ◌==◌, size_mod, ◌>>=◌,
}
use sbox.Copy.{Memory}
use sbox.Dyfn.Call.{Arch}
use sbox.Front.Types.{CppType}
use sbox.Front.Context.{Mode, CopyBack, out, in_value, inout, assign, run_copybacks}
use sbox.Lfi.{LfiRegs, marshal_args_lfi, stage_stack_args, return_value}

-- A thread's entries: boxes with their contexts; NULL is 0.
abbrev pub Entries : Type 0
Entries = List (ℕ × ℕ)

unfoldable pub entry_of : ℕ → Entries → Option ℕ
entry_of box [] = none
entry_of box ((b, ctx) ∷ rest) = if b == box then some ctx else entry_of box rest

unfoldable pub set_entry : ℕ → ℕ → Entries → Entries
set_entry box ctx [] = []
set_entry box ctx ((b, old) ∷ rest) =
    let behind = set_entry box ctx rest in if b == box then (b, ctx) ∷ rest else (b, old) ∷ behind

-- Past the search. `main_ctx` is what `lfi_thread_ctxp` points to, and `is_main` says that this is the
-- thread that created the sandbox.
unfoldable pub found_entry : ℕ → Bool → ℕ → Entries → Option ℕ → Entries × ℕ
found_entry box is_main main_ctx entries (some ctx) = (entries, ctx)
found_entry box is_main main_ctx entries none =
    let ctx = if is_main then main_ctx else 0 in (entries ++ ((box, ctx) ∷ []), ctx)

-- The entries, and the context in the box's entry.
unfoldable pub get_thread_ctx : ℕ → Bool → ℕ → Entries → Entries × ℕ
get_thread_ctx box is_main main_ctx entries =
    found_entry box is_main main_ctx entries (entry_of box entries)

-- What `call_ptr` does about a context that is missing; `clone` is what `lfi_clone` stores, and `none`
-- is the call to `abort`.
unfoldable pub clone_if_missing : ℕ → ℕ → Entries × ℕ → Option (Entries × ℕ)
clone_if_missing box clone (entries, ctx) =
    if ctx == 0
    then if clone == 0 then none else some (set_entry box clone entries, clone)
    else some (entries, ctx)

unfoldable pub call_ctx : ℕ → Bool → ℕ → ℕ → Entries → Option (Entries × ℕ)
call_ctx box is_main main_ctx clone entries =
    clone_if_missing box clone (get_thread_ctx box is_main main_ctx entries)

-- `(sp - size) & ~(align - 1)` for an alignment that is a power of two; the difference may wrap.
unfoldable pub stack_push : ℕ → ℕ → ℕ → ℕ
stack_push sp size align = (sp + size_mod - size) % size_mod / align * align

-- `call_ptr` on the context's registers and the memory; `trampoline` is what the sandbox does.
unfoldable pub call_ptr :
    Arch
    → (Memory × LfiRegs → Memory × LfiRegs)
    → Memory
    → LfiRegs
    → CppType
    → List (CppType × List ℕ)
    → (Memory × LfiRegs) × Option (List ℕ)
call_ptr arch trampoline mem regs Ret args =
    let m = marshal_args_lfi arch regs args in
    let saved_sp = m.regs.sp in
    let (mem', regs') = trampoline (stage_stack_args mem m.regs m.stack_args m.n_stack) in
    let restored = record regs' { sp = saved_sp } in ((mem', restored), return_value Ret restored)

-- `CallContext<LFI>`, with the stack pointer of the thread's context and the memory.
pub record LfiContext : Type 0 where
  pub sp : ℕ
  pub saved_sp : ℕ
  pub mem : Memory
  pub copybacks : List CopyBack
  pub finalized : Bool

unfoldable pub lfi_context : ℕ → Memory → LfiContext
lfi_context sp mem = record { sp = sp; saved_sp = sp; mem = mem; copybacks = []; finalized = false }

unfoldable pub lfi_push : LfiContext → ℕ → ℕ → LfiContext × ℕ
lfi_push ctx size align = let p = stack_push ctx.sp size align in (record ctx { sp = p }, p)

unfoldable pub lfi_out : LfiContext → ℕ → ℕ → ℕ → LfiContext × ℕ
lfi_out ctx host size align =
    let (ctx1, p) = lfi_push ctx size align in
    (record ctx1 { copybacks = ctx1.copybacks ++ ((host, p, size) ∷ []) }, p)

unfoldable pub lfi_in : LfiContext → ℕ → ℕ → ℕ → LfiContext × ℕ
lfi_in ctx host size align =
    let (ctx1, p) = lfi_push ctx size align in
    (record ctx1 { mem = assign ctx1.mem p host size }, p)

unfoldable pub lfi_inout : LfiContext → ℕ → ℕ → ℕ → LfiContext × ℕ
lfi_inout ctx host size align =
    let (ctx1, p) = lfi_push ctx size align in
    (
      record ctx1 {
        mem = assign ctx1.mem p host size;
        copybacks = ctx1.copybacks ++ ((host, p, size) ∷ []);
      },
      p,
    )

unfoldable pub lfi_finalize : LfiContext → LfiContext
lfi_finalize ctx =
    if ctx.finalized
    then ctx
    else record ctx { finalized = true; mem = run_copybacks ctx.copybacks ctx.mem }

-- `~CallContext`
unfoldable pub lfi_destroy : LfiContext → LfiContext
lfi_destroy ctx = let done = lfi_finalize ctx in record done { sp = done.saved_sp }

-- A variable that is passed: its mode, its address, and its type's size and alignment.
abbrev pub LfiParam : Type 0
LfiParam = Mode × ℕ × ℕ × ℕ

unfoldable pub lfi_pass : LfiContext → LfiParam → LfiContext × ℕ
lfi_pass ctx (out, host, size, align) = lfi_out ctx host size align
lfi_pass ctx (in_value, host, size, align) = lfi_in ctx host size align
lfi_pass ctx (inout, host, size, align) = lfi_inout ctx host size align

unfoldable pub lfi_pass_all : LfiContext → List LfiParam → LfiContext × List ℕ
lfi_pass_all ctx [] = (ctx, [])
lfi_pass_all ctx (v ∷ vars) =
    let (ctx1, p) = lfi_pass ctx v in let (ctx2, ps) = lfi_pass_all ctx1 vars in (ctx2, p ∷ ps)
