-- ===== src/Front/Context.antt =====
-- The call contexts: `CallContext<Process>` of include/sbox/process.hh and `CallContext<Passthrough>`
-- of include/sbox/passthrough.hh.
pub mod Bound
pub mod Bindings
pub mod Room
pub mod Results
pub mod Reuse
pub mod Equal
use sbox.Prelude.{
  ℕ, ◌+◌, List, [], ◌∷◌, ◌++◌, Bool, true, false, Option, some, none, if◌then◌else◌, ◌==◌, ◌>>=◌,
}
use sbox.Idmem.{Arena, idmem_alloc, idmem_reset}
use sbox.Copy.{Memory, write, read}

-- How a variable is passed. `in_value` is the source's `in`.
pub data Mode : Type 0 where
  out in_value inout : Mode

-- A variable, or the pointer that stands for it: its mode, its address and its type's size.
abbrev pub Param : Type 0
Param = Mode × ℕ × ℕ

-- What a copy-back captures: `host_ptr`, `idmem_ptr`, and the size.
abbrev pub CopyBack : Type 0
CopyBack = ℕ × ℕ × ℕ

-- A context, with the thread's arena and the memory that it works on.
pub record Context : Type 0 where
  pub arena : Arena
  pub mem : Memory
  pub copybacks : List CopyBack
  pub finalized : Bool

-- `context()`
unfoldable pub context : Arena → Memory → Context
context arena mem = record { arena = arena; mem = mem; copybacks = []; finalized = false }

-- `*dst = *src` on objects of `n` bytes.
unfoldable pub assign : Memory → ℕ → ℕ → ℕ → Memory
assign mem dst src n = write mem dst (read mem src n)

-- `if (!idmem_ptr) throw`; `none` is the exception.
unfoldable pub grant : Context → Arena × ℕ → Option (Context × ℕ)
grant ctx (arena, p) = if p == 0 then none else some (record ctx { arena = arena }, p)

unfoldable pub allocate : (ℕ → ℕ) → Context → ℕ → Option (Context × ℕ)
allocate mmap_identity ctx n = grant ctx (idmem_alloc mmap_identity ctx.arena n)

unfoldable pub push_copyback : Context → CopyBack → Context
push_copyback ctx cb = record ctx { copybacks = ctx.copybacks ++ (cb ∷ []) }

unfoldable pub pass_out : (ℕ → ℕ) → Context → ℕ → ℕ → Option (Context × ℕ)
pass_out mmap_identity ctx host n = do
  (ctx1, p) ← allocate mmap_identity ctx n
  some (push_copyback ctx1 (host, p, n), p)

unfoldable pub pass_in : (ℕ → ℕ) → Context → ℕ → ℕ → Option (Context × ℕ)
pass_in mmap_identity ctx host n = do
  (ctx1, p) ← allocate mmap_identity ctx n
  some (record ctx1 { mem = assign ctx1.mem p host n }, p)

unfoldable pub pass_inout : (ℕ → ℕ) → Context → ℕ → ℕ → Option (Context × ℕ)
pass_inout mmap_identity ctx host n = do
  (ctx1, p) ← allocate mmap_identity ctx n
  let copied = record ctx1 { mem = assign ctx1.mem p host n }
  some (push_copyback copied (host, p, n), p)

unfoldable pub run_copybacks : List CopyBack → Memory → Memory
run_copybacks [] mem = mem
run_copybacks ((host, p, n) ∷ rest) mem = run_copybacks rest (assign mem host p n)

unfoldable pub finalize : Context → Context
finalize ctx =
    if ctx.finalized
    then ctx
    else record ctx { finalized = true; mem = run_copybacks ctx.copybacks ctx.mem }

-- `~CallContext`
unfoldable pub destroy : Context → Context
destroy ctx = let done = finalize ctx in record done { arena = idmem_reset done.arena }

-- `call(ctx, name, args...)`; `run` is what the call does to the memory.
unfoldable pub context_call : (Memory → Memory) → Context → Context
context_call run ctx = finalize (record ctx { mem = run ctx.mem })

-- The arguments of one call, in their order, and the pointers that they are passed as.
unfoldable pub pass : (ℕ → ℕ) → Context → Param → Option (Context × ℕ)
pass mmap_identity ctx (out, host, n) = pass_out mmap_identity ctx host n
pass mmap_identity ctx (in_value, host, n) = pass_in mmap_identity ctx host n
pass mmap_identity ctx (inout, host, n) = pass_inout mmap_identity ctx host n

unfoldable pub pass_all : (ℕ → ℕ) → Context → List Param → Option (Context × List Param)
pass_all mmap_identity ctx [] = some (ctx, [])
pass_all mmap_identity ctx ((mode, host, n) ∷ vars) = do
  (ctx1, p) ← pass mmap_identity ctx (mode, host, n)
  (ctx2, args) ← pass_all mmap_identity ctx1 vars
  some (ctx2, (mode, p, n) ∷ args)

-- `CallContext<Passthrough>` hands out the variables' own addresses.
unfoldable pub passthrough_pass : Param → ℕ
passthrough_pass (mode, host, n) = host

unfoldable pub passthrough_pass_all : List Param → List Param
passthrough_pass_all [] = []
passthrough_pass_all ((mode, host, n) ∷ vars) =
    (mode, passthrough_pass (mode, host, n), n) ∷ passthrough_pass_all vars

-- A library function that gets its values and leaves its results through the pointers.
unfoldable pub inputs : List Param → Memory → List (List ℕ)
inputs [] mem = []
inputs ((out, p, n) ∷ args) mem = inputs args mem
inputs ((in_value, p, n) ∷ args) mem = read mem p n ∷ inputs args mem
inputs ((inout, p, n) ∷ args) mem = read mem p n ∷ inputs args mem

unfoldable pub store_results : List Param → List (List ℕ) → Memory → Memory
store_results [] values mem = mem
store_results ((in_value, p, n) ∷ args) values mem = store_results args values mem
store_results ((out, p, n) ∷ args) [] mem = mem
store_results ((out, p, n) ∷ args) (v ∷ values) mem = store_results args values (write mem p v)
store_results ((inout, p, n) ∷ args) [] mem = mem
store_results ((inout, p, n) ∷ args) (v ∷ values) mem = store_results args values (write mem p v)

unfoldable pub apply : (List (List ℕ) → List (List ℕ)) → List Param → Memory → Memory
apply fn args mem = store_results args (fn (inputs args mem)) mem
