-- ===== src/Tests/Contexts.antt =====
-- Contexts, pointers and memory of the front ends on concrete inputs (include/sbox/).
use sbox.Prelude.{
  get_or, ◌==◌, ◌*◌, ℕ, ◌+◌, ◌^◌, ◌≡◌, ◌↔◌, ◌⊎◌, inl, inr, refl, List, [], ◌∷◌, false, some, arith,
  if◌then◌else◌, pos, negsuc, none, true, Option,
}
use sbox.Idmem.{Arena, default_size}
use sbox.Idmem.Blocks.{IsMapped}
use sbox.Idmem.Member.{Covers, Some}
use sbox.Copy.{Memory, read, write}
use sbox.Front.Context.{
  Param, Context, out, in_value, inout, context, pass_all, push_copyback, context_call, inputs,
  apply, passthrough_pass_all, store_results, passthrough_pass,
}
use sbox.Front.Context.Equal.{contexts_agree}
use sbox.Front.Context.Reuse.{context_call-again}
use sbox.Front.Memory.{verify, verify_iff, verify_wraps}
use sbox.Dyfn.Types.{PBoxType, code, of_code}
use sbox.Dyfn.Call.{Arch, DyfnCallArgs, DyfnCallResult, zero_word}
use sbox.Dyfn.Store.{result_bytes}
use sbox.Dyfn.Closure.{Closures}
use sbox.Channel.{Channel, State}
use sbox.Channel.Pack.{IsShaped}
use sbox.Call.Deliver.{Delivered}
use sbox.Sandbox.Dispatch.{Environment, Message, served_channel}
use sbox.Tests.Calls.{channel, channel-IsShaped}
use sbox.Wrappers.{Symbols}
use sbox.Call.{pbox_call}
use sbox.Wrappers.Calls.{Request, mmap, request, arguments, request-returns}
use sbox.Passthrough.{PassthroughArena}
use sbox.Passthrough.Arena.{alloc_all, InOrder, alloc_all-InOrder}

abbrev arena : Arena
arena = record { base = 0x700000000000; size = default_size; offset = 64 }

arena-IsMapped : IsMapped arena
arena-IsMapped = record {
  mapped = omega arith;
  fits = omega arith;
  sized = refl;
  within = omega arith;
  aligned = refl;
}

-- Every byte is its address, cut off.
abbrev mem : Memory
mem a = if a == 4096 then 5 else if a == 4104 then 6 else 0

-- A variable of two bytes that goes in and out, one that goes in, and one that comes out.
abbrev vars : List Param
vars = (inout, 4096, 2) ∷ (in_value, 4104, 1) ∷ (out, 4112, 3) ∷ []

-- The function exchanges what it can.
abbrev fn : List (List ℕ) → List (List ℕ)
fn vs = (get_or (get_or vs 1 []) 0 0 ∷ 1 ∷ []) ∷ (get_or (get_or vs 0 []) 0 0 ∷ 2 ∷ 3 ∷ []) ∷ []

contexts_agree_example :
    (ctx' : Context) × (args : List Param) × (pass_all (λ n. 0) (context arena mem) vars
      ≡ some (ctx', args))
    × ((context_call (apply fn args) ctx').mem 4112 ≡ apply fn (passthrough_pass_all vars) mem 4112)
contexts_agree_example =
    contexts_agree (λ n. 0) arena mem vars fn 4112 arena-IsMapped (omega arith) (omega arith)
      (inl (omega arith), (inl (omega arith), (inl (omega arith), tt))) ((refl, (refl, tt)))
      (inl (omega arith))

-- The passthrough call leaves the first variable's byte in the third.
direct : apply fn (passthrough_pass_all vars) mem 4112 ≡ 5
unfolding apply passthrough_pass_all inputs read store_results write passthrough_pass
direct = refl

context_call-again_example :
    (context_call
      (λ m a. 9)
      (push_copyback (context_call (λ m. m) (context arena mem)) (4096, 0x700000000040, 2))).mem
    ≡ (λ a. 9)
context_call-again_example =
    context_call-again (λ m. m) (λ m a. 9) (context arena mem) (4096, 0x700000000040, 2)

verify_iff_example :
    ((verify (arena ∷ []) 0x700000000010 4 8 ≡ none)
      ⊎ (verify (arena ∷ []) 0x700000000010 4 8 ≡ some 0x700000000010))
    × ((verify (arena ∷ []) 0x700000000010 4 8 ≡ some 0x700000000010)
        ↔ ((◌≡◌ {A = ℕ} 0x700000000010 0) ⊎ Some (Covers 0x700000000010 (4 * 8)) (arena ∷ [])))
verify_iff_example = verify_iff (arena ∷ []) 0x700000000010 4 8 (omega arith) (omega arith)

-- 2^62 + 1 ints of four bytes wrap to four bytes.
verify_wraps_example :
    (verify (arena ∷ []) 0x700000000010 4 (2 ^ 62 + 1) ≡ some 0x700000000010)
    × ¬ (Some (Covers 0x700000000010 (4 * (2 ^ 62 + 1))) (arena ∷ []))
verify_wraps_example =
    verify_wraps (arena ∷ []) 0x700000000010 4 (2 ^ 62 + 1) (omega arith) (omega arith)
      (omega arith) (inl (omega arith))

abbrev answer : DyfnCallArgs → DyfnCallResult
answer regs = record { int_val = 42 ∷ 0 ∷ 0 ∷ 0 ∷ 0 ∷ 0 ∷ 0 ∷ 0 ∷ []; float_val = zero_word }

abbrev env : Environment
env = record {
  arch = Arch.x86_64;
  dlsym = λ s. 0;
  dyfn_call = answer;
  message = Message.failed;
  stubs = λ n. 0;
}

abbrev closures : Closures
closures = record { info = []; count = 0 }

abbrev syms : Symbols
syms = record {
  sym_mmap = 1;
  sym_munmap = 2;
  sym_malloc = 3;
  sym_calloc = 4;
  sym_realloc = 5;
  sym_free = 6;
}

-- mmap(NULL, 4096, 3, 34, -1, 0)
abbrev anonymous : Request
anonymous = mmap 0 4096 (pos 3) (pos 34) (negsuc 0) (negsuc 0) 0

-- A sandbox that does not answer.
abbrev silent : Channel → Option Channel
silent ch = none

request-returns_example :
    (request silent none syms anonymous
      ≡ pbox_call silent none 1 PBoxType.pointer (arguments anonymous) true)
    × (regs : DyfnCallArgs) × Delivered env.arch 1 (arguments anonymous) regs
    × ((ch' : Channel) × (request (served_channel env false closures) (some channel) syms anonymous
          ≡ some (
            some ch',
            some (result_bytes (of_code (code PBoxType.pointer)) (env.dyfn_call regs)),
          ))
        × (ch'.state ≡ State.idle)
        × IsShaped ch')
request-returns_example =
    request-returns env false closures channel syms anonymous silent none
      (λ regs. record { int_len = refl; float_len = refl }) channel-IsShaped (λ e. omega arith)
      (inl refl)

abbrev thread_arena : PassthroughArena
thread_arena = record { base = 0x600000; offset = 3 }

-- A block of 8 bytes, one too large, and one of 4 bytes.
abbrev requests : List (ℕ × ℕ)
requests = (8, 8) ∷ (65536, 16) ∷ (4, 4) ∷ []

alloc_all-InOrder_example :
    InOrder 0x600000 (0x600000 + 3) requests (alloc_all thread_arena requests).1
alloc_all-InOrder_example =
    alloc_all-InOrder thread_arena requests
      (record { made = omega arith; fits = omega arith; boundary = refl; within = omega arith })
      (
        omega arith,
        inr (inr (inr (inl refl))),
        (omega arith, inr (inr (inr (inr refl))), (omega arith, inr (inr (inl refl)), tt)),
      )
