-- ===== src/Lfi.antt =====
-- The LFI backend's calls, include/sbox/lfi.hh: arguments in registers and on the sandbox's stack.
-- The LFI runtime is a parameter.
pub mod Registers
pub mod Names
pub mod Idmem
pub mod Stage
pub mod Engine
pub mod Stack
use sbox.Prelude.{
  ℕ, zero, suc, ◌+◌, ◌-◌, ◌*◌, ◌/◌, ◌%◌, List, [], ◌∷◌, Bool, Option, some, none, if◌then◌else◌,
  ltb, ◌==◌, set, get_or, take, replicate, memcpy_to, size_mod,
}
use sbox.Dyfn.Call.{Arch, int_arg_regs, float_arg_regs, Word, zero_word}
use sbox.Copy.{Memory, write}
use sbox.Front.Types.{CppType, is_floating_point}
use sbox.Front.Check.{is_pointer}
use sbox.Front.Callback.{bytes_of}
use sbox.Front.Call.{is_void}

-- The argument registers of `LFIRegs`: the integer ones in the order of `set_int_arg`, and the
-- 64-bit halves of the vector registers.
pub record LfiRegs : Type 0 where
  pub int_regs : List Word
  pub vector : List Word
  pub sp : ℕ

unfoldable pub set_int_arg : LfiRegs → ℕ → Word → LfiRegs
set_int_arg regs index value = record regs { int_regs = set regs.int_regs index value }

unfoldable pub set_float_arg : LfiRegs → ℕ → Word → LfiRegs
set_float_arg regs index value = record regs { vector = set regs.vector (index * 2) value }

-- The registers, the `MarshalResult` and the two counters.
pub record Marshal : Type 0 where
  pub regs : LfiRegs
  pub stack_args : List Word
  pub n_stack : ℕ
  pub int_idx : ℕ
  pub float_idx : ℕ

-- `val`
unfoldable pub argument_word : CppType → List ℕ → Word
argument_word T arg = if is_pointer T then arg else memcpy_to zero_word 0 arg (bytes_of T)

unfoldable pub push_stack_arg : Marshal → Word → Marshal
push_stack_arg m val = record m {
  stack_args = set m.stack_args m.n_stack val;
  n_stack = m.n_stack + 1;
}

unfoldable pub marshal_arg : Arch → Marshal → CppType → List ℕ → Marshal
marshal_arg arch m T arg =
    let val = argument_word T arg in
    if is_floating_point T
    then if ltb m.float_idx float_arg_regs
      then record m { regs = set_float_arg m.regs m.float_idx val; float_idx = m.float_idx + 1 }
      else push_stack_arg m val
    else if ltb m.int_idx (int_arg_regs arch)
    then record m { regs = set_int_arg m.regs m.int_idx val; int_idx = m.int_idx + 1 }
    else push_stack_arg m val

unfoldable pub marshal_from : Arch → Marshal → List (CppType × List ℕ) → Marshal
marshal_from arch m [] = m
marshal_from arch m ((T, arg) ∷ args) = marshal_from arch (marshal_arg arch m T arg) args

-- `max_args` is 10.
unfoldable pub marshal_args_lfi : Arch → LfiRegs → List (CppType × List ℕ) → Marshal
marshal_args_lfi arch regs args =
    marshal_from arch
      (record {
        regs = regs;
        stack_args = replicate 10 zero_word;
        n_stack = 0;
        int_idx = 0;
        float_idx = 0;
      })
      args

-- The stores of `stage_stack_args`, `n` of them from the `i`-th on.
unfoldable pub store_stack_args : Memory → ℕ → List Word → ℕ → ℕ → Memory
store_stack_args mem at stack_args i zero = mem
store_stack_args mem at stack_args i (suc n) =
    store_stack_args (write mem (at + 8 * i) (get_or stack_args i zero_word)) at stack_args (i + 1)
      n

-- `(rsp - 8 * n_stack) & ~0xFULL`; the difference may wrap.
unfoldable pub staged_sp : ℕ → ℕ → ℕ
staged_sp sp n_stack = (sp + size_mod - 8 * n_stack) % size_mod / 16 * 16

unfoldable pub stage_stack_args : Memory → LfiRegs → List Word → ℕ → Memory × LfiRegs
stage_stack_args mem regs stack_args n_stack =
    let aligned = staged_sp regs.sp n_stack in
    if n_stack == 0
    then (mem, regs)
    else (store_stack_args mem aligned stack_args 0 n_stack, record regs { sp = aligned })

-- The value that `call_ptr` makes of the registers after the trampoline; none for void.
unfoldable pub return_value : CppType → LfiRegs → Option (List ℕ)
return_value Ret regs =
    if is_void Ret
    then none
    else if is_floating_point Ret
    then some (take (bytes_of Ret) (get_or regs.vector 0 zero_word))
    else if is_pointer Ret
    then some (get_or regs.int_regs 0 zero_word)
    else some (take (bytes_of Ret) (get_or regs.int_regs 0 zero_word))
