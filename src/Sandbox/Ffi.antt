-- ===== src/Sandbox/Ffi.antt =====
-- `do_ffi_call` of src/pbox/pbox_sandbox.c.
use sbox.Prelude.{
  ℕ, zero, suc, ◌+◌, List, [], ◌∷◌, Option, some, ltb, get_or, drop, ◌>>=◌, ◌>>◌, check,
}
use sbox.Dyfn.Types.{of_code}
use sbox.Dyfn.Call.{Arch, Arg, DyfnCallArgs, DyfnCallResult, dyfn_prep_call, dyfn_store_result}
use sbox.Channel.{Channel, arg_storage_size}

-- The loop that finds the arguments, `n` of them from index `i` on; `none` is the failed `assert`.
unfoldable pub gather_args : Channel → ℕ → ℕ → Option (List Arg)
gather_args ch i zero = some []
gather_args ch i (suc n) = do
  let offset = get_or ch.args i 0
  check (ltb offset arg_storage_size)
  rest ← gather_args ch (i + 1) n
  some ((of_code (get_or ch.arg_types i 0), drop offset ch.arg_storage) ∷ rest)

-- The registers for the call that the channel asks for.
unfoldable pub ffi_registers : Arch → Channel → Option DyfnCallArgs
unfolding gather_args
ffi_registers arch ch = do
  args ← gather_args ch 0 ch.nargs
  some (dyfn_prep_call arch ch.func_addr (of_code ch.ret_type) args)

-- `dyfn_call` is the assembly of src/dyfn and the library function that it calls.
unfoldable pub do_ffi_call : Arch → (DyfnCallArgs → DyfnCallResult) → Channel → Option Channel
unfolding ffi_registers
do_ffi_call arch dyfn_call ch = do
  call ← ffi_registers arch ch
  let result = dyfn_store_result (dyfn_call call) (of_code ch.ret_type) ch.result_storage
  some (record ch { result_storage = result })
