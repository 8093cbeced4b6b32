-- ===== src/Tests/Calls.antt =====
-- Calls into the sandbox at concrete arguments (src/pbox/pbox.c, src/pbox/pbox_sandbox.c,
-- src/dyfn/dyfn.c).
use sbox.Prelude.{memcpy_to, ◌≡◌, refl, List, [], ◌∷◌, some, take, replicate, ℤ, arith, true}
use sbox.Dyfn.Call.{store_word, Arch, Arg, DyfnCallArgs, DyfnCallResult, zero_word, dyfn_prep_call}
use sbox.Dyfn.Types.{
  in_float_file, dyfn_classify, PBoxType, DyfnType, code, of_code, pbox_type_size, dyfn_type_size,
}
use sbox.Dyfn.Place.{Placed, words_of}
use sbox.Dyfn.Fill.{prep_call-Placed}
use sbox.Dyfn.Store.{IsResult, result_bytes}
use sbox.Channel.{Channel, State, Request}
use sbox.Channel.Pack.{IsShaped}
use sbox.Call.{HostArg, pbox_call}
use sbox.Call.Packing.{Ready}
use sbox.Call.Deliver.{Delivered}
use sbox.Call.Result.{pbox_call-returns}
use sbox.Sandbox.Ffi.{do_ffi_call}

-- A channel as the host maps it.
abbrev pub channel : Channel
channel = record {
  state = State.idle;
  sandbox_channel_addr = 0;
  request_type = Request.dlsym;
  func_addr = 0;
  nargs = 0;
  ret_type = 0;
  arg_types = replicate 10 0;
  args = replicate 10 0;
  symbol_name = replicate 256 0;
  symbol_addr = 0;
  received_fd = ℤ.pos 0;
  worker_shm_fd = ℤ.pos 0;
  closure_callback_id = ℤ.pos 0;
  closure_nargs = 0;
  closure_ret_type = 0;
  closure_arg_types = replicate 10 0;
  closure_addr = 0;
  callback_id = ℤ.pos 0;
  arg_storage = replicate 1024 0;
  result_storage = replicate 32 0;
  mem_storage = replicate 4096 0;
}

pub channel-IsShaped : IsShaped channel
channel-IsShaped = record {
  args_len = refl;
  storage_len = refl;
  types_len = refl;
  result_len = refl;
}

-- Eight integers and two floating-point numbers: on x86-64 two integers spill.
abbrev host_args : List HostArg
host_args =
    (PBoxType.sint32, 1 ∷ 2 ∷ 3 ∷ 4 ∷ [])
    ∷ (PBoxType.double, 9 ∷ 9 ∷ 9 ∷ 9 ∷ 9 ∷ 9 ∷ 9 ∷ 9 ∷ [])
    ∷ (PBoxType.uint8, 5 ∷ [])
    ∷ (PBoxType.uint8, 6 ∷ [])
    ∷ (PBoxType.float, 7 ∷ 7 ∷ 7 ∷ 7 ∷ [])
    ∷ (PBoxType.uint8, 8 ∷ [])
    ∷ (PBoxType.uint8, 10 ∷ [])
    ∷ (PBoxType.uint16, 11 ∷ 12 ∷ [])
    ∷ (PBoxType.uint8, 13 ∷ [])
    ∷ (PBoxType.uint8, 14 ∷ [])
    ∷ []

host_args-Ready : Ready host_args
unfolding pbox_type_size
host_args-Ready = omega arith

-- The library function returns its result in the integer register.
abbrev answer : DyfnCallArgs → DyfnCallResult
answer call = record { int_val = 42 ∷ 0 ∷ 0 ∷ 0 ∷ 0 ∷ 0 ∷ 0 ∷ 0 ∷ []; float_val = zero_word }

answer-IsResult : (call : DyfnCallArgs) → IsResult (answer call)
answer-IsResult call = record { int_len = refl; float_len = refl }

pbox_call-returns_example :
    (call : DyfnCallArgs) × Delivered Arch.x86_64 4096 host_args call
    × ((ch' : Channel) × (pbox_call
            (do_ffi_call Arch.x86_64 answer)
            (some channel)
            4096
            PBoxType.sint32
            host_args
            true
          ≡ some (some ch', some (result_bytes (of_code (code PBoxType.sint32)) (answer call))))
        × (ch'.state ≡ State.idle)
        × IsShaped ch')
pbox_call-returns_example =
    pbox_call-returns Arch.x86_64 answer channel 4096 PBoxType.sint32 host_args true answer-IsResult
      channel-IsShaped tt host_args-Ready (omega arith)

abbrev args : List Arg
args =
    (DyfnType.sint32, 1 ∷ 2 ∷ 3 ∷ 4 ∷ [])
    ∷ (DyfnType.double, 9 ∷ 9 ∷ 9 ∷ 9 ∷ 9 ∷ 9 ∷ 9 ∷ 9 ∷ [])
    ∷ (DyfnType.uint8, 5 ∷ [])
    ∷ (DyfnType.uint8, 6 ∷ [])
    ∷ (DyfnType.uint8, 7 ∷ [])
    ∷ (DyfnType.uint8, 8 ∷ [])
    ∷ (DyfnType.uint8, 9 ∷ [])
    ∷ (DyfnType.uint16, 11 ∷ 12 ∷ [])
    ∷ []

prep_call-Placed_example :
    Placed Arch.x86_64 0 0 args (words_of (dyfn_prep_call Arch.x86_64 4096 DyfnType.void args))
prep_call-Placed_example = prep_call-Placed Arch.x86_64 4096 DyfnType.void args (omega arith)

-- The seventh integer is the first word on the stack.
spilled :
    take 1 (dyfn_prep_call Arch.x86_64 4096 DyfnType.void args).stack_args
    ≡ (11 ∷ 12 ∷ 0 ∷ 0 ∷ 0 ∷ 0 ∷ 0 ∷ 0 ∷ []) ∷ []
unfolding dyfn_prep_call in_float_file dyfn_classify store_word memcpy_to dyfn_type_size
spilled = refl
