-- ===== src/Tests/Closures.antt =====
-- Callbacks out of the sandbox at concrete arguments (src/pbox/pbox.c, src/pbox/pbox_sandbox.c,
-- src/dyfn/dyfn.c).
use sbox.Front.Types.{int, uint, uchar, pbox_type_v, size_of}
use sbox.Front.Call.{Signature, is_void}
use sbox.Front.Callback.{bytes_of, callback_dispatch, answer_callback, register_cpp_callback}
use sbox.Front.Delivered.{Matches, value_of, register}
use sbox.Front.Round.{Code, callback_round}
use sbox.Sandbox.Dispatch.{
  ClosureResult, closure_dispatch, Environment, Message, Served, dispatch_round,
}
use sbox.Dyfn.Types.{
  DyfnClass, code, of_code, in_float_file, dyfn_classify, PBoxType, DyfnType, dyfn_type_size,
}
use sbox.Prelude.{
  length, take, true, ℕ, ◌<◌, ◌≡◌, refl, List, [], ◌∷◌, some, map, get_or, replicate, pos, arith,
  ◌+◌,
}
use sbox.Callback.{
  run_callback, read_offsets, Registry, Registered, called, killed, no_callback, closure_request,
  dispatch_callback,
}
use sbox.Dyfn.Call.{Arch, Arg, zero_word}
use sbox.Dyfn.Place.{Placed, Backed}
use sbox.Dyfn.Closure.{Closures, no_info}
use sbox.Channel.{Channel, State}
use sbox.Sandbox.Extract.{SavedRegs}
use sbox.Sandbox.Recover.{saved_word}
use sbox.Callback.Register.{registered_slot, register_callback_taken, register_callback_failed}
use sbox.Callback.Guarded.{InStorage, offsets_of, dispatch_callback-called}
use sbox.Callback.Register
use sbox.Dyfn.Closure
use sbox.Front.Arrays.{AreMapped}
use sbox.Front.Registration.{crossing, entry_of, sandbox_side}
use sbox.Front.Registered.{registered_round}
use sbox.Tests.Calls.{channel, channel-IsShaped}

abbrev args : List Arg
args = (DyfnType.uint32, 1 ∷ 2 ∷ 3 ∷ 4 ∷ []) ∷ (DyfnType.uint8, 5 ∷ []) ∷ []

abbrev saved : SavedRegs
saved = record {
  int_regs =
      (1 ∷ 2 ∷ 3 ∷ 4 ∷ 0 ∷ 0 ∷ 0 ∷ 0 ∷ [])
      ∷ (5 ∷ 0 ∷ 0 ∷ 0 ∷ 0 ∷ 0 ∷ 0 ∷ 0 ∷ [])
      ∷ replicate 6 zero_word;
  float_regs = replicate 8 zero_word;
  stack_args = replicate 4 zero_word;
  stub_index = 1;
}

saved-Placed : Placed Arch.x86_64 0 0 args (saved_word saved)
unfolding dyfn_type_size dyfn_classify in_float_file
saved-Placed = (refl, (refl, tt))

args-Backed : Backed args
unfolding dyfn_type_size
args-Backed = omega arith

abbrev free_slots : Closures
free_slots = record { info = replicate 64 no_info; count = 1 }

-- The slots when slot 1 belongs to callback 0.
abbrev filled : Closures
filled = record {
  info =
      no_info
      ∷ record {
        callback_id = pos 0;
        nargs = 2;
        arg_types = DyfnType.uint32 ∷ DyfnType.uint8 ∷ [];
        ret_type = DyfnType.void;
        active = true;
      }
      ∷ replicate 62 no_info;
  count = 2;
}

abbrev registry : Registry
registry = record {
  callbacks =
      record {
        func_ptr = 500;
        dispatch = 600;
        ret_type = PBoxType.void;
        nargs = 2;
        arg_types = PBoxType.uint32 ∷ PBoxType.uint8 ∷ [];
        sandbox_closure = 4097;
      }
      ∷ replicate 63 no_callback;
  count = 1;
}

registry-IsValid : Register.IsValid registry
registry-IsValid = record { slots = refl; in_range = omega arith }

-- The same slot, for a callback with a result.
abbrev answering : Closures
answering = record {
  info =
      no_info
      ∷ record {
        callback_id = pos 0;
        nargs = 2;
        arg_types = DyfnType.uint32 ∷ DyfnType.uint8 ∷ [];
        ret_type = DyfnType.sint32;
        active = true;
      }
      ∷ replicate 62 no_info;
  count = 2;
}

-- int callback(unsigned int, unsigned char)
abbrev signature : Signature
signature = record { ret = int; params = uint ∷ uchar ∷ [] }

-- It returns its first argument's bytes.
abbrev first_of : List (List ℕ) → List ℕ
first_of vs = get_or vs 0 []

abbrev host_code : Code
host_code dispatch func_ptr = callback_dispatch signature first_of

abbrev untouched : ClosureResult
untouched = record {
  int_val = replicate 8 0;
  float_val = replicate 8 0;
  ret_class = DyfnClass.void;
}

args-Matches : Matches signature.params args
unfolding pbox_type_v of_code code
args-Matches = ((PBoxType.uint32, refl, refl), ((PBoxType.uint8, refl, refl), tt))

value_sized : length (first_of (map value_of args)) ≡ bytes_of signature.ret
unfolding bytes_of size_of dyfn_type_size
value_sized = refl

callback_round_example :
    (ch' : Channel) × (result' : ClosureResult) × (closure_dispatch Arch.x86_64 answering
        (answer_callback host_code registry)
        saved
        (some channel)
        untouched
      ≡ (some ch', result'))
    × (ch'.state ≡ State.request)
    × (take (bytes_of signature.ret) (register (of_code (code PBoxType.sint32)) result')
        ≡ first_of (map value_of args))
callback_round_example =
    callback_round Arch.x86_64 answering saved channel registry args 0 host_code signature first_of
      PBoxType.sint32 untouched channel-IsShaped args-Backed (omega arith) saved-Placed refl refl
      (omega arith) refl refl args-Matches (unfold pbox_type_v in refl)
      (unfold of_code code in refl) (unfold is_void in refl) value_sized refl refl

-- A request with one offset inside the storage and one outside it.
abbrev hostile : Channel
hostile = record channel { args = 1023 ∷ 1024 ∷ replicate 8 0 }

calls : dispatch_callback registry (pos 0) channel ≡ called 500 600 (0 ∷ 0 ∷ [])
unfolding dispatch_callback run_callback read_offsets
calls = refl

kills : dispatch_callback registry (pos 0) hostile ≡ killed
unfolding dispatch_callback run_callback read_offsets
kills = refl

dispatch_callback-called_example :
    (n : ℕ) × (pos 0 ≡ pos n)
    × (n < 1)
    × InStorage (0 ∷ 0 ∷ [])
    × (500 ≡ (get_or registry.callbacks n no_callback).func_ptr)
    × (600 ≡ (get_or registry.callbacks n no_callback).dispatch)
    × (0 ∷ 0 ∷ [] ≡ offsets_of channel 0 (get_or registry.callbacks n no_callback).nargs)
dispatch_callback-called_example =
    dispatch_callback-called registry (pos 0) channel 500 600 (0 ∷ 0 ∷ []) calls

abbrev env : Environment
env = record {
  arch = Arch.x86_64;
  dlsym = λ s. 0;
  dyfn_call = λ regs. record { int_val = zero_word; float_val = zero_word };
  message = Message.failed;
  stubs = λ n. 4096 + n;
}

free_slots-IsValid : Closure.IsValid free_slots
free_slots-IsValid = record { info_len = refl; in_range = omega arith }

abbrev types : List PBoxType
types = PBoxType.uint32 ∷ PBoxType.uint8 ∷ []

types-AreMapped : AreMapped signature.params types
unfolding pbox_type_v
types-AreMapped = (refl, (refl, tt))

registered_round_example :
    (done : Registered) × (served : Served) × (dispatch_round env true
        (closure_request channel 1 (entry_of 700 800 PBoxType.sint32 types))
        free_slots
      ≡ some served)
    × (register_cpp_callback
          (sandbox_side env true free_slots)
          (some channel)
          registry
          signature
          700
          800
        ≡ some done)
    × (done.closure ≡ 4097)
    × (ch' : Channel) × (result' : ClosureResult) × (closure_dispatch Arch.x86_64 served.closures
          (answer_callback host_code done.registry)
          saved
          (some channel)
          untouched
        ≡ (some ch', result'))
    × (ch'.state ≡ State.request)
    × (take (bytes_of signature.ret) (register (crossing PBoxType.sint32) result')
        ≡ first_of (map value_of args))
registered_round_example =
    registered_round env true free_slots channel channel registry signature types PBoxType.sint32
      700 800 host_code first_of saved args untouched registry-IsValid (omega arith)
      free_slots-IsValid (omega arith) types-AreMapped (omega arith) (unfold pbox_type_v in refl)
      (unfold is_void in refl) refl refl channel-IsShaped args-Backed (unfold of_code code in refl)
      saved-Placed value_sized refl refl
