-- ===== src/Tests/Front.antt =====
-- Calls and callbacks from C++, on concrete inputs (include/sbox/).
use sbox.Prelude.{
  ℕ_discrete, ℕ, ◌≡◌, ◌↔◌, refl, List, [], ◌∷◌, true, false, none, some, replicate, arith, length,
  if◌then◌else◌, ◌*◌, ◌==◌,
}
use sbox.Dyfn.Types.{PBoxType}
use sbox.Dyfn.Call.{Arch, DyfnCallArgs, DyfnCallResult, zero_word}
use sbox.Dyfn.Store.{IsResult}
use sbox.Dyfn.Closure.{Closures}
use sbox.Sandbox.Dispatch.{Environment, Message, served_channel}
use sbox.Symbol.Lookup.{IsText}
use sbox.Tests.Calls.{channel, channel-IsShaped}
use sbox.Front.Types.{
  Cv, char, int, double, pointer, function, sbox_ptr, other, unqualified, const, CppTypes,
  pbox_type_v, size_of, CppType-discrete,
}
use sbox.Front.Check.{
  is_same, is_pointer, is_sbox_ptr, is_sbox_safe_ptr, sbox_inner_type, bare_target,
  targets_function, check_sbox_ptr_arg, check_sbox_ptr_arg_iff, IsAccepted, Wraps,
}
use sbox.Front.Convert.{
  within, has_const, has_volatile, keeps, reinterpret_cast, static_cast, convert_call_arg,
  is_integer, is_signed, resize, is_negative,
}
use sbox.Front.Pointers.{convert_call_arg-accepted}
use sbox.Front.Call.{
  CppArg, Signature, Cast, Cache, Returned, convert_args, call, check_args, call_typed, lookup,
}
use sbox.Front.Cached.{symbol_of, Agrees, IsUsable, LooksUp, lookup_lem}
use sbox.Front.Returns.{Returns}
use sbox.Front.Typed.{Compiles, call_typed-Returns, call_aborts_iff}

-- No conversion but those between integers.
abbrev no_cast : Cast
no_cast To From v = none

-- Two structs, by number: pointers to them are told apart.
check_wrapped : check_sbox_ptr_arg (pointer const char) (sbox_ptr unqualified char) ≡ true
unfolding check_sbox_ptr_arg is_pointer is_sbox_ptr is_sbox_safe_ptr sbox_inner_type bare_target
    targets_function is_same CppType-discrete
check_wrapped = refl

check_other :
    check_sbox_ptr_arg (pointer unqualified (other 0)) (sbox_ptr unqualified (other 1)) ≡ false
unfolding check_sbox_ptr_arg is_pointer is_sbox_ptr is_sbox_safe_ptr sbox_inner_type bare_target
    targets_function is_same CppType-discrete ℕ_discrete
check_other = refl

check_raw : check_sbox_ptr_arg (pointer unqualified char) (pointer unqualified char) ≡ false
unfolding check_sbox_ptr_arg is_pointer is_sbox_ptr is_sbox_safe_ptr
check_raw = refl

-- int f(const char*, double), called with an int, a pointer and a double
abbrev answer : DyfnCallArgs → DyfnCallResult
answer regs = record { int_val = 42 ∷ 0 ∷ 0 ∷ 0 ∷ 0 ∷ 0 ∷ 0 ∷ 0 ∷ []; float_val = zero_word }

abbrev env : Environment
env = record {
  arch = Arch.x86_64;
  dlsym = λ s. length s * 4096;
  dyfn_call = answer;
  message = Message.failed;
  stubs = λ n. 0;
}

abbrev closures : Closures
closures = record { info = []; count = 0 }

-- Name 0 is empty, and any other is "abs".
abbrev text : ℕ → List ℕ
text n = if n == 0 then [] else 97 ∷ 98 ∷ 115 ∷ []

abbrev address : List ℕ
address = 0 ∷ 16 ∷ 0 ∷ 0 ∷ 0 ∷ 0 ∷ 0 ∷ 0 ∷ []

abbrev real : List ℕ
real = replicate 8 9

abbrev sig : Signature
sig = record { ret = int; params = pointer const char ∷ double ∷ int ∷ [] }

abbrev args : List CppArg
args = (sbox_ptr unqualified char, address) ∷ (double, real) ∷ (char, 255 ∷ []) ∷ []

abbrev types : List PBoxType
types = PBoxType.pointer ∷ PBoxType.double ∷ PBoxType.sint32 ∷ []

-- The char is extended with its sign.
abbrev values : List (List ℕ)
values = address ∷ real ∷ (255 ∷ 255 ∷ 255 ∷ 255 ∷ []) ∷ []

converts : convert_args no_cast sig.params args ≡ some values
unfolding convert_args convert_call_arg reinterpret_cast keeps within has_const has_volatile
    static_cast is_same CppType-discrete is_pointer is_integer is_signed resize size_of is_negative
converts = refl

compiles : Compiles no_cast sig args types PBoxType.sint32 values
unfolding pbox_type_v size_of
compiles = record {
  mapped = (refl, (refl, (refl, tt)));
  returned = refl;
  valued = (refl, (refl, (refl, tt)));
  few = omega arith;
  converts = converts;
}

usable : IsUsable channel
usable = record { shaped = channel-IsShaped; name_len = refl }

results : (regs : DyfnCallArgs) → IsResult (answer regs)
results regs = record { int_len = refl; float_len = refl }

abs-IsText : IsText (text 1)
abs-IsText = (λ e. omega arith, (λ e. omega arith, (λ e. omega arith, tt)))

checked : check_args sig.params args ≡ true
unfolding check_args check_sbox_ptr_arg is_pointer is_sbox_ptr is_sbox_safe_ptr sbox_inner_type
    bare_target targets_function is_same CppType-discrete
checked = refl

call_typed-Returns_example :
    (cache' : Cache) × (result : Returned) × (call_typed no_cast
        (served_channel env false closures)
        text
        []
        (some channel)
        sig
        1
        args
      ≡ some (cache', result))
    × Agrees env text cache'
    × Returns env (symbol_of env text 1) sig types PBoxType.sint32 values (some result)
call_typed-Returns_example =
    call_typed-Returns env false closures no_cast text [] channel 1 sig args types PBoxType.sint32
      values results compiles usable abs-IsText tt (λ e. omega arith) checked

call_aborts_iff_example :
    (call no_cast (served_channel env false closures) text [] (some channel) sig 0 args ≡ none)
    ↔ (symbol_of env text 0 ≡ 0)
call_aborts_iff_example =
    call_aborts_iff env false closures no_cast text [] channel 0 sig args types PBoxType.sint32
      values results compiles usable tt tt

-- From the cache.
lookup_lem_example :
    LooksUp env text 1
      (lookup (served_channel env false closures) text ((1, 12288) ∷ []) (some channel) 1)
lookup_lem_example =
    lookup_lem env false closures text ((1, 12288) ∷ []) channel 1 abs-IsText usable (refl, tt)

-- A function pointer.
check_sbox_ptr_arg_iff_example :
    (check_sbox_ptr_arg
        (pointer unqualified (function int CppTypes.end))
        (sbox_ptr unqualified (function int CppTypes.end))
      ≡ true)
    ↔ IsAccepted unqualified
        (function int CppTypes.end)
        (sbox_ptr unqualified (function int CppTypes.end))
check_sbox_ptr_arg_iff_example =
    check_sbox_ptr_arg_iff unqualified (function int CppTypes.end)
      (sbox_ptr unqualified (function int CppTypes.end))

check_drops_const : check_sbox_ptr_arg (pointer unqualified char) (sbox_ptr const char) ≡ true
unfolding check_sbox_ptr_arg is_pointer is_sbox_ptr is_sbox_safe_ptr sbox_inner_type bare_target
    targets_function is_same CppType-discrete
check_drops_const = refl

-- A pointer to const for a parameter that points to no const: accepted, and not converted.
convert_call_arg-accepted_example :
    (cv' : Cv) × Wraps (sbox_ptr const char) cv' char
    × (convert_call_arg no_cast (pointer unqualified char) (sbox_ptr const char) address
        ≡ (if within cv' unqualified then some address else none))
convert_call_arg-accepted_example =
    convert_call_arg-accepted no_cast unqualified char (sbox_ptr const char) address
      check_drops_const
