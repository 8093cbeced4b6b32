-- ===== src/Dyfn/Call.antt =====
-- `dyfn_prep_call` and `dyfn_store_result` of src/dyfn/dyfn.c: the registers and stack slots of a
-- dynamic call.
use sbox.Prelude.{ℕ, ◌+◌, List, [], ◌∷◌, ltb, if◌then◌else◌, get_or, set, replicate, memcpy_to}
use sbox.Dyfn.Types.{DyfnType, DyfnClass, dyfn_type_size, dyfn_classify, in_float_file}

-- DYFN_INT_ARG_REGS and DYFN_FLOAT_ARG_REGS
pub data Arch : Type 0 where
  x86_64 aarch64 : Arch

abbrev pub int_arg_regs : Arch → ℕ
int_arg_regs Arch.x86_64 = 6
int_arg_regs Arch.aarch64 = 8

abbrev pub float_arg_regs : ℕ
float_arg_regs = 8

abbrev pub dyfn_max_args : ℕ
dyfn_max_args = 10

-- A register or stack slot: the eight bytes of a uint64_t, lowest first.
abbrev pub Word : Type 0
Word = List ℕ

abbrev pub zero_word : Word
zero_word = 0 ∷ 0 ∷ 0 ∷ 0 ∷ 0 ∷ 0 ∷ 0 ∷ 0 ∷ []

-- `struct DyfnCallArgs`; a pointer is its address.
pub record DyfnCallArgs : Type 0 where
  pub int_regs : List Word
  pub float_regs : List Word
  pub int_count : ℕ
  pub float_count : ℕ
  pub stack_args : List Word
  pub stack_count : ℕ
  pub func : ℕ
  pub ret_class : DyfnClass

-- An argument: its type, and the memory from `arg_values[i]` on.
abbrev pub Arg : Type 0
Arg = DyfnType × List ℕ

-- memcpy(&regs[k], src, n): the low bytes of a word, the rest as they were.
unfoldable pub store_word : List Word → ℕ → List ℕ → ℕ → List Word
store_word regs k src n = set regs k (memcpy_to (get_or regs k zero_word) 0 src n)

unfoldable pub push_stack : DyfnCallArgs → List ℕ → ℕ → DyfnCallArgs
push_stack c v size = record c {
  stack_args = store_word c.stack_args c.stack_count v size;
  stack_count = c.stack_count + 1;
}

-- One round of the loop of `dyfn_prep_call`.
unfoldable pub prep_arg : Arch → DyfnCallArgs → Arg → DyfnCallArgs
unfolding push_stack
prep_arg arch c (t, v) =
    let size = dyfn_type_size t in
    if in_float_file (dyfn_classify t)
    then if ltb c.float_count float_arg_regs
      then record c {
        float_regs = store_word c.float_regs c.float_count v size;
        float_count = c.float_count + 1;
      }
      else push_stack c v size
    else if ltb c.int_count (int_arg_regs arch)
    then record c {
      int_regs = store_word c.int_regs c.int_count v size;
      int_count = c.int_count + 1;
    }
    else push_stack c v size

unfoldable pub prep_args : Arch → DyfnCallArgs → List Arg → DyfnCallArgs
prep_args arch c [] = c
prep_args arch c (a ∷ rest) = prep_args arch (prep_arg arch c a) rest

-- `memset(call, 0, sizeof(*call))`, then the function and the class of its result.
abbrev pub cleared : ℕ → DyfnType → DyfnCallArgs
cleared func ret_type = record {
  int_regs = replicate 8 zero_word;
  float_regs = replicate 8 zero_word;
  int_count = 0;
  float_count = 0;
  stack_args = replicate 4 zero_word;
  stack_count = 0;
  func = func;
  ret_class = dyfn_classify ret_type;
}

unfoldable pub dyfn_prep_call : Arch → ℕ → DyfnType → List Arg → DyfnCallArgs
unfolding prep_args prep_arg
dyfn_prep_call arch func ret_type args = prep_args arch (cleared func ret_type) args

-- `struct DyfnCallResult`
pub record DyfnCallResult : Type 0 where
  pub int_val : Word
  pub float_val : Word

-- The bytes of `out` after the call.
unfoldable pub dyfn_store_result : DyfnCallResult → DyfnType → List ℕ → List ℕ
dyfn_store_result result ret_type out =
    let size = dyfn_type_size ret_type in
    elim (dyfn_classify ret_type) [
      | DyfnClass.float ↦ memcpy_to out 0 result.float_val size
      | DyfnClass.double ↦ memcpy_to out 0 result.float_val size
      | DyfnClass.void ↦ out
      | DyfnClass.int ↦ memcpy_to out 0 result.int_val size
    ]
