-- ===== src/Tests/Lfi.antt =====
-- The LFI backend on concrete inputs (include/sbox/lfi.hh, src/sbox_lfi.cc).
use sbox.Prelude.{
  ◌+◌, ◌*◌, ◌%◌, ◌≤◌, ◌≡◌, refl, inl, inr, List, [], ◌∷◌, true, replicate, map, arith,
}
use sbox.Dyfn.Types.{PBoxType, DyfnType}
use sbox.Dyfn.Call.{Arch, Word, zero_word, dyfn_prep_call}
use sbox.Dyfn.Place.{Placed, words_of}
use sbox.Call.Packing.{crossed}
use sbox.Copy.{read}
use sbox.Front.Types.{CppType, double, int, uchar, pbox_type_v, size_of}
use sbox.Front.Call.{zip_args}
use sbox.Front.Arrays.{AreMapped, AreValues}
use sbox.Front.Context.{out, inout}
use sbox.Lfi.{LfiRegs, marshal_args_lfi, stage_stack_args}
use sbox.Lfi.Registers.{zip_values, lfi_words, marshal_args_lfi-Placed}
use sbox.Lfi.Stage.{stage_stack_args_lem}
use sbox.Lfi.Engine.{Live, Manager, create_sandbox}
use sbox.Lfi.Engine.Ledger.{
  Op, op_init, op_get, op_destroy, run, IsValid, run-IsValid, Balanced, create_sandbox-Balance,
}
use sbox.Lfi.Stack.{LfiParam, lfi_context, lfi_pass_all, lfi_destroy}
use sbox.Lfi.Stack.Blocks.{Descending, lfi_pass_all-Descending}

abbrev regs : LfiRegs
regs = record {
  int_regs = replicate 6 (replicate 8 1);
  vector = replicate 32 (replicate 8 2);
  sp = 0x10000;
}

-- Seven integers, of which one spills, and a double.
abbrev params : List CppType
params = int ∷ double ∷ uchar ∷ uchar ∷ uchar ∷ uchar ∷ uchar ∷ uchar ∷ []

abbrev types : List PBoxType
types = PBoxType.sint32 ∷ PBoxType.double ∷ replicate 6 PBoxType.uint8

abbrev values : List Word
values =
    (1 ∷ 2 ∷ 3 ∷ 4 ∷ [])
    ∷ replicate 8 9
    ∷ (5 ∷ [])
    ∷ (6 ∷ [])
    ∷ (7 ∷ [])
    ∷ (8 ∷ [])
    ∷ (9 ∷ [])
    ∷ (10 ∷ [])
    ∷ []

mapped : AreMapped params types
unfolding pbox_type_v
mapped = (refl, (refl, (refl, (refl, (refl, (refl, (refl, (refl, tt))))))))

valued : AreValues params values
unfolding size_of
valued = (refl, (refl, (refl, (refl, (refl, (refl, (refl, (refl, tt))))))))

marshal_args_lfi-Placed_example :
    let args = map crossed (zip_args types values) in
    Placed Arch.x86_64 0 0 args
      (lfi_words (marshal_args_lfi Arch.x86_64 regs (zip_values params values)))
    × Placed Arch.x86_64 0 0 args (words_of (dyfn_prep_call Arch.x86_64 0 DyfnType.void args))
marshal_args_lfi-Placed_example =
    marshal_args_lfi-Placed Arch.x86_64 regs params types values 0 DyfnType.void
      (record { ints_len = refl; vector_len = omega arith }) mapped valued (omega arith)

abbrev spilled : List Word
spilled = replicate 8 10 ∷ replicate 8 11 ∷ replicate 8 zero_word

stage_stack_args_lem_example :
    let (mem', regs') = stage_stack_args (λ a. 0) regs spilled 2 in
    (regs'.sp % 16 ≡ 0)
    × (regs'.sp + 8 * 2 ≤ 0x10000)
    × (read mem' (regs'.sp + 8 * 1) 8 ≡ replicate 8 11)
    × (mem' 0x10000 ≡ 0)
    × (regs'.int_regs ≡ regs.int_regs)
    × (regs'.vector ≡ regs.vector)
stage_stack_args_lem_example =
    stage_stack_args_lem (λ a. 0) regs spilled 2 1 0x10000
      (refl, (refl, (refl, (refl, (refl, (refl, (refl, (refl, (refl, (refl, tt))))))))))
      (omega arith) (omega arith) (omega arith) (omega arith)

abbrev nothing : Live
nothing = record { engines = []; linux_engines = []; procs = []; threads = [] }

abbrev no_engines : Manager
no_engines = record { engine = 0; linux_engine = 0; live = nothing }

-- The second engine cannot be made at first; then both can.
abbrev ops : List Op
ops =
    op_get (record { new_engine = 16; new_linux_engine = 0 })
    ∷ op_init (record { new_engine = 16; new_linux_engine = 32 })
    ∷ op_destroy
    ∷ op_get (record { new_engine = 48; new_linux_engine = 64 })
    ∷ []

run-IsValid_example : IsValid (run no_engines ops)
run-IsValid_example = run-IsValid no_engines ops (inl (refl, refl, refl, refl))

-- The file loads, but has no `_lfi_ret`.
create_sandbox-Balance_example :
    let (live', result) =
      create_sandbox
        (record { proc = 80; loads = true; lfi_ret = 0; thread = 96; runs = true })
        32
        nothing in
    Balanced nothing live' result
create_sandbox-Balance_example =
    create_sandbox-Balance
      (record { proc = 80; loads = true; lfi_ret = 0; thread = 96; runs = true }) 32 nothing

abbrev vars : List LfiParam
vars = (inout, 4096, 4, 4) ∷ (out, 4112, 1, 1) ∷ (inout, 4120, 8, 8) ∷ []

lfi_pass_all-Descending_example :
    let (ctx', ps) = lfi_pass_all (lfi_context 0x10004 (λ a. 0)) vars in
    Descending 0x10004 ctx'.sp vars ps × ((lfi_destroy ctx').sp ≡ 0x10004)
lfi_pass_all-Descending_example =
    lfi_pass_all-Descending 0x10004 (λ a. 0) vars (omega arith) (omega arith)
      (inr (inr (inl refl)), (inl refl, (inr (inr (inr (inl refl))), tt)))
