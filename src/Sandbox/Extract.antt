-- ===== src/Sandbox/Extract.antt =====
-- The argument loop of `dyfn_closure_dispatch` (src/pbox/pbox_sandbox.c): from the registers that the
-- closure stub saved into the channel.
use sbox.Prelude.{ℕ, ◌+◌, List, [], ◌∷◌, ltb, if◌then◌else◌, get_or}
use sbox.Dyfn.Types.{DyfnType, dyfn_type_size, dyfn_classify, in_float_file}
use sbox.Dyfn.Call.{Arch, int_arg_regs, float_arg_regs, Word, zero_word}
use sbox.Channel.{Channel, put_arg}

-- `struct DyfnClosureSavedRegs`
pub record SavedRegs : Type 0 where
  pub int_regs : List Word
  pub float_regs : List Word
  pub stack_args : List Word
  pub stub_index : ℕ

-- The loop's three indices.
pub record Cursor : Type 0 where
  pub int_idx : ℕ
  pub float_idx : ℕ
  pub stack_idx : ℕ

-- The word that holds the next argument, and the indices behind it.
unfoldable pub source : Arch → SavedRegs → Cursor → DyfnType → Word × Cursor
source arch saved cur t =
    let spilled = get_or saved.stack_args cur.stack_idx zero_word in
    let behind_spilled = record cur { stack_idx = cur.stack_idx + 1 } in
    if in_float_file (dyfn_classify t)
    then if ltb cur.float_idx float_arg_regs
      then (
        get_or saved.float_regs cur.float_idx zero_word,
        record cur { float_idx = cur.float_idx + 1 },
      )
      else (spilled, behind_spilled)
    else if ltb cur.int_idx (int_arg_regs arch)
    then (get_or saved.int_regs cur.int_idx zero_word, record cur { int_idx = cur.int_idx + 1 })
    else (spilled, behind_spilled)

unfoldable pub extract_args : Arch → SavedRegs → Cursor → Channel → ℕ → ℕ → List DyfnType → Channel
extract_args arch saved cur ch i offset [] = ch
extract_args arch saved cur ch i offset (t ∷ rest) =
    extract_args arch saved (source arch saved cur t).1
      (put_arg ch i offset (source arch saved cur t).0 (dyfn_type_size t)) (i + 1)
      (offset + dyfn_type_size t) rest
