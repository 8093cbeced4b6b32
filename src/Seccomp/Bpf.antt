-- ===== src/Seccomp/Bpf.antt =====
-- The BPF instructions that src/pbox/pbox_seccomp.c uses, and the data that a filter reads.
use sbox.Prelude.{ℕ, zero, suc, ◌%◌, ◌^◌, List, [], ◌∷◌, Option, none, some, ◌==◌, if◌then◌else◌}

-- `struct seccomp_data`, as far as the filters read it.
pub record SeccompData : Type 0 where
  pub nr : ℕ
  pub arch : ℕ
  pub args : ℕ → ℕ

-- ALLOW, KILL and ERRNO(e)
pub data Action : Type 0 where
  allow kill : Action
  errno : ℕ → Action

-- The operand of BPF_LD | BPF_W | BPF_ABS.
pub data Field : Type 0 where
  nr arch : Field
  arg : ℕ → Field

pub data Insn : Type 0 where
  load : Field → Insn
  jump_eq : (k if_true if_false : ℕ) → Insn
  ret : Action → Insn

-- A load of an argument reads its low 32 bits.
unfoldable pub value : SeccompData → Field → ℕ
value d Field.nr = d.nr
value d Field.arch = d.arch
value d (Field.arg n) = d.args n % 2 ^ 32

-- Runs the instructions behind the next `skip`; `none` when the program ends without a return.
unfoldable pub run : SeccompData → ℕ → ℕ → List Insn → Option Action
run d skip acc [] = none
run d (suc skip) acc (i ∷ rest) = run d skip acc rest
run d zero acc (load f ∷ rest) = run d 0 (value d f) rest
run d zero acc (jump_eq k if_true if_false ∷ rest) =
    run d (if acc == k then if_true else if_false) acc rest
run d zero acc (ret a ∷ rest) = some a
