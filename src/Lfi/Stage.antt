-- ===== src/Lfi/Stage.antt =====
-- `stage_stack_args` (include/sbox/lfi.hh): spilled arguments lie where the callee looks for them, below
-- everything that is on the sandbox's stack.
use mathlib.Core.Path.{subst}
use sbox.Prelude.{
  ℕ_discrete, ℕ, zero, suc, ◌+◌, ◌*◌, ◌%◌, ◌<◌, ◌≤◌, ◌≡◌, ◌⊎◌, inl, inr, refl, ap, sym, ◌∙◌, List,
  [], ◌∷◌, length, get_or, arith, All, false, size_mod, ◌==◌,
}
use sbox.Dyfn.Call.{Word, zero_word}
use sbox.Copy.{Memory, write, read}
use sbox.Front.Context.Bound.{write_other, read-ext, read-write}
use sbox.Lfi.{LfiRegs, store_stack_args, staged_sp, stage_stack_args}

-- Eight bytes each.
abbrev pub AreWords : List Word → Type 0
AreWords ws = All (λ (w : Word). length w ≡ 8) ws

get_or-AreWords : (ws : List Word) (i : ℕ) → AreWords ws → length (get_or ws i zero_word) ≡ 8
get_or-AreWords [] i h = refl
get_or-AreWords (w ∷ ws) zero h = h.0
get_or-AreWords (w ∷ ws) (suc i) h = get_or-AreWords ws i h.1

-- The stores change the words from the `i`-th on, and nothing else.
store_stack_args_other :
    (mem : Memory) (at : ℕ) (ws : List Word) (i n j : ℕ)
    → AreWords ws
    → (j < at + 8 * i) ⊎ (at + 8 * i + 8 * n ≤ j)
    → store_stack_args mem at ws i n j ≡ mem j
unfolding store_stack_args
store_stack_args_other mem at ws i zero j h out = refl
store_stack_args_other mem at ws i (suc n) j h out =
    let len = get_or-AreWords ws i h in
    store_stack_args_other (write mem (at + 8 * i) (get_or ws i zero_word)) at ws (i + 1) n j h
      (ground arith)
    ∙ write_other mem (at + 8 * i) j (get_or ws i zero_word) (ground arith)

first :
    (mem : Memory) (at : ℕ) (ws : List Word) (i n : ℕ)
    → AreWords ws
    → read
        (store_stack_args (write mem (at + 8 * i) (get_or ws i zero_word)) at ws (i + 1) n)
        (at + 8 * i)
        8
      ≡ get_or ws i zero_word
first mem at ws i n h =
    let w = get_or ws i zero_word in
    let mem1 = write mem (at + 8 * i) w in
    read-ext (store_stack_args mem1 at ws (i + 1) n) mem1 (at + 8 * i) 8
      (λ j low high. store_stack_args_other mem1 at ws (i + 1) n j h (inl (omega arith)))
    ∙ ap (read mem1 (at + 8 * i)) (sym (get_or-AreWords ws i h))
    ∙ read-write mem (at + 8 * i) w

store_stack_args_here :
    (mem : Memory) (at : ℕ) (ws : List Word) (i n k : ℕ)
    → AreWords ws
    → i ≤ k
    → k < i + n
    → read (store_stack_args mem at ws i n) (at + 8 * k) 8 ≡ get_or ws k zero_word
unfolding store_stack_args
store_stack_args_here mem at ws i zero k h low high = absurd (omega arith)
store_stack_args_here mem at ws i (suc n) k h low high = elim (ℕ_discrete i k) [
  | yes same ↦
      subst
        (λ (x : ℕ).
          read (store_stack_args (write mem (at + 8 * i) (get_or ws i zero_word)) at ws (i + 1) n)
            (at + 8 * x) 8
          ≡ get_or ws x zero_word)
        same (first mem at ws i n h)
  | no other ↦
      store_stack_args_here (write mem (at + 8 * i) (get_or ws i zero_word)) at ws (i + 1) n k h
        (omega arith) (omega arith)
]

staged_sp_bounds :
    (sp n : ℕ)
    → sp < size_mod
    → 8 * n + 15 ≤ sp
    → (staged_sp sp n % 16 ≡ 0) × (staged_sp sp n + 8 * n ≤ sp) × (sp ≤ staged_sp sp n + 8 * n + 15)
unfolding staged_sp
staged_sp_bounds sp n lt room = omega arith

-- With room on the stack, the stack pointer is lowered to a 16-byte boundary, the `k`-th of the spilled
-- arguments lies at the `k`-th word from it on, and no byte `j` from the old stack pointer on is
-- changed.
pub stage_stack_args_lem :
    (mem : Memory) (regs : LfiRegs) (ws : List Word) (n k j : ℕ)
    → AreWords ws
    → regs.sp < size_mod
    → 8 * n + 15 ≤ regs.sp
    → k < n
    → regs.sp ≤ j
    → let (mem', regs') = stage_stack_args mem regs ws n in
      (regs'.sp % 16 ≡ 0)
      × (regs'.sp + 8 * n ≤ regs.sp)
      × (read mem' (regs'.sp + 8 * k) 8 ≡ get_or ws k zero_word)
      × (mem' j ≡ mem j)
      × (regs'.int_regs ≡ regs.int_regs)
      × (regs'.vector ≡ regs.vector)
unfolding stage_stack_args
stage_stack_args_lem mem regs ws n k j h lt room some_arg above =
    let (aligned, below, close) = staged_sp_bounds regs.sp n lt room in
    let some_args : (n == 0) ≡ false = ground arith in
    rw some_args (
      aligned,
      below,
      store_stack_args_here mem (staged_sp regs.sp n) ws 0 n k h (omega arith) (omega arith),
      store_stack_args_other mem (staged_sp regs.sp n) ws 0 n j h (inr (omega arith)),
      refl,
      refl,
    )
