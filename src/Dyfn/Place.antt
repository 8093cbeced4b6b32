-- ===== src/Dyfn/Place.antt =====
-- Where the calling convention puts each argument, independently of the loop that fills the
-- registers: the k-th integer argument goes to integer register k, the k-th float to float register
-- k, and what is left over spills to the stack in declaration order.
use sbox.Prelude.{
  ℕ, ◌+◌, ◌-◌, ◌≤◌, ◌≡◌, Bool, List, [], ◌∷◌, ◌++◌, Option, some, ltb, if◌then◌else◌, length, take,
  replicate, get_elem?,
}
use sbox.Dyfn.Types.{DyfnType, dyfn_type_size, dyfn_classify, in_float_file}
use sbox.Dyfn.Call.{Arch, int_arg_regs, float_arg_regs, Word, Arg, DyfnCallArgs}

pub data Place : Type 0 where
  int_reg float_reg slot : ℕ → Place

abbrev pub is_float : DyfnType → Bool
is_float t = in_float_file (dyfn_classify t)

-- The place of an argument of type `t` behind `i` integer and `f` float arguments.
abbrev pub place : Arch → ℕ → ℕ → DyfnType → Place
place arch i f t =
    if is_float t
    then if ltb f float_arg_regs then float_reg f else slot (i - int_arg_regs arch + (f - 8))
    else if ltb i (int_arg_regs arch)
    then int_reg i
    else slot (i - int_arg_regs arch + (f - float_arg_regs))

-- The word at a place.
abbrev pub word_at : List Word → List Word → List Word → Place → Option Word
word_at ints floats stack (int_reg n) = get_elem? ints n
word_at ints floats stack (float_reg n) = get_elem? floats n
word_at ints floats stack (slot n) = get_elem? stack n

-- An argument zero-extended to a word.
abbrev pub extended : Arg → Word
extended (t, v) = take (dyfn_type_size t) v ++ replicate (8 - dyfn_type_size t) 0

abbrev pub next_int : ℕ → DyfnType → ℕ
next_int i t = if is_float t then i else i + 1

abbrev pub next_float : ℕ → DyfnType → ℕ
next_float f t = if is_float t then f + 1 else f

-- Every argument lies zero-extended in its place.
abbrev pub Placed : Arch → ℕ → ℕ → List Arg → (Place → Option Word) → Type 0
Placed arch i f [] at = Unit
Placed arch i f ((t, v) ∷ rest) at =
    (at (place arch i f t) ≡ some (extended (t, v)))
    × Placed arch (next_int i t) (next_float f t) rest at

-- How many of the arguments are of each kind.
abbrev pub ints : List Arg → ℕ
ints [] = 0
ints ((t, v) ∷ rest) = if is_float t then ints rest else ints rest + 1

abbrev pub floats : List Arg → ℕ
floats [] = 0
floats ((t, v) ∷ rest) = if is_float t then floats rest + 1 else floats rest

-- Each argument's memory holds at least its type's bytes.
abbrev pub Backed : List Arg → Type 0
Backed [] = Unit
Backed ((t, v) ∷ rest) = (dyfn_type_size t ≤ length v) × Backed rest

abbrev pub words_of : DyfnCallArgs → Place → Option Word
words_of c = word_at c.int_regs c.float_regs c.stack_args
