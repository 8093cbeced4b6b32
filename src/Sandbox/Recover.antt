-- ===== src/Sandbox/Recover.antt =====
-- The closure dispatcher of src/pbox/pbox_sandbox.c recovers from the saved registers the arguments
-- that the calling convention put there.
use sbox.Prelude.{
  ℕ, suc, ◌+◌, ◌-◌, ◌≤◌, ◌≡◌, refl, ◌∙◌, ap, List, [], ◌∷◌, Option, some, length, take, map,
  replicate, min, arith, get_or_of_get_elem?, take_append_of_length, length-take_of_le,
  length-append,
}
use sbox.Dyfn.Types.{DyfnType, dyfn_type_size, dyfn_type_size-le}
use sbox.Dyfn.Call.{Arch, int_arg_regs, Word, zero_word, Arg, dyfn_max_args}
use sbox.Dyfn.Place.{Place, place, word_at, extended, next_int, next_float, Placed, Backed}
use sbox.Channel.{Channel, put_arg}
use sbox.Channel.Pack.{Sized, Packed, Fits, IsShaped, put_args, put_args-Packed}
use sbox.Sandbox.Extract.{SavedRegs, Cursor, source, extract_args}

abbrev pub saved_word : SavedRegs → Place → Option Word
saved_word saved = word_at saved.int_regs saved.float_regs saved.stack_args

-- The indices after `i` integer and `f` float arguments.
pub record Tracks (arch : Arch) (i f : ℕ) (cur : Cursor) : Type 0 where
  pub ints_read : cur.int_idx ≡ min i (int_arg_regs arch)
  pub floats_read : cur.float_idx ≡ min f 8
  pub spilled_read : cur.stack_idx ≡ i - int_arg_regs arch + (f - 8)

source-Tracks :
    (arch : Arch) (saved : SavedRegs) (cur : Cursor) (i f : ℕ) (t : DyfnType)
    → Tracks arch i f cur
    → Tracks arch (next_int i t) (next_float f t) (source arch saved cur t).1
unfolding source
source-Tracks arch saved cur i f t h = ground arith

-- The word read is the one at the argument's place.
source_here :
    (arch : Arch) (saved : SavedRegs) (cur : Cursor) (i f : ℕ) (t : DyfnType) (w : Word)
    → Tracks arch i f cur
    → saved_word saved (place arch i f t) ≡ some w
    → (source arch saved cur t).0 ≡ w
unfolding source
source_here arch saved cur i f t w h here = ground (
  arith,
  get_or_of_get_elem? saved.int_regs cur.int_idx w zero_word,
  get_or_of_get_elem? saved.float_regs cur.float_idx w zero_word,
  get_or_of_get_elem? saved.stack_args cur.stack_idx w zero_word,
)

-- An argument as the loop copies it: its size, and the word that holds it.
abbrev pub word_arg : Arg → Sized
word_arg a = (dyfn_type_size a.0, extended a)

abbrev pub bytes_arg : Arg → Sized
bytes_arg a = (dyfn_type_size a.0, a.1)

abbrev pub type_of : Arg → DyfnType
type_of a = a.0

-- The loop packs the words at the arguments' places.
pub extract_args-eq :
    (arch : Arch) (saved : SavedRegs) (cur : Cursor) (ch : Channel) (i f k o : ℕ) (args : List Arg)
    → Tracks arch i f cur
    → Placed arch i f args (saved_word saved)
    → extract_args arch saved cur ch k o (map type_of args) ≡ put_args ch k o (map word_arg args)
unfolding extract_args put_args
extract_args-eq arch saved cur ch i f k o [] h placed = refl
extract_args-eq arch saved cur ch i f k o ((t, v) ∷ rest) h (here, placed) =
    extract_args-eq arch saved (source arch saved cur t).1
      (put_arg ch k o (source arch saved cur t).0 (dyfn_type_size t)) (next_int i t)
      (next_float f t) (k + 1) (o + dyfn_type_size t) rest (source-Tracks arch saved cur i f t h)
      placed
    ∙ ap
        (λ (w : Word).
          put_args (put_arg ch k o w (dyfn_type_size t)) (k + 1) (o + dyfn_type_size t)
            (map word_arg rest))
        (source_here arch saved cur i f t (extended (t, v)) h here)

take-extended :
    (t : DyfnType) (v : List ℕ)
    → dyfn_type_size t ≤ length v
    → take (dyfn_type_size t) (extended (t, v)) ≡ take (dyfn_type_size t) v
take-extended t v h =
    take_append_of_length (dyfn_type_size t) (take (dyfn_type_size t) v)
      (replicate (8 - dyfn_type_size t) 0) (length-take_of_le (dyfn_type_size t) v h)

Backed-Fits : (args : List Arg) → Backed args → Fits (map word_arg args)
Backed-Fits [] h = tt
Backed-Fits ((t, v) ∷ rest) (le, h) = (
  omega (
    arith,
    length-append {0} (take (dyfn_type_size t) v) (replicate (8 - dyfn_type_size t) 0),
    length-take_of_le {0} (dyfn_type_size t) v le,
  ),
  dyfn_type_size-le t,
  Backed-Fits rest h,
)

Packed-bytes :
    (i o : ℕ) (args : List Arg) (ch : Channel)
    → Backed args
    → Packed i o (map word_arg args) ch
    → Packed i o (map bytes_arg args) ch
Packed-bytes i o [] ch backed h = tt
Packed-bytes i o ((t, v) ∷ rest) ch (le, backed) (at, bytes, h) =
    (at, bytes ∙ take-extended t v le, Packed-bytes (i + 1) (o + dyfn_type_size t) rest ch backed h)

length-word_args : (args : List Arg) → length (map word_arg args) ≡ length args
length-word_args [] = refl
length-word_args (a ∷ rest) = ap suc (length-word_args rest)

abbrev pub at_start : Cursor
at_start = record { int_idx = 0; float_idx = 0; stack_idx = 0 }

pub start-Tracks : (arch : Arch) → Tracks arch 0 0 at_start
start-Tracks arch = omega arith

-- When the saved registers hold at most ten arguments as the calling convention places them, the
-- loop packs exactly those arguments' bytes into the channel, each at the offset that it records.
pub extract_args-Packed :
    (arch : Arch) (saved : SavedRegs) (ch : Channel) (args : List Arg)
    → IsShaped ch
    → Backed args
    → length args ≤ dyfn_max_args
    → Placed arch 0 0 args (saved_word saved)
    → Packed 0 0 (map bytes_arg args) (
        extract_args arch saved
          (record { int_idx = 0; float_idx = 0; stack_idx = 0 })
          ch
          0
          0
          (map type_of args))
extract_args-Packed arch saved ch args shaped backed few placed =
    rw (extract_args-eq arch saved at_start ch 0 0 0 0 args (omega arith) placed) (
      Packed-bytes 0 0 args _ backed (
        put_args-Packed ch 0 0 (map word_arg args) shaped (Backed-Fits args backed)
          (omega (arith, length-word_args args))))
