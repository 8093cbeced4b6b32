-- ===== src/Lfi/Registers.antt =====
-- `marshal_args_lfi` (include/sbox/lfi.hh) places arguments as the calling convention does, and as
-- the process backend does.
use sbox.Prelude.{
  suc, map, ℕ, ◌+◌, ◌-◌, ◌*◌, ◌<◌, ◌≤◌, ◌≡◌, refl, ap, sym, ◌∙◌, List, [], ◌∷◌, ◌++◌, Option, some,
  length, get_elem?, take, replicate, min, arith, memcpy_to, length-set, get_elem?-set_self,
  get_elem?-set_ne,
}
use sbox.Dyfn.Types.{PBoxType, DyfnType, of_code, code, dyfn_type_size}
use sbox.Dyfn.Call.{Arch, int_arg_regs, Word, zero_word, dyfn_prep_call}
use sbox.Dyfn.Place.{
  Place, int_reg, float_reg, slot, place, extended, next_int, next_float, Placed, is_float,
  words_of,
}
use sbox.Dyfn.Fill.{memcpy_to-zero_word, prep_call-Placed}
use sbox.Call.{HostArg}
use sbox.Call.Packing.{crossed}
use sbox.Front.Call.{zip_args}
use sbox.Front.Arrays.{AreMapped, AreValues, length-mapped, length-zip_args, length-values}
use sbox.Front.Types.{CppType, pointer, is_floating_point, pbox_type_v, size_of, pbox_type_v-sizes}
use sbox.Front.Check.{is_pointer}
use sbox.Front.Callback.{bytes_of}
use sbox.Front.Delivered.{bytes_of_mapped}
use sbox.Lfi.{
  LfiRegs, Marshal, set_int_arg, set_float_arg, argument_word, push_stack_arg, marshal_arg,
  marshal_from, marshal_args_lfi,
}

-- The words that the trampoline passes on, by their places.
abbrev pub lfi_words : Marshal → Place → Option Word
lfi_words m (int_reg n) = get_elem? m.regs.int_regs n
lfi_words m (float_reg n) = get_elem? m.regs.vector (n * 2)
lfi_words m (slot n) = get_elem? m.stack_args n

pub record Tracks (arch : Arch) (i f : ℕ) (m : Marshal) : Type 0 where
  pub ints_used : m.int_idx ≡ min i (int_arg_regs arch)
  pub floats_used : m.float_idx ≡ min f 8
  pub spilled : m.n_stack ≡ i - int_arg_regs arch + (f - 8)
  pub ints_len : length m.regs.int_regs ≡ int_arg_regs arch
  pub vector_len : 16 ≤ length m.regs.vector
  pub stack_len : length m.stack_args ≡ 10

-- A place that an earlier argument has taken.
abbrev Taken : Marshal → Place → Type 0
Taken m (int_reg n) = n < m.int_idx
Taken m (float_reg n) = n < m.float_idx
Taken m (slot n) = n < m.n_stack

module _ (arch : Arch) (T : CppType) (t : DyfnType)
    (same_class : is_float t ≡ is_floating_point T) where
  marshal_arg-Tracks :
      (m : Marshal) (i f : ℕ) (v : List ℕ)
      → Tracks arch i f m
      → Tracks arch (next_int i t) (next_float f t) (marshal_arg arch m T v)
  unfolding marshal_arg push_stack_arg set_int_arg set_float_arg
  marshal_arg-Tracks m i f v h = ground (
    arith,
    same_class,
    length-set {0} m.regs.int_regs m.int_idx (argument_word T v),
    length-set {0} m.regs.vector (m.float_idx * 2) (argument_word T v),
    length-set {0} m.stack_args m.n_stack (argument_word T v),
  )

  marshal_arg-Taken :
      (m : Marshal) (v : List ℕ) (p : Place)
      → Taken m p
      → (lfi_words (marshal_arg arch m T v) p ≡ lfi_words m p) × Taken (marshal_arg arch m T v) p
  unfolding marshal_arg push_stack_arg set_int_arg set_float_arg
  marshal_arg-Taken m v (int_reg n) h =
      let stays =
        get_elem?-set_ne m.regs.int_regs m.int_idx n (argument_word T v) (λ e. omega arith) in
      ground (arith, stays)
  marshal_arg-Taken m v (float_reg n) h =
      let stays =
        get_elem?-set_ne m.regs.vector (m.float_idx * 2) (n * 2) (argument_word T v)
          (λ e. omega arith) in
      ground (arith, stays)
  marshal_arg-Taken m v (slot n) h =
      let stays =
        get_elem?-set_ne m.stack_args m.n_stack n (argument_word T v) (λ e. omega arith) in
      ground (arith, stays)

  marshal_arg_here :
      (m : Marshal) (i f : ℕ) (v : List ℕ)
      → Tracks arch i f m
      → i + f < 10
      → (lfi_words (marshal_arg arch m T v) (place arch i f t) ≡ some (argument_word T v))
        × Taken (marshal_arg arch m T v) (place arch i f t)
  unfolding marshal_arg push_stack_arg set_int_arg set_float_arg
  marshal_arg_here m i f v h lt = ground (
    arith,
    same_class,
    get_elem?-set_self {0} m.regs.int_regs m.int_idx (argument_word T v),
    get_elem?-set_self {0} m.regs.vector (m.float_idx * 2) (argument_word T v),
    get_elem?-set_self {0} m.stack_args m.n_stack (argument_word T v),
  )

-- A call's arguments.
abbrev pub zip_values : List CppType → List (List ℕ) → List (CppType × List ℕ)
zip_values [] values = []
zip_values (T ∷ params) [] = []
zip_values (T ∷ params) (v ∷ values) = (T, v) ∷ zip_values params values

next_sum : (i f : ℕ) (t : DyfnType) → next_int i t + next_float f t ≡ i + f + 1
next_sum i f t = ground arith

length-crossed : (args : List HostArg) → length (map crossed args) ≡ length args
length-crossed [] = refl
length-crossed (a ∷ rest) = ap suc (length-crossed rest)

marshal_from-Taken :
    (arch : Arch) (m : Marshal) (params : List CppType) (types : List PBoxType)
    (values : List (List ℕ)) (p : Place)
    → AreMapped params types
    → AreValues params values
    → Taken m p
    → lfi_words (marshal_from arch m (zip_values params values)) p ≡ lfi_words m p
unfolding marshal_from
marshal_from-Taken arch m [] types values p mapped valued taken = refl
marshal_from-Taken arch m (T ∷ params) [] values p mapped valued taken = absurd mapped
marshal_from-Taken arch m (T ∷ params) (q ∷ types) [] p mapped valued taken = absurd valued
marshal_from-Taken arch m (T ∷ params) (q ∷ types) (v ∷ values) p (e, mapped) (size, valued) taken =
    let (named, sized, class) = pbox_type_v-sizes T q e in
    let (kept, taken') = marshal_arg-Taken arch T (of_code (code q)) class m v p taken in
    marshal_from-Taken arch (marshal_arg arch m T v) params types values p mapped valued taken'
    ∙ kept

take_all : (xs : List ℕ) → take (length xs) xs ≡ xs
take_all [] = refl
take_all (x ∷ xs) = ap (λ (l : List ℕ). x ∷ l) (take_all xs)

append_nil : (xs : List ℕ) → xs ++ [] ≡ xs
append_nil [] = refl
append_nil (x ∷ xs) = ap (λ (l : List ℕ). x ∷ l) (append_nil xs)

-- An argument's word is its bytes, zero-extended.
argument_word-extended :
    (T : CppType) (q : PBoxType) (v : List ℕ)
    → pbox_type_v T ≡ some q
    → size_of T ≡ some (length v)
    → argument_word T v ≡ extended (of_code (code q), v)
unfolding argument_word is_pointer bytes_of size_of pbox_type_v
argument_word-extended (pointer cv S) q v e size =
    let width : dyfn_type_size (of_code (code q)) ≡ 8 = bytes_of_mapped (pointer cv S) q e in
    let len : 8 ≡ length v = cc in
    sym (append_nil v)
    ∙ ap (λ (l : List ℕ). l ++ []) (sym (take_all v) ∙ ap (λ (n : ℕ). take n v) (sym len))
    ∙ ap (λ (n : ℕ). take n v ++ replicate (8 - n) 0) (sym width)
argument_word-extended T q v e size =
    ap (memcpy_to zero_word 0 v) (sym (bytes_of_mapped T q e))
    ∙ memcpy_to-zero_word (of_code (code q)) v

marshal_from-Placed :
    (arch : Arch) (m : Marshal) (i f : ℕ) (params : List CppType) (types : List PBoxType)
    (values : List (List ℕ))
    → AreMapped params types
    → AreValues params values
    → Tracks arch i f m
    → i + f + length params ≤ 10
    → Placed arch i f
        (map crossed (zip_args types values))
        (lfi_words (marshal_from arch m (zip_values params values)))
unfolding marshal_from
marshal_from-Placed arch m i f [] [] values mapped valued h le = tt
marshal_from-Placed arch m i f [] (q ∷ types) values mapped valued h le = absurd mapped
marshal_from-Placed arch m i f (T ∷ params) [] values mapped valued h le = absurd mapped
marshal_from-Placed arch m i f (T ∷ params) (q ∷ types) [] mapped valued h le = absurd valued
marshal_from-Placed arch m i f (T ∷ params) (q ∷ types) (v ∷ values) (e, mapped) (size, valued) h
      le =
    let t = of_code (code q) in
    let (named, sized, class) = pbox_type_v-sizes T q e in
    let (there, taken) = marshal_arg_here arch T t class m i f v h (omega arith) in
    (
      marshal_from-Taken arch (marshal_arg arch m T v) params types values (place arch i f t) mapped
            valued taken
          ∙ there
          ∙ ap some (argument_word-extended T q v e size),
      marshal_from-Placed arch (marshal_arg arch m T v) (next_int i t) (next_float f t) params types
          values mapped valued (marshal_arg-Tracks arch T t class m i f v h)
          (omega (arith, next_sum i f t)),
    )

-- The registers have one word for every integer argument that goes there, and the vector registers
-- two for each of the eight arguments that go there.
pub record AreRegs (arch : Arch) (regs : LfiRegs) : Type 0 where
  pub ints_len : length regs.int_regs ≡ int_arg_regs arch
  pub vector_len : 16 ≤ length regs.vector

-- At most ten arguments, each a value of a type that crosses the process backend's channel, are left
-- by `marshal_args_lfi` in the registers and stack slots that the calling convention gives them,
-- zero-extended: the very places and words in which `dyfn_prep_call` leaves them in the process
-- backend's sandbox.
pub marshal_args_lfi-Placed :
    (arch : Arch) (regs : LfiRegs) (params : List CppType) (types : List PBoxType)
    (values : List (List ℕ)) (fn : ℕ) (ret : DyfnType)
    → AreRegs arch regs
    → AreMapped params types
    → AreValues params values
    → length params ≤ 10
    → let args = map crossed (zip_args types values) in
      Placed arch 0 0 args (lfi_words (marshal_args_lfi arch regs (zip_values params values)))
      × Placed arch 0 0 args (words_of (dyfn_prep_call arch fn ret args))
unfolding marshal_args_lfi
marshal_args_lfi-Placed arch regs params types values fn ret h mapped valued few =
    let same = length-mapped params types mapped in
    (
      marshal_from-Placed arch _ 0 0 params types values mapped valued
          (record {
            ints_used = omega arith;
            floats_used = omega arith;
            spilled = omega arith;
            ints_len = h.ints_len;
            vector_len = h.vector_len;
            stack_len = refl;
          })
          (omega arith),
      prep_call-Placed arch fn ret (map crossed (zip_args types values)) (
          omega (
            arith,
            same,
            length-zip_args types values (same ∙ sym (length-values params values valued)),
            length-crossed (zip_args types values),
          )),
    )
