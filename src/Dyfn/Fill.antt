-- ===== src/Dyfn/Fill.antt =====
-- `dyfn_prep_call` fills the registers as the calling convention says.
use sbox.Prelude.{
  ℕ, ◌+◌, ◌-◌, ◌<◌, ◌≤◌, ◌≡◌, refl, ◌∙◌, List, [], ◌∷◌, some, length, get_elem?, get_or, min, arith,
  memcpy_to, length-set, get_elem?-set_self, get_elem?-set_ne, get_or-set_ne, get_or-replicate,
}
use sbox.Dyfn.Types.{DyfnType, dyfn_type_size}
use sbox.Dyfn.Call.{
  Arch, int_arg_regs, float_arg_regs, Word, zero_word, Arg, DyfnCallArgs, store_word, prep_arg,
  prep_args, cleared, dyfn_prep_call, dyfn_max_args,
}
use sbox.Dyfn.Place.{
  Place, int_reg, float_reg, slot, place, extended, next_int, next_float, Placed, ints, floats,
  words_of,
}

-- What the counters say after `i` integer and `f` float arguments.
pub record Tracks (arch : Arch) (i f : ℕ) (c : DyfnCallArgs) : Type 0 where
  pub ints_used : c.int_count ≡ min i (int_arg_regs arch)
  pub floats_used : c.float_count ≡ min f 8
  pub spilled : c.stack_count ≡ i - int_arg_regs arch + (f - 8)
  pub ints_len : length c.int_regs ≡ 8
  pub floats_len : length c.float_regs ≡ 8
  pub stack_len : length c.stack_args ≡ 4

-- What no argument has reached is still cleared.
abbrev IsClear : List Word → ℕ → Type 0
IsClear regs n = (k : ℕ) → n ≤ k → get_or regs k zero_word ≡ zero_word

record Clear (c : DyfnCallArgs) : Type 0 where
  ints : IsClear c.int_regs c.int_count
  floats : IsClear c.float_regs c.float_count
  stack : IsClear c.stack_args c.stack_count

-- A place that an earlier argument has taken.
abbrev Taken : DyfnCallArgs → Place → Type 0
Taken c (int_reg n) = n < c.int_count
Taken c (float_reg n) = n < c.float_count
Taken c (slot n) = n < c.stack_count

pub memcpy_to-zero_word :
    (t : DyfnType) (v : List ℕ) → memcpy_to zero_word 0 v (dyfn_type_size t) ≡ extended (t, v)
unfolding memcpy_to dyfn_type_size
memcpy_to-zero_word DyfnType.void v = refl
memcpy_to-zero_word t v = refl

length-store_word :
    (regs : List Word) (k n : ℕ) (v : List ℕ) → length (store_word regs k v n) ≡ length regs
unfolding store_word
length-store_word regs k n v = length-set regs k (memcpy_to (get_or regs k zero_word) 0 v n)

-- A store at a cleared word leaves the argument there, zero-extended.
store_word_here :
    (regs : List Word) (k : ℕ) (t : DyfnType) (v : List ℕ)
    → k < length regs
    → IsClear regs k
    → get_elem? (store_word regs k v (dyfn_type_size t)) k ≡ some (extended (t, v))
unfolding store_word
store_word_here regs k t v h clear =
    rw (clear k (omega arith), memcpy_to-zero_word t v)
      (get_elem?-set_self regs k (extended (t, v)) h)

store_word_below :
    (regs : List Word) (k j n : ℕ) (v : List ℕ)
    → j < k
    → get_elem? (store_word regs k v n) j ≡ get_elem? regs j
unfolding store_word
store_word_below regs k j n v h = get_elem?-set_ne regs k j _ (λ e. omega arith)

store_word_IsClear :
    (regs : List Word) (k n : ℕ) (v : List ℕ)
    → IsClear regs k
    → IsClear (store_word regs k v n) (k + 1)
unfolding store_word
store_word_IsClear regs k n v clear j h =
    get_or-set_ne regs k j _ zero_word (λ e. omega arith) ∙ clear j (omega arith)

IsClear-mono : (regs : List Word) (k j : ℕ) → k ≤ j → IsClear regs k → IsClear regs j
IsClear-mono regs k j h clear m le = clear m (omega arith)

module _ (arch : Arch) where
  prep_arg-Tracks :
      (c : DyfnCallArgs) (i f : ℕ) (t : DyfnType) (v : List ℕ)
      → Tracks arch i f c
      → Tracks arch (next_int i t) (next_float f t) (prep_arg arch c (t, v))
  unfolding prep_arg
  prep_arg-Tracks c i f t v h = ground (
    arith,
    length-store_word c.int_regs c.int_count (dyfn_type_size t) v,
    length-store_word c.float_regs c.float_count (dyfn_type_size t) v,
    length-store_word c.stack_args c.stack_count (dyfn_type_size t) v,
  )

  prep_arg-Clear :
      (c : DyfnCallArgs) (t : DyfnType) (v : List ℕ) → Clear c → Clear (prep_arg arch c (t, v))
  unfolding prep_arg
  prep_arg-Clear c t v h = record {
    ints = λ k le.
        ground (
          arith,
          h.ints k,
          store_word_IsClear c.int_regs c.int_count (dyfn_type_size t) v h.ints k,
        );
    floats = λ k le. ground (
      arith,
      h.floats k,
      store_word_IsClear c.float_regs c.float_count (dyfn_type_size t) v h.floats k,
    );
    stack = λ k le. ground (
      arith,
      h.stack k,
      store_word_IsClear c.stack_args c.stack_count (dyfn_type_size t) v h.stack k,
    );
  }

  -- An argument leaves the places of earlier ones alone.
  prep_arg-Taken :
      (c : DyfnCallArgs) (a : Arg) (p : Place)
      → Taken c p
      → (words_of (prep_arg arch c a) p ≡ words_of c p) × Taken (prep_arg arch c a) p
  unfolding prep_arg
  prep_arg-Taken c (t, v) (int_reg n) h =
      ground (arith, store_word_below c.int_regs c.int_count n (dyfn_type_size t) v)
  prep_arg-Taken c (t, v) (float_reg n) h =
      ground (arith, store_word_below c.float_regs c.float_count n (dyfn_type_size t) v)
  prep_arg-Taken c (t, v) (slot n) h =
      ground (arith, store_word_below c.stack_args c.stack_count n (dyfn_type_size t) v)

  -- An argument goes to its place.
  prep_arg_here :
      (c : DyfnCallArgs) (i f : ℕ) (t : DyfnType) (v : List ℕ)
      → Tracks arch i f c
      → Clear c
      → i + f < 10
      → (words_of (prep_arg arch c (t, v)) (place arch i f t) ≡ some (extended (t, v)))
        × Taken (prep_arg arch c (t, v)) (place arch i f t)
  unfolding prep_arg
  prep_arg_here c i f t v h k lt = ground (
    arith,
    store_word_here c.int_regs c.int_count t v _ k.ints,
    store_word_here c.float_regs c.float_count t v _ k.floats,
    store_word_here c.stack_args c.stack_count t v _ k.stack,
  )

  prep_args-Taken :
      (c : DyfnCallArgs) (args : List Arg) (p : Place)
      → Taken c p
      → words_of (prep_args arch c args) p ≡ words_of c p
  unfolding prep_args
  prep_args-Taken c [] p h = refl
  prep_args-Taken c (a ∷ rest) p h =
      prep_args-Taken (prep_arg arch c a) rest p (prep_arg-Taken c a p h).1
      ∙ (prep_arg-Taken c a p h).0

  next_sum : (i f : ℕ) (t : DyfnType) → next_int i t + next_float f t ≡ i + f + 1
  next_sum i f t = ground arith

  prep_args-Placed :
      (c : DyfnCallArgs) (i f : ℕ) (args : List Arg)
      → Tracks arch i f c
      → Clear c
      → i + f + length args ≤ 10
      → Placed arch i f args (words_of (prep_args arch c args))
  unfolding prep_args
  prep_args-Placed c i f [] h k le = tt
  prep_args-Placed c i f ((t, v) ∷ rest) h k le =
      let (there, taken) = prep_arg_here c i f t v h k (omega arith) in
      (
        prep_args-Taken (prep_arg arch c (t, v)) rest (place arch i f t) taken ∙ there,
        prep_args-Placed (prep_arg arch c (t, v)) (next_int i t) (next_float f t) rest
            (prep_arg-Tracks c i f t v h) (prep_arg-Clear c t v k) (omega (arith, next_sum i f t)),
      )

  prep_args-Tracks :
      (c : DyfnCallArgs) (i f : ℕ) (args : List Arg)
      → Tracks arch i f c
      → Tracks arch (i + ints args) (f + floats args) (prep_args arch c args)
  unfolding prep_args
  prep_args-Tracks c i f [] h = ground arith
  prep_args-Tracks c i f ((t, v) ∷ rest) h = ground (
    arith,
    prep_args-Tracks (prep_arg arch c (t, v)) (next_int i t) (next_float f t) rest
        (prep_arg-Tracks c i f t v h),
  )

-- The loop never touches the function or the class of its result.
prep_args-func :
    (arch : Arch) (c : DyfnCallArgs) (args : List Arg)
    → ((prep_args arch c args).func ≡ c.func) × ((prep_args arch c args).ret_class ≡ c.ret_class)
unfolding prep_args prep_arg
prep_args-func arch c [] = (refl, refl)
prep_args-func arch c ((t, v) ∷ rest) =
    ground (arith, prep_args-func arch (prep_arg arch c (t, v)) rest)

pub prep_call-func :
    (arch : Arch) (func : ℕ) (ret_type : DyfnType) (args : List Arg)
    → (dyfn_prep_call arch func ret_type args).func ≡ func
unfolding dyfn_prep_call
prep_call-func arch func ret_type args = (prep_args-func arch (cleared func ret_type) args).0

ints-add-floats : (args : List Arg) → ints args + floats args ≡ length args
ints-add-floats [] = refl
ints-add-floats ((t, v) ∷ rest) = ground (arith, ints-add-floats rest)

cleared-Clear : (func : ℕ) (ret_type : DyfnType) → Clear (cleared func ret_type)
cleared-Clear func ret_type = record {
  ints = λ k le. get_or-replicate 8 k zero_word;
  floats = λ k le. get_or-replicate 8 k zero_word;
  stack = λ k le. get_or-replicate 4 k zero_word;
}

-- With at most ten arguments, `dyfn_prep_call` leaves every argument, zero-extended, in the register
-- or stack slot that the calling convention gives it.
pub prep_call-Placed :
    (arch : Arch) (func : ℕ) (ret_type : DyfnType) (args : List Arg)
    → length args ≤ dyfn_max_args
    → Placed arch 0 0 args (words_of (dyfn_prep_call arch func ret_type args))
unfolding dyfn_prep_call
prep_call-Placed arch func ret_type args h =
    prep_args-Placed arch (cleared func ret_type) 0 0 args (omega arith)
      (cleared-Clear func ret_type) (omega arith)

-- The counters that `dyfn_prep_call` hands to the assembly: with at most ten arguments they say how
-- many registers of each file are in use, no register array and no stack slot is exceeded, and what
-- does not fit in registers is exactly what is spilled.
pub prep_call_counts :
    (arch : Arch) (func : ℕ) (ret_type : DyfnType) (args : List Arg)
    → length args ≤ dyfn_max_args
    → let c = dyfn_prep_call arch func ret_type args in
      (c.int_count ≡ min (ints args) (int_arg_regs arch))
      × (c.float_count ≡ min (floats args) float_arg_regs)
      × (c.int_count + c.float_count + c.stack_count ≡ length args)
      × (c.int_count ≤ 8)
      × (c.float_count ≤ 8)
      × (c.stack_count ≤ 4)
unfolding dyfn_prep_call
prep_call_counts arch func ret_type args h = ground (
  arith,
  ints-add-floats args,
  prep_args-Tracks arch (cleared func ret_type) 0 0 args (omega arith),
)
