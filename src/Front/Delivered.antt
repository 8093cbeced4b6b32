-- ===== src/Front/Delivered.antt =====
-- A callback from sandbox code to a C++ function and back (include/sbox/process.hh,
-- src/pbox/pbox.c, src/pbox/pbox_sandbox.c).
use sbox.Prelude.{
  zero, suc, ap₂, ℕ, ◌+◌, ◌≤◌, ◌≡◌, refl, ap, sym, ◌∙◌, List, [], ◌∷◌, some, length, take, drop,
  map, get_or, read_at, arith, if◌then◌else◌, read_at-memcpy_to, inl, inr, ◌⊎◌,
}
use sbox.Dyfn.Types.{
  PBoxType, DyfnType, code, of_code, dyfn_type_size, pbox_type_size, dyfn_classify, in_float_file,
  dyfn_type_size-of_code,
}
use sbox.Dyfn.Call.{Arg}
use sbox.Dyfn.Place.{is_float}
use sbox.Sandbox.Recover.{bytes_arg}
use sbox.Sandbox.Dispatch.{ClosureResult, closure_result}
use sbox.Callback.Deliver.{Reads}
use sbox.Front.Types.{CppType, void, size_of, pbox_type_v, pbox_type_v-sizes}
use sbox.Front.Callback.{bytes_of, or_zero, read_callback_arg, read_callback_args}

-- The parameters' types are those of the arguments that the closure hands over.
abbrev pub Matches : List CppType → List Arg → Type 0
Matches [] [] = Unit
Matches [] (a ∷ args) = ⊥
Matches (T ∷ params) [] = ⊥
Matches (T ∷ params) ((t, v) ∷ args) =
    ((p : PBoxType) × (pbox_type_v T ≡ some p) × (t ≡ of_code (code p))) × Matches params args

-- An argument's bytes.
abbrev pub value_of : Arg → List ℕ
value_of (t, v) = take (dyfn_type_size t) v

sized :
    (T : CppType) (p : PBoxType)
    → pbox_type_v T ≡ some p
    → (T ≡ void) ⊎ (size_of T ≡ some (pbox_type_size p))
    → pbox_type_size p ≡ bytes_of T
unfolding bytes_of size_of pbox_type_size pbox_type_v
sized T p e (inl v) =
    let same : some PBoxType.void ≡ some p = sym (ap pbox_type_v v) ∙ e in
    let is_void : PBoxType.void ≡ p = cc in sym (ap pbox_type_size is_void) ∙ sym (ap bytes_of v)
sized T p e (inr h) = sym (ap or_zero h)

-- A type that crosses the channel has one size everywhere.
pub bytes_of_mapped :
    (T : CppType) (p : PBoxType)
    → pbox_type_v T ≡ some p
    → dyfn_type_size (of_code (code p)) ≡ bytes_of T
bytes_of_mapped T p e =
    let (named, size, class) = pbox_type_v-sizes T p e in
    dyfn_type_size-of_code p named ∙ sized T p e size

-- What the sandbox's stub puts into the result register of a type's class.
abbrev pub register : DyfnType → ClosureResult → List ℕ
register t r = if is_float t then r.float_val else r.int_val

pub closure_result_lem :
    (t : DyfnType) (storage : List ℕ) (r : ClosureResult)
    → length r.int_val ≡ 8
    → length r.float_val ≡ 8
    → 8 ≤ length storage
    → take (dyfn_type_size t) (register t (closure_result t storage r))
      ≡ take (dyfn_type_size t) storage
unfolding closure_result dyfn_classify dyfn_type_size in_float_file
closure_result_lem DyfnType.void storage r i f le = refl
closure_result_lem DyfnType.float storage r i f le =
    read_at-memcpy_to r.float_val storage 0 4 (omega arith) (omega arith)
closure_result_lem DyfnType.double storage r i f le =
    read_at-memcpy_to r.float_val storage 0 8 (omega arith) (omega arith)
closure_result_lem t storage r i f le =
    read_at-memcpy_to r.int_val storage 0 (dyfn_type_size t) (omega arith) (omega arith)

get_or-drop :
    (xs os : List ℕ) (i o : ℕ) → drop i xs ≡ o ∷ os → (get_or xs i 0 ≡ o) × (drop (i + 1) xs ≡ os)
get_or-drop [] os zero o e = cc
get_or-drop [] os (suc i) o e = cc
get_or-drop (x ∷ xs) os zero o e = (cc, cc)
get_or-drop (x ∷ xs) os (suc i) o e =
    let (at, behind) = get_or-drop xs os i o e in
    let next : suc i + 1 ≡ suc (i + 1) = omega arith in
    (at, ap (λ (n : ℕ). drop n (x ∷ xs)) next ∙ behind)

-- The function gets the bytes of every argument.
pub read_callback_args-eq :
    (params : List CppType) (args : List Arg) (storage offsets rest : List ℕ) (i : ℕ)
    → Matches params args
    → Reads storage (map bytes_arg args) rest
    → drop i offsets ≡ rest
    → read_callback_args params i storage offsets ≡ map value_of args
unfolding read_callback_args read_callback_arg
read_callback_args-eq [] [] storage offsets rest i m reads e = refl
read_callback_args-eq [] (a ∷ args) storage offsets rest i m reads e = absurd m
read_callback_args-eq (T ∷ params) [] storage offsets rest i m reads e = absurd m
read_callback_args-eq (T ∷ params) (a ∷ args) storage offsets [] i m reads e = absurd reads
read_callback_args-eq (T ∷ params) ((t, v) ∷ args) storage offsets (o ∷ rest) i
      ((p, mapped, type), m) (here, reads) e =
    let (at, behind) = get_or-drop offsets rest i o e in
    let size : dyfn_type_size t ≡ bytes_of T =
      ap dyfn_type_size type ∙ bytes_of_mapped T p mapped in
    ap₂ (λ (x : List ℕ) (l : List (List ℕ)). x ∷ l)
      (ap₂ (λ (a n : ℕ). read_at storage a n) at (sym size) ∙ here)
      (read_callback_args-eq params args storage offsets rest (i + 1) m reads behind)
