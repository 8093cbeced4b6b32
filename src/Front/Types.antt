-- ===== src/Front/Types.antt =====
-- The C++ types that the front ends tell apart, and the `pbox_type` map of
-- include/sbox/process.hh.
use mathlib.Core.Path.{subst}
use sbox.Prelude.{ℕ, ℕ_discrete, ◌≡◌, ◌⊎◌, inl, inr, refl, Bool, true, false, Option, none, some}
use sbox.Dyfn.Types.{PBoxType, code, of_code, pbox_type_size, dyfn_classify, in_float_file, IsNamed}

-- The qualifiers of a pointer's target.
pub data Cv : Type 0 where
  unqualified const volatile const_volatile : Cv

-- `pointer cv T` is cv T*; `sbox_ptr cv T` and `sbox_safe_ptr cv T` are the wrappers of that pointer.
-- `other` numbers the remaining types: bool, enumerations, classes. Parameters and arguments are
-- passed by value, so no type has qualifiers of its own.
mutual
  pub data CppType : Type 0 where
    void char schar uchar short ushort int uint long ulong llong ullong float double : CppType
    pointer : Cv → CppType → CppType
    function : CppType → CppTypes → CppType
    sbox_ptr : Cv → CppType → CppType
    sbox_safe_ptr : Cv → CppType → CppType
    other : ℕ → CppType

  pub data CppTypes : Type 0 where
    end : CppTypes
    next : CppType → CppTypes → CppTypes

unfoldable pub CppType-discrete : Discrete CppType
CppType-discrete = hlevel ℕ_discrete

-- `pbox_type<T>::value` on a 64-bit target; none where the template has no specialisation, so
-- that the program does not compile.
unfoldable pub pbox_type_v : CppType → Option PBoxType
pbox_type_v void = some PBoxType.void
pbox_type_v float = some PBoxType.float
pbox_type_v double = some PBoxType.double
pbox_type_v char = some PBoxType.sint8
pbox_type_v schar = some PBoxType.sint8
pbox_type_v uchar = some PBoxType.uint8
pbox_type_v short = some PBoxType.sint16
pbox_type_v ushort = some PBoxType.uint16
pbox_type_v int = some PBoxType.sint32
pbox_type_v uint = some PBoxType.uint32
pbox_type_v long = some PBoxType.sint64
pbox_type_v ulong = some PBoxType.uint64
pbox_type_v llong = some PBoxType.sint64
pbox_type_v ullong = some PBoxType.uint64
pbox_type_v (pointer cv T) = some PBoxType.pointer
pbox_type_v (sbox_ptr cv T) = some PBoxType.pointer
pbox_type_v (sbox_safe_ptr cv T) = none
pbox_type_v (function R As) = none
pbox_type_v (other n) = none

-- `sizeof`, of the types that have one here. A wrapper is a class whose one member is a pointer.
unfoldable pub size_of : CppType → Option ℕ
size_of char = some 1
size_of schar = some 1
size_of uchar = some 1
size_of short = some 2
size_of ushort = some 2
size_of int = some 4
size_of uint = some 4
size_of long = some 8
size_of ulong = some 8
size_of llong = some 8
size_of ullong = some 8
size_of float = some 4
size_of double = some 8
size_of (pointer cv T) = some 8
size_of (sbox_ptr cv T) = some 8
size_of (sbox_safe_ptr cv T) = some 8
size_of T = none

-- `std::is_floating_point`
unfoldable pub is_floating_point : CppType → Bool
is_floating_point float = true
is_floating_point double = true
is_floating_point T = false

-- A type that is named, and of the size and the register class of the C++ type.
abbrev Fits : CppType → PBoxType → Type 0
Fits T t =
    IsNamed t
    × ((T ≡ void) ⊎ (size_of T ≡ some (pbox_type_size t)))
    × (in_float_file (dyfn_classify (of_code (code t))) ≡ is_floating_point T)

abbrev IfMapped : CppType → Option PBoxType → Type 0
IfMapped T none = Unit
IfMapped T (some t) = Fits T t

pbox_type_v-IfMapped : (T : CppType) → IfMapped T (pbox_type_v T)
unfolding pbox_type_v size_of pbox_type_size in_float_file dyfn_classify of_code code
    is_floating_point
pbox_type_v-IfMapped void = (tt, inl refl, refl)
pbox_type_v-IfMapped (sbox_safe_ptr cv T) = tt
pbox_type_v-IfMapped (function R As) = tt
pbox_type_v-IfMapped (other n) = tt
pbox_type_v-IfMapped T = (tt, inr refl, refl)

-- The type that a C++ type crosses the channel as is not an int that means another enumerator. It has
-- the size of the C++ type, void excepted, which has none, and it travels in the floating-point
-- registers exactly if the C++ type is a floating-point type.
pub pbox_type_v-sizes :
    (T : CppType) (t : PBoxType)
    → pbox_type_v T ≡ some t
    → IsNamed t
      × ((T ≡ void) ⊎ (size_of T ≡ some (pbox_type_size t)))
      × (in_float_file (dyfn_classify (of_code (code t))) ≡ is_floating_point T)
pbox_type_v-sizes T t e = subst (IfMapped T) e (pbox_type_v-IfMapped T)
