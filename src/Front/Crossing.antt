-- ===== src/Front/Crossing.antt =====
-- The `pbox_type` map of include/sbox/process.hh keeps what the call path needs of a type.
use sbox.Prelude.{◌≡◌, ◌⊎◌, Bool, true, false, Option, some, none}
use sbox.Dyfn.Types.{PBoxType, code, of_code, pbox_type_size, dyfn_classify, in_float_file}
use sbox.Front.Types.{CppType, void, size_of, is_floating_point}
use sbox.Front.Convert.{is_signed}

-- An enumerator of `enum PBoxType`.
abbrev pub IsKnown : PBoxType → Type 0
IsKnown (PBoxType.unknown n) = ⊥
IsKnown t = Unit

-- Is it one of the signed integers?
abbrev pub is_signed_type : PBoxType → Bool
is_signed_type PBoxType.sint8 = true
is_signed_type PBoxType.sint16 = true
is_signed_type PBoxType.sint32 = true
is_signed_type PBoxType.sint64 = true
is_signed_type t = false

abbrev pub Crosses : CppType → PBoxType → Type 0
Crosses T t =
    IsKnown t
    × (((T ≡ void) × (t ≡ PBoxType.void)) ⊎ (size_of T ≡ some (pbox_type_size t)))
    × (is_signed T ≡ is_signed_type t)
    × (in_float_file (dyfn_classify (of_code (code t))) ≡ is_floating_point T)

abbrev IfCrosses : CppType → Option PBoxType → Type 0
IfCrosses T none = Unit
IfCrosses T (some t) = Crosses T t
