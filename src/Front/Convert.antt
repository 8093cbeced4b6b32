-- ===== src/Front/Convert.antt =====
-- Values of C++ types as they are passed: `convert_call_arg`, `unwrap_sbox_arg` and
-- `wrap_sbox_return` of include/sbox/sbox.hh. A value is its object representation; the one of a
-- wrapper is the one of its pointer.
use sbox.Prelude.{
  ℕ, ◌-◌, Bool, true, false, not, ◌&&◌, ◌||◌, Option, none, some, List, [], ◌∷◌, ◌++◌,
  if◌then◌else◌, leb, take, replicate, length,
}
use sbox.Front.Types.{
  CppType, Cv, pointer, sbox_ptr, sbox_safe_ptr, size_of, const, volatile, const_volatile, char,
  schar, uchar, short, ushort, int, uint, long, ulong, llong, ullong,
}
use sbox.Front.Check.{is_same, is_pointer}

unfoldable pub has_const : Cv → Bool
has_const const = true
has_const const_volatile = true
has_const cv = false

unfoldable pub has_volatile : Cv → Bool
has_volatile volatile = true
has_volatile const_volatile = true
has_volatile cv = false

-- No qualifier is lost.
unfoldable pub within : Cv → Cv → Bool
within c d = (not (has_const c) || has_const d) && (not (has_volatile c) || has_volatile d)

-- A pointer conversion that casts no qualifier away, level by level: where a level's qualifiers
-- change, all levels outside it are const in the new type.
unfoldable pub keeps : Bool → CppType → CppType → Bool
keeps outer (pointer c S) (pointer d T) =
    let rest = keeps (outer && has_const d) S T in within c d && ((within d c || outer) && rest)
keeps outer S T = true

-- `reinterpret_cast<To>` of a pointer; none where it is ill-formed.
unfoldable pub reinterpret_cast : CppType → CppType → List ℕ → Option (List ℕ)
reinterpret_cast (pointer d T) From v = if keeps true From (pointer d T) then some v else none
reinterpret_cast long From v = some v
reinterpret_cast ulong From v = some v
reinterpret_cast llong From v = some v
reinterpret_cast ullong From v = some v
reinterpret_cast To From v = none

unfoldable pub is_signed : CppType → Bool
is_signed char = true
is_signed schar = true
is_signed short = true
is_signed int = true
is_signed long = true
is_signed llong = true
is_signed T = false

unfoldable pub is_integer : CppType → Bool
is_integer uchar = true
is_integer ushort = true
is_integer uint = true
is_integer ulong = true
is_integer ullong = true
is_integer T = is_signed T

-- The last byte's top bit.
unfoldable pub is_negative : List ℕ → Bool
is_negative [] = false
is_negative (b ∷ []) = leb 128 b
is_negative (b ∷ (c ∷ rest)) = is_negative (c ∷ rest)

-- An integer in `n` bytes, cut off or extended.
unfoldable pub resize : Bool → ℕ → List ℕ → List ℕ
resize signed n v =
    take n v ++ replicate (n - length v) (if signed && is_negative v then 255 else 0)

-- `static_cast<To>`; `other_cast` has the conversions other than between integers.
unfoldable pub static_cast :
    (CppType → CppType → List ℕ → Option (List ℕ)) → CppType → CppType → List ℕ → Option (List ℕ)
static_cast other_cast To From v =
    if is_same To From
    then some v
    else if is_integer To && is_integer From
    then elim (size_of To) [ none ↦ none | some n ↦ some (resize (is_signed From) n v) ]
    else other_cast To From v

unfoldable pub convert_call_arg :
    (CppType → CppType → List ℕ → Option (List ℕ)) → CppType → CppType → List ℕ → Option (List ℕ)
convert_call_arg other_cast To (sbox_ptr cv T) v = reinterpret_cast To (pointer cv T) v
convert_call_arg other_cast To (sbox_safe_ptr cv T) v = reinterpret_cast To (pointer cv T) v
convert_call_arg other_cast To From v =
    if is_pointer To && is_pointer From
    then reinterpret_cast To From v
    else static_cast other_cast To From v

-- The type of `wrap_sbox_return`'s result; the value is the same.
unfoldable pub wrap_sbox_return : CppType → CppType
wrap_sbox_return (pointer cv T) = sbox_ptr cv T
wrap_sbox_return T = T

unfoldable pub unwrap_sbox_arg : CppType → CppType
unwrap_sbox_arg (sbox_ptr cv T) = pointer cv T
unwrap_sbox_arg (sbox_safe_ptr cv T) = pointer cv T
unwrap_sbox_arg T = T
