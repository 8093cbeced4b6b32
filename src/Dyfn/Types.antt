-- ===== src/Dyfn/Types.antt =====
-- The FFI type codes of the two sides, src/pbox/pbox.h and src/dyfn/dyfn.h, and their sizes
-- (src/pbox/pbox.c, src/dyfn/dyfn.c).
use sbox.Prelude.{ℕ, ◌≤◌, ◌≡◌, refl, Bool, true, false, ◌==◌, if◌then◌else◌, arith}

-- `enum PBoxType`. `unknown` is an int that names no enumerator.
pub data PBoxType : Type 0 where
  void uint8 sint8 uint16 sint16 uint32 sint32 uint64 sint64 float double pointer : PBoxType
  unknown : ℕ → PBoxType

-- `enum DyfnType`
pub data DyfnType : Type 0 where
  void uint8 sint8 uint16 sint16 uint32 sint32 uint64 sint64 float double pointer : DyfnType
  unknown : ℕ → DyfnType

-- `enum DyfnClass`
pub data DyfnClass : Type 0 where
  int float double void : DyfnClass

-- The number by which a host type crosses the shared channel.
unfoldable pub code : PBoxType → ℕ
code PBoxType.void = 0
code PBoxType.uint8 = 1
code PBoxType.sint8 = 2
code PBoxType.uint16 = 3
code PBoxType.sint16 = 4
code PBoxType.uint32 = 5
code PBoxType.sint32 = 6
code PBoxType.uint64 = 7
code PBoxType.sint64 = 8
code PBoxType.float = 9
code PBoxType.double = 10
code PBoxType.pointer = 11
code (PBoxType.unknown n) = n

-- The cast `(enum DyfnType) n` on the sandbox's side.
unfoldable pub of_code : ℕ → DyfnType
of_code n =
    if n == 0
    then DyfnType.void
    else if n == 1
    then DyfnType.uint8
    else if n == 2
    then DyfnType.sint8
    else if n == 3
    then DyfnType.uint16
    else if n == 4
    then DyfnType.sint16
    else if n == 5
    then DyfnType.uint32
    else if n == 6
    then DyfnType.sint32
    else if n == 7
    then DyfnType.uint64
    else if n == 8
    then DyfnType.sint64
    else if n == 9
    then DyfnType.float
    else if n == 10
    then DyfnType.double
    else if n == 11
    then DyfnType.pointer
    else DyfnType.unknown n

-- Bytes of a value, on a 64-bit target.
unfoldable pub pbox_type_size : PBoxType → ℕ
pbox_type_size PBoxType.void = 0
pbox_type_size PBoxType.uint8 = 1
pbox_type_size PBoxType.sint8 = 1
pbox_type_size PBoxType.uint16 = 2
pbox_type_size PBoxType.sint16 = 2
pbox_type_size PBoxType.uint32 = 4
pbox_type_size PBoxType.sint32 = 4
pbox_type_size PBoxType.uint64 = 8
pbox_type_size PBoxType.sint64 = 8
pbox_type_size PBoxType.float = 4
pbox_type_size PBoxType.double = 8
pbox_type_size PBoxType.pointer = 8
pbox_type_size (PBoxType.unknown n) = 0

unfoldable pub dyfn_type_size : DyfnType → ℕ
dyfn_type_size DyfnType.void = 0
dyfn_type_size DyfnType.uint8 = 1
dyfn_type_size DyfnType.sint8 = 1
dyfn_type_size DyfnType.uint16 = 2
dyfn_type_size DyfnType.sint16 = 2
dyfn_type_size DyfnType.uint32 = 4
dyfn_type_size DyfnType.sint32 = 4
dyfn_type_size DyfnType.uint64 = 8
dyfn_type_size DyfnType.sint64 = 8
dyfn_type_size DyfnType.float = 4
dyfn_type_size DyfnType.double = 8
dyfn_type_size DyfnType.pointer = 8
dyfn_type_size (DyfnType.unknown n) = 0

unfoldable pub dyfn_classify : DyfnType → DyfnClass
dyfn_classify DyfnType.float = DyfnClass.float
dyfn_classify DyfnType.double = DyfnClass.double
dyfn_classify DyfnType.void = DyfnClass.void
dyfn_classify t = DyfnClass.int

-- `cls == DYFN_CLASS_FLOAT || cls == DYFN_CLASS_DOUBLE`
unfoldable pub in_float_file : DyfnClass → Bool
in_float_file DyfnClass.float = true
in_float_file DyfnClass.double = true
in_float_file DyfnClass.int = false
in_float_file DyfnClass.void = false

-- An int that the enumeration does not name: host code holds such a value only by a cast.
abbrev pub IsNamed : PBoxType → Type 0
IsNamed (PBoxType.unknown n) = 12 ≤ n
IsNamed t = Unit

-- Host and sandbox agree on the size of every type that crosses the channel.
pub dyfn_type_size-of_code :
    (t : PBoxType) → IsNamed t → dyfn_type_size (of_code (code t)) ≡ pbox_type_size t
unfolding dyfn_type_size of_code code pbox_type_size
dyfn_type_size-of_code PBoxType.void h = refl
dyfn_type_size-of_code (PBoxType.unknown n) h = ground arith
dyfn_type_size-of_code t h = refl

pub dyfn_type_size-le : (t : DyfnType) → dyfn_type_size t ≤ 8
unfolding dyfn_type_size
dyfn_type_size-le DyfnType.void = omega arith
dyfn_type_size-le t = omega arith

pub pbox_type_size-le : (t : PBoxType) → pbox_type_size t ≤ 8
unfolding pbox_type_size
pbox_type_size-le PBoxType.void = omega arith
pbox_type_size-le t = omega arith
