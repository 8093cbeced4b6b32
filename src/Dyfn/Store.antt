-- ===== src/Dyfn/Store.antt =====
-- `dyfn_store_result` of src/dyfn/dyfn.c: the result's bytes reach the buffer, and nothing else does.
use sbox.Prelude.{
  ℕ, ◌≤◌, ◌≡◌, refl, List, length, take, if◌then◌else◌, arith, read_at-memcpy_to, length-memcpy_to,
}
use sbox.Dyfn.Types.{DyfnType, dyfn_type_size, dyfn_classify, in_float_file}
use sbox.Dyfn.Call.{DyfnCallResult, dyfn_store_result}
use sbox.Dyfn.Place.{is_float}

-- What the assembly leaves: two eight-byte values.
pub record IsResult (r : DyfnCallResult) : Type 0 where
  pub int_len : length r.int_val ≡ 8
  pub float_len : length r.float_val ≡ 8

-- The bytes of a result of type `t`.
abbrev pub result_bytes : DyfnType → DyfnCallResult → List ℕ
result_bytes t r =
    if is_float t then take (dyfn_type_size t) r.float_val else take (dyfn_type_size t) r.int_val

-- For every type, the first bytes of a buffer of at least eight are, after `dyfn_store_result`, the
-- type's bytes of the register that holds such a result.
pub dyfn_store_result_lem :
    (r : DyfnCallResult) (t : DyfnType) (out : List ℕ)
    → IsResult r
    → 8 ≤ length out
    → take (dyfn_type_size t) (dyfn_store_result r t out) ≡ result_bytes t r
unfolding dyfn_store_result dyfn_classify dyfn_type_size in_float_file
dyfn_store_result_lem r DyfnType.void out h le = refl
dyfn_store_result_lem r DyfnType.float out h le =
    read_at-memcpy_to out r.float_val 0 4 (omega arith) (omega arith)
dyfn_store_result_lem r DyfnType.double out h le =
    read_at-memcpy_to out r.float_val 0 8 (omega arith) (omega arith)
dyfn_store_result_lem r t out h le =
    read_at-memcpy_to out r.int_val 0 (dyfn_type_size t) (omega arith) (omega arith)

-- The buffer keeps its length.
pub length-dyfn_store_result :
    (r : DyfnCallResult) (t : DyfnType) (out : List ℕ)
    → IsResult r
    → 8 ≤ length out
    → length (dyfn_store_result r t out) ≡ length out
unfolding dyfn_store_result dyfn_classify dyfn_type_size
length-dyfn_store_result r DyfnType.void out h le = refl
length-dyfn_store_result r DyfnType.float out h le =
    length-memcpy_to out r.float_val 0 4 (omega arith) (omega arith)
length-dyfn_store_result r DyfnType.double out h le =
    length-memcpy_to out r.float_val 0 8 (omega arith) (omega arith)
length-dyfn_store_result r t out h le =
    length-memcpy_to out r.int_val 0 (dyfn_type_size t) (omega arith) (omega arith)
