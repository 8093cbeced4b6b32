-- ===== src/Dyfn/Closure.antt =====
-- The closure slots of src/dyfn/dyfn.c: `dyfn_closure_alloc` and `dyfn_closure_free_all`.
use sbox.Prelude.{
  ℕ, ◌+◌, ◌≤◌, ◌≡◌, refl, Bool, true, false, List, [], ◌++◌, some, leb, if◌then◌else◌, length,
  get_elem?, get_or, ◌∙◌, set, take, drop, ℤ, arith, get_elem?-set, ◌==◌, length-set, leb→le,
  Bool-cases, inl, inr, ◌⊎◌,
}
use sbox.Dyfn.Types.{DyfnType}

-- DYFN_MAX_CLOSURES
abbrev pub max_closures : ℕ
max_closures = 64

-- `struct DyfnClosureInfo`
pub record ClosureInfo : Type 0 where
  pub callback_id : ℤ
  pub nargs : ℕ
  pub arg_types : List DyfnType
  pub ret_type : DyfnType
  pub active : Bool

-- The slots of one thread.
pub record Closures : Type 0 where
  pub info : List ClosureInfo
  pub count : ℕ

-- The fields that `dyfn_closure_alloc` writes into a slot; the types behind `nargs` stay.
abbrev pub fill_info : ClosureInfo → ℤ → DyfnType → ℕ → List DyfnType → ClosureInfo
fill_info old callback_id ret_type nargs arg_types = record {
  callback_id = callback_id;
  nargs = nargs;
  arg_types = take nargs arg_types ++ drop nargs old.arg_types;
  ret_type = ret_type;
  active = true;
}

abbrev pub no_info : ClosureInfo
no_info = record {
  callback_id = ℤ.pos 0;
  nargs = 0;
  arg_types = [];
  ret_type = DyfnType.void;
  active = false;
}

-- `stubs` is the table of the assembly's stubs, by address; NULL is 0.
unfoldable pub closure_alloc : (ℕ → ℕ) → Closures → ℤ → DyfnType → ℕ → List DyfnType → ℕ × Closures
closure_alloc stubs c callback_id ret_type nargs arg_types =
    let slot = c.count in
    let filled = fill_info (get_or c.info slot no_info) callback_id ret_type nargs arg_types in
    if leb max_closures c.count
    then (0, c)
    else (stubs slot, record { info = set c.info slot filled; count = slot + 1 })

unfoldable pub closure_free_all : Closures → Closures
closure_free_all c = record c { count = 0 }

pub record IsValid (c : Closures) : Type 0 where
  pub info_len : length c.info ≡ max_closures
  pub in_range : c.count ≤ max_closures

-- While a slot is free, an allocation returns the stub of the next one, fills that slot with the
-- callback's number and types and leaves every other slot `j` as it was; when all 64 are taken it
-- returns NULL and changes nothing. Either way valid slots stay valid.
pub closure_alloc_lem :
    (stubs : ℕ → ℕ) (c : Closures) (callback_id : ℤ) (ret_type : DyfnType) (nargs : ℕ)
    (arg_types : List DyfnType) (j : ℕ)
    → IsValid c
    → let (p, c') = closure_alloc stubs c callback_id ret_type nargs arg_types in
      IsValid c'
      × (((c.count ≡ max_closures) × (p ≡ 0) × (c' ≡ c))
          ⊎ ((c'.count ≡ c.count + 1)
              × (p ≡ stubs c.count)
              × (get_elem? c'.info j ≡ (
                  if c.count == j
                  then some (
                      fill_info
                        (get_or c.info c.count no_info)
                        callback_id
                        ret_type
                        nargs
                        arg_types)
                  else get_elem? c.info j))))
unfolding closure_alloc
closure_alloc_lem stubs c callback_id ret_type nargs arg_types j v =
    let filled = fill_info (get_or c.info c.count no_info) callback_id ret_type nargs arg_types in
    elim (Bool-cases (leb max_closures c.count)) [
      | inl full ↦ rw full (v, inl (omega (arith, leb→le _ _ full, v.in_range), refl, refl))
      | inr free ↦ rw free (
        record {
          info_len = length-set c.info c.count filled ∙ v.info_len;
          in_range = ground arith;
        },
        inr (refl, refl, get_elem?-set c.info c.count j filled (ground arith)),
      )
    ]
