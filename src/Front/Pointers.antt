-- ===== src/Front/Pointers.antt =====
-- How pointers pass the checks and conversions of include/sbox/sbox.hh.
use sbox.Prelude.{
  arith, ℕ, ◌≡◌, inl, inr, refl, Bool, true, false, ◌&&◌, Option, none, some, List, if◌then◌else◌,
}
use sbox.Front.Types.{CppType, Cv, pointer, sbox_ptr, sbox_safe_ptr, const}
use sbox.Front.Check.{
  is_pointer, is_sbox_ptr, is_sbox_safe_ptr, check_sbox_ptr_arg, check_sbox_ptr_arg_iff,
  is_same_iff, IsAccepted, Wraps,
}
use sbox.Front.Convert.{
  has_const, has_volatile, within, keeps, reinterpret_cast, static_cast, convert_call_arg,
  wrap_sbox_return, unwrap_sbox_arg,
}

within_self : (c : Cv) → within c c ≡ true
unfolding within has_const has_volatile
within_self const = refl
within_self c = refl

keeps_self : (outer : Bool) (T : CppType) → keeps outer T T ≡ true
unfolding keeps
keeps_self outer (pointer c T) = rw (within_self c, keeps_self (outer && has_const c) T)
keeps_self outer T = refl

reinterpret_cast-eq :
    (c d : Cv) (T : CppType) (v : List ℕ)
    → reinterpret_cast (pointer d T) (pointer c T) v ≡ (if within c d then some v else none)
unfolding reinterpret_cast keeps
reinterpret_cast-eq c d T v = ground (arith, keeps_self (has_const d) T)

converted :
    (other_cast : CppType → CppType → List ℕ → Option (List ℕ)) (cv : Cv) (T Arg : CppType)
    (v : List ℕ)
    → IsAccepted cv T Arg
    → (cv' : Cv) × Wraps Arg cv' T
      × (convert_call_arg other_cast (pointer cv T) Arg v
          ≡ (if within cv' cv then some v else none))
unfolding convert_call_arg
converted other_cast cv T Arg v (cv', inl e, q) =
    (cv', inl e, rw e (reinterpret_cast-eq cv' cv T v))
converted other_cast cv T Arg v (cv', inr e, q) =
    (cv', inr e, rw e (reinterpret_cast-eq cv' cv T v))

-- An argument that is accepted for a parameter cv T* is a wrapped pointer to T. It is converted to
-- the same address where its qualifiers are among cv; where they are not, the program does not
-- compile although the check accepts it.
pub convert_call_arg-accepted :
    (other_cast : CppType → CppType → List ℕ → Option (List ℕ)) (cv : Cv) (T Arg : CppType)
    (v : List ℕ)
    → check_sbox_ptr_arg (pointer cv T) Arg ≡ true
    → (cv' : Cv) × Wraps Arg cv' T
      × (convert_call_arg other_cast (pointer cv T) Arg v
          ≡ (if within cv' cv then some v else none))
convert_call_arg-accepted other_cast cv T Arg v ok =
    converted other_cast cv T Arg v ((check_sbox_ptr_arg_iff cv T Arg).0 ok)

-- What a call returns, unless it is a wrapper itself, can be passed on as an argument of the return
-- type: it is accepted there, and converted to the same value. Unwrapped, it is of the return type
-- again.
pub wrap_sbox_return-passes :
    (other_cast : CppType → CppType → List ℕ → Option (List ℕ)) (R : CppType) (v : List ℕ)
    → is_sbox_ptr R ≡ false
    → is_sbox_safe_ptr R ≡ false
    → (check_sbox_ptr_arg R (wrap_sbox_return R) ≡ true)
      × (convert_call_arg other_cast R (wrap_sbox_return R) v ≡ some v)
      × (unwrap_sbox_arg (wrap_sbox_return R) ≡ R)
unfolding check_sbox_ptr_arg wrap_sbox_return convert_call_arg unwrap_sbox_arg is_sbox_ptr
    is_sbox_safe_ptr is_pointer static_cast
wrap_sbox_return-passes other_cast (pointer cv T) v a b = (
  (check_sbox_ptr_arg_iff cv T (sbox_ptr cv T)).1 (cv, inl refl, inl refl),
  ground (arith, reinterpret_cast-eq cv cv T v, within_self cv),
  refl,
)
wrap_sbox_return-passes other_cast (sbox_ptr cv T) v a b = cc
wrap_sbox_return-passes other_cast (sbox_safe_ptr cv T) v a b = cc
wrap_sbox_return-passes other_cast R v a b = (refl, rw ((is_same_iff R R).1 refl), refl)
