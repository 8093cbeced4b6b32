-- ===== src/Front/Check.antt =====
-- Pointer arguments of sandbox calls: `check_sbox_ptr_arg` and the conversions of
-- include/sbox/sbox.hh.
use sbox.Prelude.{
  ◌≡◌, ◌⊎◌, ◌↔◌, ap, sym, inl, inr, refl, Bool, true, false, not, ◌&&◌, if◌then◌else◌,
}
use sbox.Front.Types.{CppType, Cv, CppType-discrete, pointer, function, sbox_ptr, sbox_safe_ptr}

-- Does a decision say yes?
abbrev pub holds {ℓ} : {P : Type ℓ} → Dec P → Bool
holds (yes p) = true
holds (no n) = false

-- `std::is_same_v`
unfoldable pub is_same : CppType → CppType → Bool
unfolding CppType-discrete
is_same S T = holds (CppType-discrete S T)

-- `is_sbox_ptr_v` and `is_sbox_safe_ptr_v`
unfoldable pub is_sbox_ptr : CppType → Bool
is_sbox_ptr (sbox_ptr cv T) = true
is_sbox_ptr T = false

unfoldable pub is_sbox_safe_ptr : CppType → Bool
is_sbox_safe_ptr (sbox_safe_ptr cv T) = true
is_sbox_safe_ptr T = false

unfoldable pub sbox_inner_type : CppType → CppType
sbox_inner_type (sbox_ptr cv T) = pointer cv T
sbox_inner_type (sbox_safe_ptr cv T) = pointer cv T
sbox_inner_type T = T

-- `std::remove_cv_t<std::remove_pointer_t<T>>`
unfoldable pub bare_target : CppType → CppType
bare_target (pointer cv T) = T
bare_target T = T

-- `std::is_function_v<std::remove_pointer_t<T>>`
unfoldable pub targets_function : CppType → Bool
targets_function (pointer cv (function R As)) = true
targets_function (function R As) = true
targets_function T = false

-- `std::is_pointer_v`
unfoldable pub is_pointer : CppType → Bool
is_pointer (pointer cv T) = true
is_pointer T = false

unfoldable pub check_sbox_ptr_arg : CppType → CppType → Bool
check_sbox_ptr_arg Param Arg =
    if not (is_pointer Param)
    then true
    else if not (is_sbox_ptr Arg) && not (is_sbox_safe_ptr Arg)
    then false
    else let Inner = sbox_inner_type Arg in
      if targets_function Param
      then is_same Inner Param
      else is_same (bare_target Param) (bare_target Inner)

holds_iff {ℓ} : {P : Type ℓ} (d : Dec P) → (holds d ≡ true) ↔ P
holds_iff (yes p) = (λ h. p, λ h. refl)
holds_iff (no n) = (λ h. cc, λ h. absurd (n h))

pub is_same_iff : (S T : CppType) → (is_same S T ≡ true) ↔ (S ≡ T)
unfolding is_same
is_same_iff S T = holds_iff (CppType-discrete S T)

-- The argument is a wrapper of a pointer to T.
abbrev pub Wraps : CppType → Cv → CppType → Type 0
Wraps Arg cv T = (Arg ≡ sbox_ptr cv T) ⊎ (Arg ≡ sbox_safe_ptr cv T)

abbrev pub IsFunction : CppType → Type 0
IsFunction (function R As) = Unit
IsFunction T = ⊥

-- An argument for a parameter that points to T: a wrapped pointer to T, whose qualifiers may differ
-- if T is no function.
abbrev pub IsAccepted : Cv → CppType → CppType → Type 0
IsAccepted cv T Arg = (cv' : Cv) × Wraps Arg cv' T × ((cv ≡ cv') ⊎ ¬ (IsFunction T))

matched :
    (cv cv' : Cv) (T S : CppType)
    → check_sbox_ptr_arg (pointer cv T) (sbox_ptr cv' S) ≡ true
    → (T ≡ S) × ((cv ≡ cv') ⊎ ¬ (IsFunction T))
unfolding check_sbox_ptr_arg is_pointer is_sbox_ptr is_sbox_safe_ptr sbox_inner_type bare_target
    targets_function
matched cv cv' (function R As) S e =
    let same = (is_same_iff (pointer cv' S) (pointer cv (function R As))).0 e in (cc, inl cc)
matched cv cv' T S e = ((is_same_iff T S).0 e, inr (λ h. h))

-- Both wrappers, and nothing else.
wrapped :
    (cv : Cv) (T Arg : CppType) → check_sbox_ptr_arg (pointer cv T) Arg ≡ true → IsAccepted cv T Arg
unfolding check_sbox_ptr_arg is_pointer is_sbox_ptr is_sbox_safe_ptr sbox_inner_type
wrapped cv T (sbox_ptr cv' S) e =
    let (same, qualified) = matched cv cv' T S e in
    (cv', inl (ap (sbox_ptr cv') (sym same)), qualified)
wrapped cv T (sbox_safe_ptr cv' S) e =
    let (same, qualified) = matched cv cv' T S e in
    (cv', inr (ap (sbox_safe_ptr cv') (sym same)), qualified)
wrapped cv T Arg e = cc

accepts_same :
    (cv cv' : Cv) (T : CppType)
    → (cv ≡ cv') ⊎ ¬ (IsFunction T)
    → check_sbox_ptr_arg (pointer cv T) (sbox_ptr cv' T) ≡ true
unfolding check_sbox_ptr_arg is_pointer is_sbox_ptr is_sbox_safe_ptr sbox_inner_type bare_target
    targets_function
accepts_same cv cv' (function R As) (inl q) =
    (is_same_iff _ _).1 (ap (λ (c : Cv). pointer c (function R As)) (sym q))
accepts_same cv cv' (function R As) (inr n) = absurd (n tt)
accepts_same cv cv' T h = (is_same_iff T T).1 refl

accepted :
    (cv : Cv) (T Arg : CppType) → IsAccepted cv T Arg → check_sbox_ptr_arg (pointer cv T) Arg ≡ true
unfolding check_sbox_ptr_arg is_pointer is_sbox_ptr is_sbox_safe_ptr sbox_inner_type
accepted cv T Arg (cv', inl e, q) = rw e (accepts_same cv cv' T q)
accepted cv T Arg (cv', inr e, q) = rw e (accepts_same cv cv' T q)

-- An argument is accepted for a parameter cv T* exactly if it is `sbox` or `sbox_safe` of a pointer to
-- the same T, with any qualifiers, or with the same ones if T is a function. A raw pointer and a
-- number are not.
pub check_sbox_ptr_arg_iff :
    (cv : Cv) (T Arg : CppType)
    → (check_sbox_ptr_arg (pointer cv T) Arg ≡ true) ↔ IsAccepted cv T Arg
check_sbox_ptr_arg_iff cv T Arg = (wrapped cv T Arg, accepted cv T Arg)
