-- ===== src/Front/Arrays.antt =====
-- The arrays that `call_impl` and `register_callback` (include/sbox/process.hh) hand to the C side.
use sbox.Prelude.{
  ◌⊎◌, ℕ, zero, suc, ◌+◌, ◌≤◌, ◌≡◌, refl, ◌∙◌, ap, sym, List, [], ◌∷◌, some, none, inl, inr, set,
  take, length, replicate, arith, length-replicate,
}
use sbox.Dyfn.Types.{PBoxType, pbox_type_size}
use sbox.Call.Packing.{Ready}
use sbox.Front.Types.{CppType, void, pbox_type_v, size_of, pbox_type_v-sizes}
use sbox.Front.Call.{fill_arg_types, fill_arg_ptrs, zip_args, array_size}

-- The types that the parameters cross as.
abbrev pub AreMapped : List CppType → List PBoxType → Type 0
AreMapped [] [] = Unit
AreMapped [] (t ∷ types) = ⊥
AreMapped (T ∷ params) [] = ⊥
AreMapped (T ∷ params) (t ∷ types) = (pbox_type_v T ≡ some t) × AreMapped params types

-- Every value is one of its parameter's type.
abbrev pub AreValues : List CppType → List (List ℕ) → Type 0
AreValues [] [] = Unit
AreValues [] (v ∷ values) = ⊥
AreValues (T ∷ params) [] = ⊥
AreValues (T ∷ params) (v ∷ values) = (size_of T ≡ some (length v)) × AreValues params values

module _ {ℓ} {A : Type ℓ} where
  set_all : List A → ℕ → List A → List A
  set_all xs i [] = xs
  set_all xs i (v ∷ vs) = set_all (set xs i v) (i + 1) vs

  set_all_behind :
      (x : A) (xs : List A) (i : ℕ) (vs : List A)
      → set_all (x ∷ xs) (suc i) vs ≡ x ∷ set_all xs i vs
  unfolding set_all
  set_all_behind x xs i [] = refl
  set_all_behind x xs i (v ∷ vs) =
      ap (λ (k : ℕ). set_all (x ∷ set xs i v) k vs) (omega arith)
      ∙ set_all_behind x (set xs i v) (i + 1) vs

  take-set_all : (xs vs : List A) → length vs ≤ length xs → take (length vs) (set_all xs 0 vs) ≡ vs
  unfolding set_all
  take-set_all xs [] h = refl
  take-set_all [] (v ∷ vs) h = absurd (omega arith)
  take-set_all (x ∷ xs) (v ∷ vs) h =
      ap (take (suc (length vs))) (set_all_behind v xs 0 vs)
      ∙ ap (λ (l : List A). v ∷ l) (take-set_all xs vs (omega arith))

fill_arg_types-eq :
    (params : List CppType) (ts : List PBoxType) (i : ℕ) (types : List PBoxType)
    → AreMapped params ts
    → fill_arg_types params i types ≡ some (set_all types i ts)
unfolding fill_arg_types set_all
fill_arg_types-eq [] [] i types m = refl
fill_arg_types-eq [] (t ∷ ts) i types m = absurd m
fill_arg_types-eq (T ∷ params) [] i types m = absurd m
fill_arg_types-eq (T ∷ params) (t ∷ ts) i types (e, m) =
    rw e (fill_arg_types-eq params ts (i + 1) (set types i t) m)

fill_arg_ptrs-eq :
    (values : List (List ℕ)) (i : ℕ) (ptrs : List (List ℕ))
    → fill_arg_ptrs values i ptrs ≡ set_all ptrs i values
unfolding fill_arg_ptrs set_all
fill_arg_ptrs-eq [] i ptrs = refl
fill_arg_ptrs-eq (v ∷ values) i ptrs = fill_arg_ptrs-eq values (i + 1) (set ptrs i v)

room : {A : Type 0} (n : ℕ) (a : A) → n ≤ length (replicate (array_size n) a)
room zero a = omega arith
room (suc n) a = omega (arith, length-replicate {0} (suc n) a)

pub length-mapped :
    (params : List CppType) (ts : List PBoxType) → AreMapped params ts → length ts ≡ length params
length-mapped [] [] m = refl
length-mapped [] (t ∷ ts) m = absurd m
length-mapped (T ∷ params) [] m = absurd m
length-mapped (T ∷ params) (t ∷ ts) (e, m) = ap suc (length-mapped params ts m)

pub length-values :
    (params : List CppType) (values : List (List ℕ))
    → AreValues params values
    → length values ≡ length params
length-values [] [] m = refl
length-values [] (t ∷ ts) m = absurd m
length-values (T ∷ params) [] m = absurd m
length-values (T ∷ params) (t ∷ ts) (e, m) = ap suc (length-values params ts m)

-- The array of types is filled with the parameters' types.
pub fill_arg_types-taken :
    (params : List CppType) (ts : List PBoxType)
    → AreMapped params ts
    → (types : List PBoxType) × (fill_arg_types params 0
          (replicate (array_size (length params)) PBoxType.void)
        ≡ some types)
      × (take (length params) types ≡ ts)
fill_arg_types-taken params ts m =
    let same = length-mapped params ts m in
    let fits = room (length params) PBoxType.void in
    (
      set_all (replicate (array_size (length params)) PBoxType.void) 0 ts,
      fill_arg_types-eq params ts 0 _ m,
      ap (λ (n : ℕ). take n (set_all (replicate (array_size (length params)) PBoxType.void) 0 ts))
            (sym same)
          ∙ take-set_all _ ts (omega arith),
    )

-- The array of pointers is filled with the arguments.
pub fill_arg_ptrs-taken :
    (n : ℕ) (values : List (List ℕ))
    → length values ≡ n
    → take n (fill_arg_ptrs values 0 (replicate (array_size n) [])) ≡ values
fill_arg_ptrs-taken n values e =
    let fits = room {A = List ℕ} n [] in
    ap (take n) (fill_arg_ptrs-eq values 0 _)
    ∙ ap (λ (k : ℕ). take k (set_all (replicate (array_size n) []) 0 values)) (sym e)
    ∙ take-set_all _ values (omega arith)

backed :
    (T : CppType) (t : PBoxType) (n : ℕ)
    → (T ≡ void) ⊎ (size_of T ≡ some (pbox_type_size t))
    → size_of T ≡ some n
    → pbox_type_size t ≤ n
unfolding size_of
backed T t n (inl e) s = absurd (let none_is : none ≡ some n = sym (ap size_of e) ∙ s in cc)
backed T t n (inr e) s = let same : pbox_type_size t ≡ n = cc in omega arith

-- The arguments are as `pbox_call` wants them.
pub zip_args-Ready :
    (params : List CppType) (ts : List PBoxType) (values : List (List ℕ))
    → AreMapped params ts
    → AreValues params values
    → Ready (zip_args ts values)
zip_args-Ready [] [] values m v = tt
zip_args-Ready [] (t ∷ ts) values m v = absurd m
zip_args-Ready (T ∷ params) [] values m v = absurd m
zip_args-Ready (T ∷ params) (t ∷ ts) [] m v = absurd v
zip_args-Ready (T ∷ params) (t ∷ ts) (x ∷ values) (e, m) (s, v) =
    let (named, size, class) = pbox_type_v-sizes T t e in
    (named, backed T t (length x) size s, zip_args-Ready params ts values m v)

pub length-zip_args :
    (ts : List PBoxType) (values : List (List ℕ))
    → length ts ≡ length values
    → length (zip_args ts values) ≡ length ts
length-zip_args [] values e = refl
length-zip_args (t ∷ ts) [] e = absurd (omega arith)
length-zip_args (t ∷ ts) (v ∷ values) e = ap suc (length-zip_args ts values (omega arith))
