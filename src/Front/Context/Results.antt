-- ===== src/Front/Context/Results.antt =====
-- The blocks of a context's arena through a call: what the function leaves in them, and what the
-- copy-backs carry to the variables (include/sbox/process.hh).
use sbox.Prelude.{
  ltb, get_or, ◌-◌, ℕ, ◌+◌, ◌<◌, ◌≤◌, ◌≡◌, ◌⊎◌, inl, refl, sym, ◌∙◌, ap, List, [], ◌∷◌, length,
  arith, if◌then◌else◌,
}
use sbox.Copy.{Memory, write, read}
use sbox.Front.Context.{Param, out, in_value, inout, assign, run_copybacks, store_results}
use sbox.Front.Context.Bound.{write_other, read-ext, read-write, read-write_apart, Ascending}
use sbox.Front.Context.Bindings.{Binding, hosts, blocks, backs_of, Clear, Sized}

-- Every block of a variable that is written holds its value.
abbrev pub Holding : List Binding → List (List ℕ) → Memory → Type 0
Holding [] values mem = Unit
Holding ((in_value, host, p, n) ∷ bs) values mem = Holding bs values mem
Holding ((out, host, p, n) ∷ bs) [] mem = ⊥
Holding ((out, host, p, n) ∷ bs) (v ∷ values) mem = (read mem p n ≡ v) × Holding bs values mem
Holding ((inout, host, p, n) ∷ bs) [] mem = ⊥
Holding ((inout, host, p, n) ∷ bs) (v ∷ values) mem = (read mem p n ≡ v) × Holding bs values mem

Ascending-le : (lo hi : ℕ) (args : List Param) → Ascending lo hi args → lo ≤ hi
Ascending-le lo hi [] h = h
Ascending-le lo hi ((mode, p, n) ∷ args) (from, h) =
    let rest = Ascending-le (p + n) hi args h in omega arith

-- The results change no byte outside their blocks.
pub store_results_other :
    (lo hi : ℕ) (bs : List Binding) (values : List (List ℕ)) (mem : Memory) (j : ℕ)
    → Ascending lo hi (blocks bs)
    → Sized (blocks bs) values
    → (j < lo) ⊎ (hi ≤ j)
    → store_results (blocks bs) values mem j ≡ mem j
unfolding store_results
store_results_other lo hi [] values mem j asc sized h = refl
store_results_other lo hi ((in_value, host, p, n) ∷ bs) values mem j (from, asc) sized h =
    store_results_other (p + n) hi bs values mem j asc sized (ground arith)
store_results_other lo hi ((out, host, p, n) ∷ bs) [] mem j asc sized h = absurd sized
store_results_other lo hi ((out, host, p, n) ∷ bs) (v ∷ values) mem j (from, asc) (len, sized) h =
    let below = Ascending-le (p + n) hi (blocks bs) asc in
    store_results_other (p + n) hi bs values (write mem p v) j asc sized (ground arith)
    ∙ write_other mem p j v (ground arith)
store_results_other lo hi ((inout, host, p, n) ∷ bs) [] mem j asc sized h = absurd sized
store_results_other lo hi ((inout, host, p, n) ∷ bs) (v ∷ values) mem j (from, asc) (len, sized) h =
    let below = Ascending-le (p + n) hi (blocks bs) asc in
    store_results_other (p + n) hi bs values (write mem p v) j asc sized (ground arith)
    ∙ write_other mem p j v (ground arith)

-- A block that the rest of the results leave alone.
stays :
    (p n hi : ℕ) (bs : List Binding) (v : List ℕ) (values : List (List ℕ)) (mem : Memory)
    → length v ≡ n
    → Ascending (p + n) hi (blocks bs)
    → Sized (blocks bs) values
    → read (store_results (blocks bs) values (write mem p v)) p n ≡ v
stays p n hi bs v values mem len asc sized =
    read-ext (store_results (blocks bs) values (write mem p v)) (write mem p v) p n
      (λ j lo up. store_results_other (p + n) hi bs values (write mem p v) j asc sized (inl up))
    ∙ ap (read (write mem p v) p) (sym len)
    ∙ read-write mem p v

-- When the function is done, every block holds its result.
pub store_results-Holding :
    (lo hi : ℕ) (bs : List Binding) (values : List (List ℕ)) (mem : Memory)
    → Ascending lo hi (blocks bs)
    → Sized (blocks bs) values
    → Holding bs values (store_results (blocks bs) values mem)
unfolding store_results
store_results-Holding lo hi [] values mem asc sized = tt
store_results-Holding lo hi ((in_value, host, p, n) ∷ bs) values mem (from, asc) sized =
    store_results-Holding (p + n) hi bs values mem asc sized
store_results-Holding lo hi ((out, host, p, n) ∷ bs) [] mem asc sized = absurd sized
store_results-Holding lo hi ((out, host, p, n) ∷ bs) (v ∷ values) mem (from, asc) (len, sized) = (
  stays p n hi bs v values mem len asc sized,
  store_results-Holding (p + n) hi bs values (write mem p v) asc sized,
)
store_results-Holding lo hi ((inout, host, p, n) ∷ bs) [] mem asc sized = absurd sized
store_results-Holding lo hi ((inout, host, p, n) ∷ bs) (v ∷ values) mem (from, asc) (len, sized) = (
  stays p n hi bs v values mem len asc sized,
  store_results-Holding (p + n) hi bs values (write mem p v) asc sized,
)

-- A write to a variable does not change the blocks.
Holding-write :
    (lo hi a : ℕ) (bs : List Binding) (values : List (List ℕ)) (mem : Memory) (v : List ℕ)
    → Ascending lo hi (blocks bs)
    → (a + length v ≤ lo) ⊎ (hi ≤ a)
    → Holding bs values mem
    → Holding bs values (write mem a v)
Holding-write lo hi a [] values mem v asc apart h = tt
Holding-write lo hi a ((in_value, host, p, n) ∷ bs) values mem v (from, asc) apart h =
    Holding-write (p + n) hi a bs values mem v asc (ground arith) h
Holding-write lo hi a ((out, host, p, n) ∷ bs) [] mem v asc apart h = absurd h
Holding-write lo hi a ((out, host, p, n) ∷ bs) (w ∷ values) mem v (from, asc) apart (here, h) =
    let below = Ascending-le (p + n) hi (blocks bs) asc in
    (
      read-write_apart mem a p n v (ground arith) ∙ here,
      Holding-write (p + n) hi a bs values mem v asc (ground arith) h,
    )
Holding-write lo hi a ((inout, host, p, n) ∷ bs) [] mem v asc apart h = absurd h
Holding-write lo hi a ((inout, host, p, n) ∷ bs) (w ∷ values) mem v (from, asc) apart (here, h) =
    let below = Ascending-le (p + n) hi (blocks bs) asc in
    (
      read-write_apart mem a p n v (ground arith) ∙ here,
      Holding-write (p + n) hi a bs values mem v asc (ground arith) h,
    )

-- The copy-backs store the results in the variables.
pub copy_back-eq :
    (base size lo : ℕ) (bs : List Binding) (values : List (List ℕ)) (mem : Memory)
    → base ≤ lo
    → Ascending lo (base + size) (blocks bs)
    → Clear base size (hosts bs)
    → Sized (hosts bs) values
    → Holding bs values mem
    → run_copybacks (backs_of bs) mem ≡ store_results (hosts bs) values mem
unfolding run_copybacks store_results assign
copy_back-eq base size lo [] values mem le asc clear sized h = refl
copy_back-eq base size lo ((in_value, host, p, n) ∷ bs) values mem le (from, asc) clear sized h =
    copy_back-eq base size (p + n) bs values mem (omega arith) asc clear.1 sized h
copy_back-eq base size lo ((out, host, p, n) ∷ bs) [] mem le asc clear sized h = absurd h
copy_back-eq base size lo ((out, host, p, n) ∷ bs) (v ∷ values) mem le (from, asc) (here, clear)
      (len, sized) (held, h) =
    ap (λ (w : List ℕ). run_copybacks (backs_of bs) (write mem host w)) held
    ∙ copy_back-eq base size (p + n) bs values (write mem host v) (omega arith) asc clear sized
        (Holding-write (p + n) (base + size) host bs values mem v asc (ground arith) h)
copy_back-eq base size lo ((inout, host, p, n) ∷ bs) [] mem le asc clear sized h = absurd h
copy_back-eq base size lo ((inout, host, p, n) ∷ bs) (v ∷ values) mem le (from, asc) (here, clear)
      (len, sized) (held, h) =
    ap (λ (w : List ℕ). run_copybacks (backs_of bs) (write mem host w)) held
    ∙ copy_back-eq base size (p + n) bs values (write mem host v) (omega arith) asc clear sized
        (Holding-write (p + n) (base + size) host bs values mem v asc (ground arith) h)

write-at : (m m' : Memory) (a j : ℕ) (bs : List ℕ) → m j ≡ m' j → write m a bs j ≡ write m' a bs j
unfolding write
write-at m m' a j bs e = ap (λ (x : ℕ). if ltb j a then x else get_or bs (j - a) x) e

-- A byte of the result depends on that byte alone.
pub store_results-at :
    (vars : List Param) (values : List (List ℕ)) (m m' : Memory) (j : ℕ)
    → m j ≡ m' j
    → store_results vars values m j ≡ store_results vars values m' j
unfolding store_results
store_results-at [] values m m' j e = e
store_results-at ((in_value, a, n) ∷ vars) values m m' j e = store_results-at vars values m m' j e
store_results-at ((out, a, n) ∷ vars) [] m m' j e = e
store_results-at ((out, a, n) ∷ vars) (v ∷ values) m m' j e =
    store_results-at vars values (write m a v) (write m' a v) j (write-at m m' a j v e)
store_results-at ((inout, a, n) ∷ vars) [] m m' j e = e
store_results-at ((inout, a, n) ∷ vars) (v ∷ values) m m' j e =
    store_results-at vars values (write m a v) (write m' a v) j (write-at m m' a j v e)
