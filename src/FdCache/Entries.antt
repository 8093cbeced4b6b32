-- ===== src/FdCache/Entries.antt =====
-- The overflow vector as a list of entries with distinct host descriptors.
use sbox.Prelude.{
  ℕ, zero, suc, ◌-◌, ◌<◌, ◌≡◌, ◌≢◌, refl, sym, ◌∙◌, ap, List, [], ◌∷◌, ◌++◌, ◌==◌, if◌then◌else◌,
  length, get_or, set, take, All, minus_one, arith,
}
use sbox.FdCache.{FdEntry, find_host, swap_remove, no_entry}

abbrev pub Absent : ℕ → List FdEntry → Type 0
Absent h l = All (λ (e : FdEntry). e.host_fd ≢ h) l

abbrev pub Distinct : List FdEntry → Type 0
Distinct [] = Unit
Distinct (e ∷ l) = Absent e.host_fd l × Distinct l

-- What a new entry at the end changes.
pub find_host-snoc :
    (l : List FdEntry) (e : FdEntry) (k : ℕ)
    → Absent e.host_fd l
    → find_host (l ++ (e ∷ [])) k ≡ (if e.host_fd == k then e.sandbox_fd else find_host l k)
unfolding find_host
find_host-snoc [] e k h = refl
find_host-snoc (x ∷ l) e k (ne, h) = ground (arith, find_host-snoc l e k h)

pub find_host-Absent : (l : List FdEntry) (h : ℕ) → Absent h l → find_host l h ≡ minus_one
unfolding find_host
find_host-Absent [] h a = refl
find_host-Absent (x ∷ l) h (ne, a) = ground (arith, find_host-Absent l h a)

pub All-get_or :
    {A : Type 0} (P : A → Type 0) (l : List A) (i : ℕ) (d : A)
    → All P l
    → i < length l
    → P (get_or l i d)
All-get_or P [] i d h lt = absurd (omega arith)
All-get_or P (x ∷ l) zero d h lt = h.0
All-get_or P (x ∷ l) (suc i) d h lt = All-get_or P l i d h.1 (omega arith)

pub All-snoc :
    {A : Type 0} (P : A → Type 0) (l : List A) (x : A) → All P l → P x → All P (l ++ (x ∷ []))
All-snoc P [] x h p = (p, tt)
All-snoc P (y ∷ l) x h p = (h.0, All-snoc P l x h.1 p)

All-take : {A : Type 0} (P : A → Type 0) (n : ℕ) (l : List A) → All P l → All P (take n l)
All-take P zero l h = tt
All-take P (suc n) [] h = tt
All-take P (suc n) (x ∷ l) h = (h.0, All-take P n l h.1)

All-set :
    {A : Type 0} (P : A → Type 0) (l : List A) (i : ℕ) (x : A) → All P l → P x → All P (set l i x)
All-set P [] i x h p = tt
All-set P (y ∷ l) zero x h p = (p, h.1)
All-set P (y ∷ l) (suc i) x h p = (h.0, All-set P l i x h.1 p)

pub Distinct-snoc :
    (l : List FdEntry) (e : FdEntry) → Distinct l → Absent e.host_fd l → Distinct (l ++ (e ∷ []))
Distinct-snoc [] e d h = (tt, tt)
Distinct-snoc (x ∷ l) e (ax, d) (ne, h) =
    (All-snoc _ l e ax (λ q. ne (sym q)), Distinct-snoc l e d h)

-- The list without its last element, that element in front.
abbrev rotated : FdEntry → List FdEntry → List FdEntry
rotated y l = get_or (y ∷ l) (length l) no_entry ∷ take (length l) (y ∷ l)

find_host-rotated :
    (y : FdEntry) (l : List FdEntry) (h : ℕ)
    → Distinct (y ∷ l)
    → find_host (rotated y l) h ≡ find_host (y ∷ l) h
unfolding find_host
find_host-rotated y [] h d = refl
find_host-rotated y (z ∷ l) h (ay, d) = ground (
  arith,
  find_host-rotated z l h d,
  All-get_or (λ (e : FdEntry). e.host_fd ≢ y.host_fd) (z ∷ l) (length l) no_entry ay (omega arith),
)

Distinct-rotated : (y : FdEntry) (l : List FdEntry) → Distinct (y ∷ l) → Distinct (rotated y l)
Distinct-rotated y [] d = (tt, tt)
Distinct-rotated y (z ∷ l) (ay, d) =
    let last-ne =
      All-get_or (λ (e : FdEntry). e.host_fd ≢ y.host_fd) (z ∷ l) (length l) no_entry ay
        (omega arith) in
    let rest = Distinct-rotated z l d in
    ((λ q. last-ne (sym q), rest.0), (All-take _ (length l) (z ∷ l) ay, rest.1))

suc_sub_one : (n : ℕ) → suc n - 1 ≡ n
suc_sub_one n = omega arith

swap_remove-zero :
    (y z : FdEntry) (l : List FdEntry) → swap_remove (y ∷ z ∷ l) 0 no_entry ≡ rotated z l
unfolding swap_remove
swap_remove-zero y z l = rw (suc_sub_one (suc (length l)))

swap_remove-suc :
    (y z : FdEntry) (l : List FdEntry) (j : ℕ)
    → swap_remove (y ∷ z ∷ l) (suc j) no_entry ≡ y ∷ swap_remove (z ∷ l) j no_entry
unfolding swap_remove
swap_remove-suc y z l j = rw (suc_sub_one (suc (length l)), suc_sub_one (length l))

-- Removing the entry at `j` forgets its host descriptor and no other.
pub find_host-swap_remove :
    (l : List FdEntry) (j h : ℕ)
    → Distinct l
    → j < length l
    → find_host (swap_remove l j no_entry) h
      ≡ (if (get_or l j no_entry).host_fd == h then minus_one else find_host l h)
unfolding find_host
find_host-swap_remove [] j h d lt = absurd (omega arith)
find_host-swap_remove (y ∷ []) zero h d lt = unfold swap_remove in ground arith
find_host-swap_remove (y ∷ []) (suc j) h d lt = absurd (omega arith)
find_host-swap_remove (y ∷ z ∷ l) zero h d lt =
    ap (λ (r : List FdEntry). find_host r h) (swap_remove-zero y z l)
    ∙ find_host-rotated z l h d.1
    ∙ ground (arith, find_host-Absent (z ∷ l) y.host_fd d.0)
find_host-swap_remove (y ∷ z ∷ l) (suc j) h d lt =
    ap (λ (r : List FdEntry). find_host r h) (swap_remove-suc y z l j)
    ∙ ground (
      arith,
      find_host-swap_remove (z ∷ l) j h d.1 (omega arith),
      All-get_or (λ (e : FdEntry). e.host_fd ≢ y.host_fd) (z ∷ l) j no_entry d.0 (omega arith),
    )

pub All-swap_remove :
    (P : FdEntry → Type 0) (l : List FdEntry) (j : ℕ)
    → All P l
    → j < length l
    → All P (swap_remove l j no_entry)
unfolding swap_remove
All-swap_remove P l j h lt =
    All-take P (length l - 1) _
      (All-set P l j _ h (All-get_or P l (length l - 1) no_entry h (omega arith)))

pub swap_remove-Distinct :
    (l : List FdEntry) (j : ℕ) → Distinct l → j < length l → Distinct (swap_remove l j no_entry)
swap_remove-Distinct [] j d lt = absurd (omega arith)
swap_remove-Distinct (y ∷ []) zero d lt = unfold swap_remove in tt
swap_remove-Distinct (y ∷ []) (suc j) d lt = absurd (omega arith)
swap_remove-Distinct (y ∷ z ∷ l) zero d lt = rw (swap_remove-zero y z l) (Distinct-rotated z l d.1)
swap_remove-Distinct (y ∷ z ∷ l) (suc j) d lt = rw (swap_remove-suc y z l j) (
  All-swap_remove _ (z ∷ l) j d.0 (omega arith),
  swap_remove-Distinct (z ∷ l) j d.1 (omega arith),
)
