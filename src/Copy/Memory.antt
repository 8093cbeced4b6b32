-- ===== src/Copy/Memory.antt =====
-- Lemmas on the sandbox's memory, and what memcpy(3) promises.
use sbox.Prelude.{
  ℕ, zero, suc, ◌+◌, ◌-◌, ◌<◌, ◌≤◌, ◌≡◌, ◌⊎◌, refl, ◌∙◌, ap, List, [], ◌∷◌, length, take, drop,
  get_or, arith,
}
use sbox.Channel.{mem_storage_size}
use sbox.Copy.{Memory, Memcpy, write, read, chunk_of}

abbrev pub Separate : ℕ → ℕ → ℕ → ℕ → Type 0
Separate a n b m = (a + n ≤ b) ⊎ (b + m ≤ a)

-- On ranges that do not overlap, memcpy copies `n` bytes and changes no other.
pub record IsMemcpy (cpy : Memcpy) : Type 0 where
  pub inside :
      (mem : Memory) (d s n i : ℕ) → Separate d n s n → i < n → cpy mem d s n (d + i) ≡ mem (s + i)
  pub outside :
      (mem : Memory) (d s n j : ℕ) → Separate d n s n → Separate d n j 1 → cpy mem d s n j ≡ mem j

pub get_or-take :
    (l : List ℕ) (n i d e : ℕ) → i < n → n ≤ length l → get_or (take n l) i d ≡ get_or l i e
get_or-take [] zero i d e lt le = absurd (omega arith)
get_or-take [] (suc n) i d e lt le = absurd (omega arith)
get_or-take (x ∷ l) zero i d e lt le = absurd (omega arith)
get_or-take (x ∷ l) (suc n) zero d e lt le = refl
get_or-take (x ∷ l) (suc n) (suc i) d e lt le = get_or-take l n i d e (omega arith) (omega arith)

pub get_or-take_behind : (l : List ℕ) (n i d : ℕ) → n ≤ i → get_or (take n l) i d ≡ d
get_or-take_behind [] zero i d le = refl
get_or-take_behind [] (suc n) i d le = refl
get_or-take_behind (x ∷ l) zero i d le = refl
get_or-take_behind (x ∷ l) (suc n) zero d le = absurd (omega arith)
get_or-take_behind (x ∷ l) (suc n) (suc i) d le = get_or-take_behind l n i d (omega arith)

pub get_or-drop : (l : List ℕ) (n i d : ℕ) → get_or (drop n l) i d ≡ get_or l (n + i) d
get_or-drop [] zero i d = refl
get_or-drop [] (suc n) i d = refl
get_or-drop (x ∷ l) zero i d = ap (λ (k : ℕ). get_or (x ∷ l) k d) (omega arith)
get_or-drop (x ∷ l) (suc n) i d =
    get_or-drop l n i d
    ∙ ap (λ (k : ℕ). get_or (x ∷ l) k d) {x = suc (n + i)} {y = suc n + i} (omega arith)

-- The bytes that were written are there.
pub write_inside :
    (mem : Memory) (at n i e : ℕ) (s : List ℕ)
    → i < n
    → n ≤ length s
    → write mem at (take n s) (at + i) ≡ get_or s i e
unfolding write
write_inside mem at n i e s lt le =
    let k : at + i - at ≡ i = omega arith in
    ground (arith, get_or-take s n i (mem (at + i)) e lt le, k)

pub write_outside :
    (mem : Memory) (at n j : ℕ) (s : List ℕ) → Separate at n j 1 → write mem at (take n s) j ≡ mem j
unfolding write
write_outside mem at n j s sep = ground (arith, get_or-take_behind s n (j - at) (mem j))

pub chunk_of_bounds :
    (n : ℕ) → 0 < n → (0 < chunk_of n) × (chunk_of n ≤ n) × (chunk_of n ≤ mem_storage_size)
unfolding chunk_of
chunk_of_bounds n h = ground arith

pub length-read : (mem : Memory) (at n : ℕ) → length (read mem at n) ≡ n
unfolding read
length-read mem at zero = refl
length-read mem at (suc n) = ap suc (length-read mem (at + 1) n)

pub get_or-read : (mem : Memory) (at n i d : ℕ) → i < n → get_or (read mem at n) i d ≡ mem (at + i)
unfolding read
get_or-read mem at zero i d lt = absurd (omega arith)
get_or-read mem at (suc n) zero d lt = ap mem (omega arith)
get_or-read mem at (suc n) (suc i) d lt =
    get_or-read mem (at + 1) n i d (omega arith) ∙ ap mem (omega arith)
