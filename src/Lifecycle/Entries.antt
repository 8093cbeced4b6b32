-- ===== src/Lifecycle/Entries.antt =====
-- What the entries of the vector of channels stand for, when one is changed or taken out
-- (src/pbox/pbox.c).
use sbox.Prelude.{
  Bool-cases, inl, inr, ℕ, zero, suc, ◌+◌, ◌-◌, ◌<◌, ◌≡◌, sym, ◌∙◌, ap, List, [], ◌∷◌, ◌==◌, some,
  length, get_or, get_elem?, set, take, arith, length-set, get_or-set, lt→ltb, ==_iff,
}
use sbox.FdCache.{swap_remove}
use sbox.Threads.{Resource, ThreadChannel, index_channel, unlist}
use sbox.Lifecycle.{resources_of}
use sbox.Lifecycle.Destroy.{count, all_resources, count-append}

-- How often `r` is among what an entry stands for, and what all entries stand for.
abbrev pub weight : Resource → ThreadChannel → ℕ
weight r t = count r (resources_of t)

abbrev pub total : Resource → List ThreadChannel → ℕ
total r l = count r (all_resources l)

total-cons :
    (r : Resource) (t : ThreadChannel) (l : List ThreadChannel)
    → total r (t ∷ l) ≡ weight r t + total r l
unfolding all_resources
total-cons r t l = count-append r (resources_of t) (all_resources l)

pub total-set :
    (r : Resource) (l : List ThreadChannel) (i : ℕ) (t new : ThreadChannel)
    → get_elem? l i ≡ some t
    → total r (set l i new) + weight r t ≡ total r l + weight r new
total-set r [] i t new e = cc
total-set r (x ∷ l) zero t new e =
    let same : weight r x ≡ weight r t = let one : x ≡ t = cc in ap (weight r) one in
    omega (arith, total-cons r new l, total-cons r x l, same)
total-set r (x ∷ l) (suc i) t new e =
    omega (arith, total-cons r x (set l i new), total-cons r x l, total-set r l i t new e)

total-take :
    (r : Resource) (n : ℕ) (l : List ThreadChannel) (d : ThreadChannel)
    → length l ≡ suc n
    → total r (take n l) + weight r (get_or l n d) ≡ total r l
total-take r n [] d e = absurd (omega arith)
total-take r zero (x ∷ []) d e = omega (arith, total-cons r x [])
total-take r zero (x ∷ y ∷ l) d e = absurd (omega arith)
total-take r (suc n) (x ∷ l) d e =
    omega (arith, total-cons r x (take n l), total-cons r x l, total-take r n l d (omega arith))

get_elem?-lt :
    (l : List ThreadChannel) (i : ℕ) (t : ThreadChannel) → get_elem? l i ≡ some t → i < length l
get_elem?-lt [] i t e = cc
get_elem?-lt (x ∷ l) zero t e = omega arith
get_elem?-lt (x ∷ l) (suc i) t e = let rest = get_elem?-lt l i t e in omega arith

-- The last entry takes the place of the one that goes.
total-swap_remove :
    (r : Resource) (l : List ThreadChannel) (i : ℕ) (t d : ThreadChannel)
    → get_elem? l i ≡ some t
    → total r (swap_remove l i d) + weight r t ≡ total r l
unfolding swap_remove
total-swap_remove r l i t d e =
    let inside = get_elem?-lt l i t e in
    let n = length l - 1 in
    let last = get_or l n d in
    let moved = set l i last in
    let len : length moved ≡ suc n = omega (arith, length-set {0} l i last) in
    let at_end : get_or moved n d ≡ last = ground (arith, get_or-set l i n last d inside) in
    let same : weight r (get_or moved n d) ≡ weight r last = ap (weight r) at_end in
    omega (arith, total-take r n moved d len, total-set r l i t last e, same)

-- The entry that the loop finds has that address.
pub index_channel-found :
    (l : List ThreadChannel) (addr : ℕ) (t : ThreadChannel)
    → get_elem? l (index_channel l addr) ≡ some t
    → t.addr ≡ addr
unfolding index_channel
index_channel-found [] addr t e = cc
index_channel-found (x ∷ l) addr t e = elim (Bool-cases (x.addr == addr)) [
  | inl here ↦
      let first : some x ≡ some t = rw here at e in
      let one : x ≡ t = cc in
      sym (ap (λ (c : ThreadChannel). c.addr) one) ∙ (==_iff x.addr addr).0 here
  | inr other ↦
      let later : get_elem? (x ∷ l) (index_channel l addr + 1) ≡ some t = rw other at e in
      let next : suc (index_channel l addr) ≡ index_channel l addr + 1 = omega arith in
      index_channel-found l addr t (ap (get_elem? (x ∷ l)) next ∙ later)
]

pub total-unlist :
    (r : Resource) (l : List ThreadChannel) (addr : ℕ) (t : ThreadChannel)
    → get_elem? l (index_channel l addr) ≡ some t
    → total r (unlist l t) + weight r t ≡ total r l
unfolding unlist
total-unlist r l addr t e =
    let same = index_channel-found l addr t e in
    let at : get_elem? l (index_channel l t.addr) ≡ some t =
      ap (λ (a : ℕ). get_elem? l (index_channel l a)) same ∙ e in
    let inside = get_elem?-lt l (index_channel l t.addr) t at in
    rw (lt→ltb (index_channel l t.addr) (length l) inside)
      (total-swap_remove r l (index_channel l t.addr) t t at)
