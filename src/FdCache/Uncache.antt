-- ===== src/FdCache/Uncache.antt =====
-- `pbox_uncache_fd` forgets one descriptor of the sandbox.
use sbox.Prelude.{
  ℕ, zero, suc, ◌-◌, ◌<◌, ◌≤◌, ◌≡◌, ◌≢◌, List, [], ◌∷◌, if◌then◌else◌, length, get_or, set, ℤ, pos,
  minus_one, eq_ℤ, eq_ℤ_iff, arith, length-set, get_or-set, length-take,
}
use sbox.FdCache.{
  FdCache, FdEntry, direct_max, find_host, lookup_fd, index_direct, index_overflow, swap_remove,
  no_entry, uncache_fd,
}
use sbox.FdCache.Entries.{
  Distinct, find_host-swap_remove, All-get_or, swap_remove-Distinct, All-swap_remove,
}
use sbox.FdCache.Valid.{IsValid}

-- Two host descriptors never stand for the same descriptor of the sandbox.
abbrev pub IsInjective : FdCache → Type 0
IsInjective c = (h k n : ℕ) → lookup_fd c h ≡ pos n → lookup_fd c k ≡ pos n → h ≡ k

-- The search stops at a slot that holds the descriptor.
get_or-index_direct :
    (l : List ℤ) (s : ℤ) → index_direct l s < length l → get_or l (index_direct l s) minus_one ≡ s
unfolding index_direct
get_or-index_direct [] s h = absurd (omega arith)
get_or-index_direct (x ∷ l) s h = ground (arith, eq_ℤ_iff x s, get_or-index_direct l s)

-- Where it stops at the end, no slot holds it.
get_or-ne_of_index :
    (l : List ℤ) (s : ℤ) (i : ℕ)
    → length l ≤ index_direct l s
    → i < length l
    → get_or l i minus_one ≢ s
unfolding index_direct
get_or-ne_of_index [] s i h lt = absurd (omega arith)
get_or-ne_of_index (x ∷ l) s zero h lt = ground (arith, eq_ℤ_iff x s)
get_or-ne_of_index (x ∷ l) s (suc i) h lt = get_or-ne_of_index l s i (ground arith) (omega arith)

find_host-index :
    (l : List FdEntry) (s : ℤ)
    → Distinct l
    → index_overflow l s < length l
    → find_host l (get_or l (index_overflow l s) no_entry).host_fd ≡ s
unfolding index_overflow find_host
find_host-index [] s d h = absurd (omega arith)
find_host-index (x ∷ l) s d h = ground (
  arith,
  eq_ℤ_iff x.sandbox_fd s,
  find_host-index l s d.1,
  All-get_or (λ (e : FdEntry). e.host_fd ≢ x.host_fd) l (index_overflow l s) no_entry d.0,
)

find_host-ne_of_index :
    (l : List FdEntry) (n h : ℕ) → length l ≤ index_overflow l (pos n) → find_host l h ≢ pos n
unfolding index_overflow find_host
find_host-ne_of_index [] n h le = ground arith
find_host-ne_of_index (x ∷ l) n h le =
    ground (arith, eq_ℤ_iff x.sandbox_fd (pos n), find_host-ne_of_index l n h)

length-swap_remove :
    (l : List FdEntry) (j : ℕ) → j < length l → length (swap_remove l j no_entry) ≡ length l - 1
unfolding swap_remove
length-swap_remove l j h = omega (
  arith,
  length-take {0} (length l - 1) (set l j (get_or l (length l - 1) no_entry)),
  length-set {0} l j (get_or l (length l - 1) no_entry),
)

-- `pbox_uncache_fd` keeps the invariant.
pub uncache_fd-IsValid : (c : FdCache) (s : ℤ) → IsValid c → IsValid (uncache_fd c s)
unfolding uncache_fd
uncache_fd-IsValid c s v = ground (
  arith,
  length-set c.direct (index_direct c.direct s) minus_one,
  swap_remove-Distinct c.overflow (index_overflow c.overflow s) v.distinct,
  All-swap_remove _ c.overflow (index_overflow c.overflow s) v.large,
  All-swap_remove _ c.overflow (index_overflow c.overflow s) v.live,
  length-swap_remove c.overflow (index_overflow c.overflow s),
)

-- In a valid cache in which no two host descriptors share it, a sandbox descriptor that is
-- uncached is not returned any more, and every other host descriptor is found as before.
pub lookup_fd-uncache_fd :
    (c : FdCache) (n k : ℕ)
    → IsValid c
    → IsInjective c
    → lookup_fd (uncache_fd c (pos n)) k
      ≡ (if eq_ℤ (lookup_fd c k) (pos n) then minus_one else lookup_fd c k)
unfolding uncache_fd lookup_fd
lookup_fd-uncache_fd c n k v inj = ground (
  arith,
  eq_ℤ_iff (lookup_fd c k) (pos n),
  get_or-index_direct c.direct (pos n),
  get_or-ne_of_index c.direct (pos n) k,
  find_host-index c.overflow (pos n) v.distinct,
  find_host-ne_of_index c.overflow n k,
  get_or-set c.direct i k minus_one minus_one,
  find_host-swap_remove c.overflow j k v.distinct,
  All-get_or (λ (e : FdEntry). direct_max ≤ e.host_fd) c.overflow j no_entry v.large,
  inj i k n,
  inj (get_or c.overflow j no_entry).host_fd k n,
)
  where
    i : ℕ
    i = index_direct c.direct (pos n)

    j : ℕ
    j = index_overflow c.overflow (pos n)
