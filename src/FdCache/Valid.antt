-- ===== src/FdCache/Valid.antt =====
-- The cache's invariant, and what `pbox_cache_fd` makes of it.
use sbox.Prelude.{
  ℕ, ◌*◌, ◌^◌, ◌<◌, ◌≤◌, ◌≡◌, refl, List, [], ◌∷◌, Bool, true, false, ltb, ◌==◌, ◌||◌, ◌&&◌,
  if◌then◌else◌, length, All, mul_size, ℤ, minus_one, is_neg, arith, length-append, length-set,
  get_or-set,
}
use sbox.FdCache.{FdCache, FdEntry, direct_max, entry_size, fresh, cache_fd, find_host, lookup_fd}
use sbox.FdCache.Entries.{Absent, Distinct, find_host-snoc, All-snoc, Distinct-snoc}

pub record IsValid (c : FdCache) : Type 0 where
  pub direct_len : length c.direct ≡ direct_max
  pub distinct : Distinct c.overflow
  pub large : All (λ (e : FdEntry). direct_max ≤ e.host_fd) c.overflow
  pub live : All (λ (e : FdEntry). is_neg e.sandbox_fd ≡ false) c.overflow
  pub in_cap : length c.overflow ≤ c.overflow_cap
  pub allocated : c.overflow_cap * entry_size < 2 ^ 63

-- An allocator never grants more than PTRDIFF_MAX bytes.
abbrev pub IsBounded : (ℕ → Bool) → Type 0
IsBounded realloc = (n : ℕ) → realloc n ≡ true → n < 2 ^ 63

pub fresh-IsValid : IsValid fresh
fresh-IsValid = record {
  direct_len = refl;
  distinct = tt;
  large = tt;
  live = tt;
  in_cap = omega arith;
  allocated = omega arith;
}

-- A vector of live entries in which a search finds nothing has no entry for that descriptor.
Absent-find_host :
    (l : List FdEntry) (h : ℕ)
    → All (λ (e : FdEntry). is_neg e.sandbox_fd ≡ false) l
    → is_neg (find_host l h) ≡ true
    → Absent h l
unfolding find_host
Absent-find_host [] h live miss = tt
Absent-find_host (x ∷ l) h (lx, live) miss =
    (ground arith, Absent-find_host l h live (ground arith))

-- The capacity to which a full vector grows.
abbrev new_cap : FdCache → ℕ
new_cap c = if c.overflow_cap == 0 then 8 else mul_size c.overflow_cap 2

-- Whether `pbox_cache_fd` has room for a descriptor.
abbrev pub has_room : (ℕ → Bool) → FdCache → ℕ → Bool
has_room realloc c host_fd =
    ltb host_fd direct_max
    || (ltb (length c.overflow) c.overflow_cap || realloc (mul_size (new_cap c) entry_size))

-- In a valid cache, after `pbox_cache_fd` a descriptor that was not cached is found, if there was
-- room for it, and every other descriptor is found as before.
pub lookup_fd-cache_fd :
    (realloc : ℕ → Bool) (c : FdCache) (host_fd k : ℕ) (sandbox_fd : ℤ)
    → IsValid c
    → is_neg (lookup_fd c host_fd) ≡ true
    → lookup_fd (cache_fd realloc c host_fd sandbox_fd) k
      ≡ (if host_fd == k && has_room realloc c host_fd then sandbox_fd else lookup_fd c k)
unfolding lookup_fd cache_fd
lookup_fd-cache_fd realloc c host_fd k sandbox_fd v miss = ground (
  arith,
  get_or-set c.direct host_fd k sandbox_fd minus_one,
  find_host-snoc c.overflow (record { host_fd = host_fd; sandbox_fd = sandbox_fd }) k,
  Absent-find_host c.overflow host_fd v.live,
)

-- For a descriptor that is not cached, a descriptor of the sandbox that is not negative and an
-- allocator that grants less than 2^63 bytes, `pbox_cache_fd` keeps the invariant: no descriptor
-- is entered twice, the count stays within the capacity, and the capacity's doubling never wraps.
pub cache_fd-IsValid :
    (realloc : ℕ → Bool) (c : FdCache) (host_fd : ℕ) (sandbox_fd : ℤ)
    → IsBounded realloc
    → IsValid c
    → is_neg sandbox_fd ≡ false
    → is_neg (lookup_fd c host_fd) ≡ true
    → IsValid (cache_fd realloc c host_fd sandbox_fd)
unfolding lookup_fd cache_fd
cache_fd-IsValid realloc c host_fd sandbox_fd bounded v live miss = ground (
  arith,
  length-set c.direct host_fd sandbox_fd,
  length-append {0} c.overflow (record { host_fd = host_fd; sandbox_fd = sandbox_fd } ∷ []),
  bounded (mul_size (new_cap c) entry_size),
  Absent-find_host c.overflow host_fd v.live,
  Distinct-snoc c.overflow (record { host_fd = host_fd; sandbox_fd = sandbox_fd }) v.distinct,
  All-snoc _ c.overflow (record { host_fd = host_fd; sandbox_fd = sandbox_fd }) v.large,
  All-snoc _ c.overflow (record { host_fd = host_fd; sandbox_fd = sandbox_fd }) v.live,
)
