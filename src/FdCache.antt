-- ===== src/FdCache.antt =====
-- The cache of descriptors that the sandbox already holds: `pbox_cache_fd`, `pbox_lookup_fd` and
-- `pbox_uncache_fd` of src/pbox/pbox.c.
pub mod Entries
pub mod Valid
pub mod Uncache
use sbox.Prelude.{
  ℕ, zero, suc, ◌+◌, ◌*◌, ◌^◌, List, [], ◌∷◌, ◌++◌, Bool, ltb, leb, ◌==◌, if◌then◌else◌, length,
  get_or, set, take, ◌-◌, replicate, mul_size, ℤ, minus_one, eq_ℤ,
}

-- PBOX_FD_DIRECT_MAX
abbrev pub direct_max : ℕ
direct_max = 128

-- `struct PBoxFdEntry`
pub record FdEntry : Type 0 where
  pub host_fd : ℕ
  pub sandbox_fd : ℤ

-- `overflow` holds the first `fd_overflow_count` entries of the vector. A host descriptor is a
-- number, since every caller has turned a negative one away.
pub record FdCache : Type 0 where
  pub direct : List ℤ
  pub overflow : List FdEntry
  pub overflow_cap : ℕ

-- As `pbox_create` leaves it.
abbrev pub fresh : FdCache
fresh = record { direct = replicate direct_max minus_one; overflow = []; overflow_cap = 0 }

-- sizeof(struct PBoxFdEntry)
abbrev pub entry_size : ℕ
entry_size = 8

-- `realloc` says whether a request of so many bytes is granted.
unfoldable pub cache_fd : (ℕ → Bool) → FdCache → ℕ → ℤ → FdCache
cache_fd realloc c host_fd sandbox_fd =
    let new_cap = if c.overflow_cap == 0 then 8 else mul_size c.overflow_cap 2 in
    let entry : FdEntry = record { host_fd = host_fd; sandbox_fd = sandbox_fd } in
    if ltb host_fd direct_max
    then record c { direct = set c.direct host_fd sandbox_fd }
    else if leb c.overflow_cap (length c.overflow)
    then if realloc (mul_size new_cap entry_size)
      then record c { overflow = c.overflow ++ (entry ∷ []); overflow_cap = new_cap }
      else c
    else record c { overflow = c.overflow ++ (entry ∷ []) }

-- The loop over the overflow vector.
unfoldable pub find_host : List FdEntry → ℕ → ℤ
find_host [] host_fd = minus_one
find_host (e ∷ rest) host_fd = if e.host_fd == host_fd then e.sandbox_fd else find_host rest host_fd

unfoldable pub lookup_fd : FdCache → ℕ → ℤ
lookup_fd c host_fd =
    if ltb host_fd direct_max
    then get_or c.direct host_fd minus_one
    else find_host c.overflow host_fd

-- The index of the first slot of the direct table that holds a descriptor; the length if none does.
unfoldable pub index_direct : List ℤ → ℤ → ℕ
index_direct [] sandbox_fd = 0
index_direct (x ∷ rest) sandbox_fd =
    if eq_ℤ x sandbox_fd then 0 else index_direct rest sandbox_fd + 1

unfoldable pub index_overflow : List FdEntry → ℤ → ℕ
index_overflow [] sandbox_fd = 0
index_overflow (e ∷ rest) sandbox_fd =
    if eq_ℤ e.sandbox_fd sandbox_fd then 0 else index_overflow rest sandbox_fd + 1

abbrev pub no_entry : FdEntry
no_entry = record { host_fd = 0; sandbox_fd = minus_one }

-- `v[i] = v[--count]`
unfoldable pub swap_remove {ℓ} : {A : Type ℓ} → List A → ℕ → A → List A
swap_remove l i d = take (length l - 1) (set l i (get_or l (length l - 1) d))

unfoldable pub uncache_fd : FdCache → ℤ → FdCache
uncache_fd c sandbox_fd =
    let i = index_direct c.direct sandbox_fd in
    let j = index_overflow c.overflow sandbox_fd in
    if ltb i (length c.direct)
    then record c { direct = set c.direct i minus_one }
    else if ltb j (length c.overflow)
    then record c { overflow = swap_remove c.overflow j no_entry }
    else c
