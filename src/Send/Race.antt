-- ===== src/Send/Race.antt =====
-- `pbox_close` (src/pbox/pbox.c) closes the descriptor in the sandbox before it takes `fd_lock` to
-- forget it. A `pbox_send_fd` of another thread may come between the two.
use sbox.Prelude.{
  ℕ, zero, suc, ◌<◌, ◌≡◌, ◌≢◌, ◌∙◌, ap, List, [], ◌∷◌, Bool, if◌then◌else◌, ◌==◌, length, get_or,
  set, ℤ, pos, minus_one, eq_ℤ_iff, arith, get_or-set, length-set, lt→ltb,
}
use sbox.FdCache.{FdCache, direct_max, cache_fd, lookup_fd, uncache_fd, index_direct}
use sbox.FdCache.Valid.{IsValid}
use sbox.FdCache.Uncache.{IsInjective}

-- The search stops at the slot that was just written, if no earlier one holds the descriptor.
index_direct-set :
    (l : List ℤ) (k : ℕ) (s : ℤ)
    → k < length l
    → ((i : ℕ) → i < k → get_or l i minus_one ≢ s)
    → index_direct (set l k s) s ≡ k
unfolding index_direct
index_direct-set [] k s h none_before = absurd (omega arith)
index_direct-set (x ∷ l) zero s h none_before = ground (arith, eq_ℤ_iff s s)
index_direct-set (x ∷ l) (suc k) s h none_before = ground (
  arith,
  eq_ℤ_iff x s,
  none_before 0,
  index_direct-set l k s (omega arith) (λ i lt. none_before (suc i) (omega arith)),
)

cache_fd_direct :
    (realloc : ℕ → Bool) (c : FdCache) (k : ℕ) (s : ℤ)
    → k < direct_max
    → cache_fd realloc c k s ≡ record c { direct = set c.direct k s }
unfolding cache_fd
cache_fd_direct realloc c k s h = rw (lt→ltb k direct_max h)

uncache_fd_direct :
    (c : FdCache) (k : ℕ) (s : ℤ)
    → index_direct c.direct s ≡ k
    → k < length c.direct
    → uncache_fd c s ≡ record c { direct = set c.direct k minus_one }
unfolding uncache_fd
uncache_fd_direct c k s e h = rw (e, lt→ltb k (length c.direct) h)

lookup_fd_direct :
    (c : FdCache) (k : ℕ) → k < direct_max → lookup_fd c k ≡ get_or c.direct k minus_one
unfolding lookup_fd
lookup_fd_direct c k h = rw (lt→ltb k direct_max h)

-- Of two host descriptors in the direct table, `k` below `h`: descriptor `n` of the sandbox, sent for
-- `h`, has been closed there but not yet forgotten, and the sandbox's kernel hands `n` out again for
-- `k`, which is cached. Then the late `pbox_uncache_fd` forgets `k`, whose descriptor is open, and keeps `h`, for
-- which the cache goes on returning `n`: the file of `k`.
pub late_uncache_fd_keeps_closed :
    (realloc : ℕ → Bool) (c : FdCache) (h k n : ℕ)
    → IsValid c
    → IsInjective c
    → k < h
    → h < direct_max
    → lookup_fd c h ≡ pos n
    → let c' = uncache_fd (cache_fd realloc c k (pos n)) (pos n) in
      (lookup_fd c' k ≡ minus_one) × (lookup_fd c' h ≡ pos n)
late_uncache_fd_keeps_closed realloc c h k n v inj lt small found =
    let after = set (set c.direct k (pos n)) k minus_one in
    let e : uncache_fd (cache_fd realloc c k (pos n)) (pos n) ≡ record c { direct = after } =
      ap (λ (x : FdCache). uncache_fd x (pos n)) (cache_fd_direct realloc c k (pos n) (omega arith))
      ∙ uncache_fd_direct (record c { direct = set c.direct k (pos n) }) k (pos n) at_k
          (omega (arith, length-set {0} c.direct k (pos n), v.direct_len)) in
    (
      ap (λ (x : FdCache). lookup_fd x k) e
          ∙ lookup_fd_direct (record c { direct = after }) k (omega arith)
          ∙ ground (arith, slot k),
      ap (λ (x : FdCache). lookup_fd x h) e
          ∙ lookup_fd_direct (record c { direct = after }) h small
          ∙ ground (arith, slot h, found, lookup_fd_direct c h small),
    )
  where
    -- No earlier slot holds `n`, since only `h` does.
    at_k : index_direct (set c.direct k (pos n)) (pos n) ≡ k
    at_k =
        index_direct-set c.direct k (pos n) (omega (arith, v.direct_len))
          λ i below held. omega (arith, inj i h n (lookup_fd_direct c i (omega arith) ∙ held) found)

    slot :
        (j : ℕ)
        → get_or (set (set c.direct k (pos n)) k minus_one) j minus_one
          ≡ (if k == j then minus_one else get_or c.direct j minus_one)
    slot j = ground (
      arith,
      v.direct_len,
      length-set c.direct k (pos n),
      get_or-set (set c.direct k (pos n)) k j minus_one minus_one,
      get_or-set c.direct k j (pos n) minus_one,
    )
