-- ===== src/Send/World.antt =====
-- The cache beside the table of descriptors that are open in the sandbox, as calls of `pbox_send_fd`
-- and `pbox_close` (src/pbox/pbox.c) change them, one whole call after the other. The sandbox's
-- kernel hands out a descriptor that is not open, and only `pbox_close` closes one.
use sbox.Prelude.{
  ℕ, ◌⊎◌, ◌≡◌, ◌≢◌, Bool, true, false, Option, none, some, if◌then◌else◌, ◌==◌, ℤ, pos, minus_one,
  is_neg, eq_ℤ, eq_ℤ_iff, arith, Bool-cases, inl, inr, ◌||◌, ltb, get_or-replicate,
}
use sbox.Channel.{Channel}
use sbox.FdCache.{FdCache, lookup_fd, fresh, find_host, direct_max}
use sbox.FdCache.Valid.{IsValid, IsBounded, lookup_fd-cache_fd, fresh-IsValid}
use sbox.FdCache.Uncache.{IsInjective, uncache_fd-IsValid, lookup_fd-uncache_fd}
use sbox.Send.{send_fd, send_uncached, send_fd_on_channel, pbox_close}
use sbox.Send.Laws.{send_fd-IsValid}

pub record World : Type 0 where
  pub cache : FdCache
  pub is_open : ℕ → Bool

abbrev update : (ℕ → Bool) → ℕ → Bool → ℕ → Bool
update f n b m = if n == m then b else f m

pub data Step (realloc : ℕ → Bool) (w : World) : World → Type 0 where
  send :
      (sendmsg_ok : Bool) (serve : Channel → Channel) (channel : Option Channel) (fd n : ℕ)
      → (send_fd realloc sendmsg_ok serve channel w.cache (pos fd)).result ≡ pos n
      → (is_neg (lookup_fd w.cache fd) ≡ true → w.is_open n ≡ false)
      → Step realloc w (record {
        cache = (send_fd realloc sendmsg_ok serve channel w.cache (pos fd)).cache;
        is_open = update w.is_open n true;
      })
  receive :
      (n : ℕ)
      → w.is_open n ≡ false
      → Step realloc w (record w { is_open = update w.is_open n true })
  close :
      (sym_close : ℕ) (close_call : ℤ → ℤ) (n : ℕ)
      → sym_close ≢ 0
      → close_call (pos n) ≡ pos 0
      → Step realloc w (record {
        cache = (pbox_close sym_close close_call w.cache (pos n)).1;
        is_open = update w.is_open n false;
      })

pub data Reach (realloc : ℕ → Bool) : World → Type 0 where
  start : (is_open : ℕ → Bool) → Reach realloc (record { cache = fresh; is_open = is_open })
  later : {w w' : World} → Reach realloc w → Step realloc w w' → Reach realloc w'

pub record Inv (w : World) : Type 0 where
  pub valid : IsValid w.cache
  pub injective : IsInjective w.cache
  pub cached_open : (h n : ℕ) → lookup_fd w.cache h ≡ pos n → w.is_open n ≡ true

-- What a successful send leaves in the cache: what was there, and perhaps the new pair.
send_fd_lookup :
    (realloc : ℕ → Bool) (ok : Bool) (serve : Channel → Channel) (channel : Option Channel)
    (c : FdCache) (fd n k m : ℕ)
    → IsValid c
    → (send_fd realloc ok serve channel c (pos fd)).result ≡ pos n
    → lookup_fd (send_fd realloc ok serve channel c (pos fd)).cache k ≡ pos m
    → (lookup_fd c k ≡ pos m) ⊎ ((fd ≡ k) × (n ≡ m) × (is_neg (lookup_fd c fd) ≡ true))
unfolding send_fd send_uncached
send_fd_lookup realloc ok serve none c fd n k m v sent found = ground arith
send_fd_lookup realloc ok serve (some ch) c fd n k m v sent found =
    ground (arith, lookup_fd-cache_fd realloc c fd k (send_fd_on_channel ok serve ch).0 v)

-- What a successful close leaves in the cache.
pbox_close_lookup :
    (sym_close : ℕ) (close_call : ℤ → ℤ) (c : FdCache) (n k m : ℕ)
    → IsValid c
    → IsInjective c
    → sym_close ≢ 0
    → close_call (pos n) ≡ pos 0
    → lookup_fd (pbox_close sym_close close_call c (pos n)).1 k ≡ pos m
    → (lookup_fd c k ≡ pos m) × (n ≢ m)
unfolding pbox_close
pbox_close_lookup sym_close close_call c n k m v inj ne closed found =
    ground (arith, lookup_fd-uncache_fd c n k v inj, eq_ℤ_iff (lookup_fd c k) (pos n))

pbox_close-IsValid :
    (sym_close : ℕ) (close_call : ℤ → ℤ) (c : FdCache) (s : ℤ)
    → IsValid c
    → IsValid (pbox_close sym_close close_call c s).1
unfolding pbox_close
pbox_close-IsValid sym_close close_call c s v = elim (Bool-cases (sym_close == 0 || is_neg s)) [
  | inl bad ↦ rw bad v
  | inr good ↦ elim (Bool-cases (eq_ℤ (close_call s) (pos 0))) [
    | inl done ↦ rw (good, done) (uncache_fd-IsValid c s v)
    | inr failed ↦ rw (good, failed) v
  ]
]

Step-Inv :
    {realloc : ℕ → Bool} {w w' : World} → IsBounded realloc → Step realloc w w' → Inv w → Inv w'
Step-Inv {realloc} {w} bounded (send ok serve channel fd n sent free) inv = record {
  valid = send_fd-IsValid realloc ok serve channel w.cache (pos fd) bounded inv.valid;
  injective = λ h k m eh ek. ground (
    arith,
    send_fd_lookup realloc ok serve channel w.cache fd n h m inv.valid sent eh,
    send_fd_lookup realloc ok serve channel w.cache fd n k m inv.valid sent ek,
    inv.injective h k m,
    inv.cached_open h m,
    inv.cached_open k m,
  );
  cached_open = λ h m e. ground (
    arith,
    send_fd_lookup realloc ok serve channel w.cache fd n h m inv.valid sent e,
    inv.cached_open h m,
  );
}
Step-Inv bounded (receive n free) inv = record {
  valid = inv.valid;
  injective = inv.injective;
  cached_open = λ h m e. ground (arith, inv.cached_open h m e);
}
Step-Inv {realloc} {w} bounded (close sym_close close_call n ne closed) inv = record {
  valid = pbox_close-IsValid sym_close close_call w.cache (pos n) inv.valid;
  injective = λ h k m eh ek.
      inv.injective h k m
        (pbox_close_lookup sym_close close_call w.cache n h m inv.valid inv.injective ne closed
          eh).0
        (pbox_close_lookup sym_close close_call w.cache n k m inv.valid inv.injective ne closed
          ek).0;
  cached_open = λ h m e. ground (
    arith,
    pbox_close_lookup sym_close close_call w.cache n h m inv.valid inv.injective ne closed e,
    inv.cached_open h m,
  );
}

lookup_fd-fresh : (h : ℕ) → lookup_fd fresh h ≡ minus_one
unfolding lookup_fd find_host
lookup_fd-fresh h = elim (Bool-cases (ltb h direct_max)) [
  | inl small ↦ rw small (get_or-replicate direct_max h minus_one)
  | inr large ↦ rw large
]

-- The invariant holds in every world that is reached.
Reach-Inv : {realloc : ℕ → Bool} {w : World} → IsBounded realloc → Reach realloc w → Inv w
Reach-Inv bounded (start is_open) = record {
  valid = fresh-IsValid;
  injective = λ h k n eh ek. ground (arith, lookup_fd-fresh h);
  cached_open = λ h n e. ground (arith, lookup_fd-fresh h);
}
Reach-Inv bounded (later r s) = Step-Inv bounded s (Reach-Inv bounded r)

-- However whole calls of `pbox_send_fd` and `pbox_close` and descriptors that the sandbox opens
-- itself follow one another from a fresh cache, with an allocator that grants less than 2^63
-- bytes, a descriptor that the cache returns is open in the sandbox, and no two host descriptors
-- share it.
pub cached_fd_open :
    {realloc : ℕ → Bool} {w : World} (h k n : ℕ)
    → IsBounded realloc
    → Reach realloc w
    → lookup_fd w.cache h ≡ pos n
    → lookup_fd w.cache k ≡ pos n
    → (w.is_open n ≡ true) × (h ≡ k)
cached_fd_open h k n bounded r eh ek =
    let inv = Reach-Inv bounded r in (inv.cached_open h n eh, inv.injective h k n eh ek)
