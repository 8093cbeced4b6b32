-- ===== src/Send/Laws.antt =====
-- Descriptors are sent once: what `pbox_send_fd` returns and what it remembers.
use sbox.Prelude.{
  ℕ, ◌≡◌, ◌≢◌, ap, ◌∙◌, Bool-cases, inl, inr, refl, Bool, true, false, Option, none, some, ℤ, pos,
  negsuc, is_neg, arith,
}
use sbox.Channel.{Channel}
use sbox.FdCache.{FdCache, lookup_fd}
use sbox.FdCache.Valid.{IsValid, IsBounded, has_room, lookup_fd-cache_fd, cache_fd-IsValid}
use sbox.Send.{send_uncached, send_fd, send_fd_on_channel}

module _ (realloc : ℕ → Bool) (sendmsg_ok : Bool) (serve : Channel → Channel) where
  send_uncached-IsValid :
      (channel : Option Channel) (c : FdCache) (fd : ℕ)
      → IsBounded realloc
      → IsValid c
      → is_neg (lookup_fd c fd) ≡ true
      → IsValid (send_uncached realloc sendmsg_ok serve channel c fd).cache
  unfolding send_uncached
  send_uncached-IsValid none c fd bounded v miss = v
  send_uncached-IsValid (some ch) c fd bounded v miss =
      let s = (send_fd_on_channel sendmsg_ok serve ch).0 in
      elim (Bool-cases (is_neg s)) [
        | inl bad ↦ rw bad v
        | inr good ↦ rw good (cache_fd-IsValid realloc c fd s bounded v good miss)
      ]

  -- What was sent and kept is found.
  lookup_fd-send_uncached :
      (channel : Option Channel) (c : FdCache) (fd : ℕ)
      → IsValid c
      → is_neg (lookup_fd c fd) ≡ true
      → has_room realloc c fd ≡ true
      → is_neg (send_uncached realloc sendmsg_ok serve channel c fd).result ≡ false
      → lookup_fd (send_uncached realloc sendmsg_ok serve channel c fd).cache fd
        ≡ (send_uncached realloc sendmsg_ok serve channel c fd).result
  unfolding send_uncached
  lookup_fd-send_uncached none c fd v miss room sent = cc
  lookup_fd-send_uncached (some ch) c fd v miss room sent =
      let s = (send_fd_on_channel sendmsg_ok serve ch).0 in
      rw sent (lookup_fd-cache_fd realloc c fd fd s v miss ∙ ground arith)

  lookup_fd-send_uncached_ne :
      (channel : Option Channel) (c : FdCache) (fd k : ℕ)
      → IsValid c
      → is_neg (lookup_fd c fd) ≡ true
      → fd ≢ k
      → lookup_fd (send_uncached realloc sendmsg_ok serve channel c fd).cache k ≡ lookup_fd c k
  unfolding send_uncached
  lookup_fd-send_uncached_ne none c fd k v miss ne = refl
  lookup_fd-send_uncached_ne (some ch) c fd k v miss ne =
      let s = (send_fd_on_channel sendmsg_ok serve ch).0 in
      elim (Bool-cases (is_neg s)) [
        | inl bad ↦ rw bad
        | inr good ↦ rw good (lookup_fd-cache_fd realloc c fd k s v miss ∙ ground arith)
      ]

  pub send_fd_hit :
      (channel : Option Channel) (c : FdCache) (fd : ℕ)
      → is_neg (lookup_fd c fd) ≡ false
      → send_fd realloc sendmsg_ok serve channel c (pos fd)
        ≡ record { result = lookup_fd c fd; cache = c; channel = none }
  unfolding send_fd
  send_fd_hit channel c fd hit = rw hit

  send_fd_miss :
      (channel : Option Channel) (c : FdCache) (fd : ℕ)
      → is_neg (lookup_fd c fd) ≡ true
      → send_fd realloc sendmsg_ok serve channel c (pos fd)
        ≡ send_uncached realloc sendmsg_ok serve channel c fd
  unfolding send_fd
  send_fd_miss channel c fd miss = rw miss

  -- Sending keeps the cache's invariant, whatever the descriptor, the channel and the sandbox do.
  pub send_fd-IsValid :
      (channel : Option Channel) (c : FdCache) (fd : ℤ)
      → IsBounded realloc
      → IsValid c
      → IsValid (send_fd realloc sendmsg_ok serve channel c fd).cache
  send_fd-IsValid channel c (negsuc n) bounded v = unfold send_fd in v
  send_fd-IsValid channel c (pos fd) bounded v = elim (Bool-cases (is_neg (lookup_fd c fd))) [
    | inl miss ↦
        rw (send_fd_miss channel c fd miss) (send_uncached-IsValid channel c fd bounded v miss)
    | inr hit ↦ rw (send_fd_hit channel c fd hit) v
  ]

  -- After a descriptor was sent, with room in the cache for it, the cache gives what the call
  -- returned.
  lookup_fd-send_fd :
      (channel : Option Channel) (c : FdCache) (fd : ℕ)
      → IsValid c
      → has_room realloc c fd ≡ true
      → is_neg (send_fd realloc sendmsg_ok serve channel c (pos fd)).result ≡ false
      → lookup_fd (send_fd realloc sendmsg_ok serve channel c (pos fd)).cache fd
        ≡ (send_fd realloc sendmsg_ok serve channel c (pos fd)).result
  lookup_fd-send_fd channel c fd v room sent = elim (Bool-cases (is_neg (lookup_fd c fd))) [
    | inl miss ↦ rw (send_fd_miss channel c fd miss) (
        lookup_fd-send_uncached channel c fd v miss room
          (rw (send_fd_miss channel c fd miss) at sent))
    | inr hit ↦ rw (send_fd_hit channel c fd hit)
  ]

-- With a valid cache, a descriptor that was sent, and for which the cache had room, is not sent
-- again: a second call returns the same descriptor, leaves the cache as it is and uses no
-- channel.
pub send_fd_again :
    (realloc realloc' : ℕ → Bool) (sendmsg_ok sendmsg_ok' : Bool) (serve serve' : Channel → Channel)
    (channel channel' : Option Channel) (c : FdCache) (fd : ℕ)
    → IsValid c
    → has_room realloc c fd ≡ true
    → is_neg (send_fd realloc sendmsg_ok serve channel c (pos fd)).result ≡ false
    → let first = send_fd realloc sendmsg_ok serve channel c (pos fd) in
      send_fd realloc' sendmsg_ok' serve' channel' first.cache (pos fd)
      ≡ record { result = first.result; cache = first.cache; channel = none }
send_fd_again realloc realloc' ok ok' serve serve' channel channel' c fd v room sent =
    let found = lookup_fd-send_fd realloc ok serve channel c fd v room sent in
    send_fd_hit realloc' ok' serve' channel' (send_fd realloc ok serve channel c (pos fd)).cache fd
      (ap is_neg found ∙ sent)
    ∙ ap
        (λ (r : ℤ). record {
          result = r;
          cache = (send_fd realloc ok serve channel c (pos fd)).cache;
          channel = none;
        })
        found

-- With a valid cache, sending one descriptor leaves what the cache says of every other as it was.
pub lookup_fd-send_fd_ne :
    (realloc : ℕ → Bool) (sendmsg_ok : Bool) (serve : Channel → Channel) (channel : Option Channel)
    (c : FdCache) (fd : ℤ) (k : ℕ)
    → IsValid c
    → fd ≢ pos k
    → lookup_fd (send_fd realloc sendmsg_ok serve channel c fd).cache k ≡ lookup_fd c k
lookup_fd-send_fd_ne realloc ok serve channel c (negsuc n) k v ne = unfold send_fd in refl
lookup_fd-send_fd_ne realloc ok serve channel c (pos fd) k v ne =
    elim (Bool-cases (is_neg (lookup_fd c fd))) [
      | inl miss ↦
          rw (send_fd_miss realloc ok serve channel c fd miss)
            (lookup_fd-send_uncached_ne realloc ok serve channel c fd k v miss (λ e. ne (ap pos e)))
      | inr hit ↦ rw (send_fd_hit realloc ok serve channel c fd hit)
    ]
