-- ===== src/Tests/Descriptors.antt =====
-- Descriptors sent to the sandbox and closed there, at concrete numbers (src/pbox/pbox.c).
use sbox.Prelude.{
  length, ℕ, ◌≡◌, refl, Bool, true, false, List, [], ◌∷◌, some, replicate, set, ltb, if◌then◌else◌,
  ◌==◌, ℤ, pos, minus_one, is_neg, arith, get_or, get_or-set, get_or-replicate,
}
use sbox.Channel.{Channel, State}
use sbox.FdCache.{FdCache, fresh, cache_fd, lookup_fd, uncache_fd, find_host}
use sbox.FdCache.Valid.{IsValid, IsBounded}
use sbox.FdCache.Uncache.{IsInjective}
use sbox.Send.{send_fd, send_fd_on_channel, send_uncached}
use sbox.Send.World.{World, Step, Reach, cached_fd_open}
use sbox.Send.Race.{late_uncache_fd_keeps_closed}
use sbox.Tests.Calls.{channel}

abbrev grants : ℕ → Bool
grants n = ltb n 4096

grants-IsBounded : IsBounded grants
grants-IsBounded n e = ground arith

-- Host descriptor 7 is descriptor 3 of the sandbox, and 200 is 5.
abbrev cache : FdCache
cache = record {
  direct = set (replicate 128 minus_one) 7 (pos 3);
  overflow = record { host_fd = 200; sandbox_fd = pos 5 } ∷ [];
  overflow_cap = 8;
}

cache-IsValid : IsValid cache
cache-IsValid = record {
  direct_len = refl;
  distinct = (tt, tt);
  large = omega arith;
  live = (refl, tt);
  in_cap = omega arith;
  allocated = omega arith;
}

-- Over any table that is empty but for slot 7.
lookup_fd_two :
    (empty : List ℤ) (cap k : ℕ)
    → length empty ≡ 128
    → ((i : ℕ) → get_or empty i minus_one ≡ minus_one)
    → lookup_fd
        (record {
          direct = set empty 7 (pos 3);
          overflow = record { host_fd = 200; sandbox_fd = pos 5 } ∷ [];
          overflow_cap = cap;
        })
        k
      ≡ (if 7 == k then pos 3 else if 200 == k then pos 5 else minus_one)
unfolding lookup_fd find_host
lookup_fd_two empty cap k len h = ground (arith, get_or-set empty 7 k (pos 3) minus_one, h k)

lookup_fd-cache :
    (k : ℕ) → lookup_fd cache k ≡ (if 7 == k then pos 3 else if 200 == k then pos 5 else minus_one)
lookup_fd-cache k =
    lookup_fd_two (replicate 128 minus_one) 8 k refl λ i. get_or-replicate 128 i minus_one

cache-IsInjective : IsInjective cache
cache-IsInjective h k n eh ek = ground (arith, lookup_fd-cache h, lookup_fd-cache k)

missing : is_neg (lookup_fd cache 300) ≡ true
unfolding lookup_fd find_host
missing = refl

-- The sandbox answers with descriptor 9.
abbrev receive9 : Channel → Channel
receive9 ch = record ch { received_fd = pos 9; state = State.response }

sent9 : is_neg (send_fd grants true receive9 (some channel) cache (pos 300)).result ≡ false
unfolding send_fd send_uncached send_fd_on_channel lookup_fd find_host
sent9 = refl

late_uncache_fd_keeps_closed_example :
    let c' = uncache_fd (cache_fd grants cache 4 (pos 3)) (pos 3) in
    (lookup_fd c' 4 ≡ minus_one) × (lookup_fd c' 7 ≡ pos 3)
late_uncache_fd_keeps_closed_example =
    late_uncache_fd_keeps_closed grants cache 7 4 3 cache-IsValid cache-IsInjective (omega arith)
      (omega arith) (lookup_fd-cache 7)

-- One descriptor is sent from a fresh cache.
abbrev world : World
world = record {
  cache = (send_fd grants true receive9 (some channel) fresh (pos 300)).cache;
  is_open = λ m. if 9 == m then true else false;
}

fresh_sent9 : (send_fd grants true receive9 (some channel) fresh (pos 300)).result ≡ pos 9
unfolding send_fd send_uncached send_fd_on_channel lookup_fd find_host
fresh_sent9 = refl

world-Reach : Reach grants world
world-Reach =
    Reach.later (Reach.start (λ m. false))
      (Step.send true receive9 (some channel) 300 9 fresh_sent9 (λ e. refl))

world_holds9 : lookup_fd world.cache 300 ≡ pos 9
unfolding send_fd send_uncached send_fd_on_channel lookup_fd find_host cache_fd
world_holds9 = refl

abbrev host_fd : ℕ
host_fd = 300

cached_fd_open_example : (world.is_open 9 ≡ true) × (host_fd ≡ host_fd)
cached_fd_open_example =
    cached_fd_open host_fd host_fd 9 grants-IsBounded world-Reach world_holds9 world_holds9
