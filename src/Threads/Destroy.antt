-- ===== src/Threads/Destroy.antt =====
-- What `channel_destructor` (src/pbox/pbox.c) gives back.
use sbox.Prelude.{
  ℕ, suc, ◌-◌, ◌≡◌, ◌≢◌, inl, inr, refl, ◌∙◌, ap, List, [], ◌∷◌, ◌++◌, true, ◌==◌, some, length,
  get_or, set, All, arith, length-append, take_append_left, lt→ltb,
}
use sbox.FdCache.{swap_remove}
use sbox.Idmem.{Arena}
use sbox.Threads.{
  Resource, eq_resource, ThreadChannel, Threads, Answers, drop_resource, release, drop_worker,
  tell_exit, unwind, create_channel_locked, index_channel, unlist, channel_destructor,
}
use sbox.Threads.Create.{Created, Outcome, create_channel_locked_lem}

-- No entry has that address.
abbrev pub IsAbsent : ℕ → List ThreadChannel → Type 0
IsAbsent addr l = All (λ (t : ThreadChannel). t.addr ≢ addr) l

index_channel-append :
    (l : List ThreadChannel) (t : ThreadChannel)
    → IsAbsent t.addr l
    → index_channel (l ++ (t ∷ [])) t.addr ≡ length l
unfolding index_channel
index_channel-append [] t h = ground arith
index_channel-append (x ∷ l) t (ne, h) = ground (arith, index_channel-append l t h)

get_or_last {ℓ} : {A : Type ℓ} (l : List A) (t d : A) → get_or (l ++ (t ∷ [])) (length l) d ≡ t
get_or_last [] t d = refl
get_or_last (x ∷ l) t d = get_or_last l t d

set_last_self {ℓ} :
    {A : Type ℓ} (l : List A) (t : A) → set (l ++ (t ∷ [])) (length l) t ≡ l ++ (t ∷ [])
set_last_self [] t = refl
set_last_self (x ∷ l) t = ap (λ r. x ∷ r) (set_last_self l t)

-- The last entry is taken out without a swap.
unlist-append :
    (l : List ThreadChannel) (t : ThreadChannel) → IsAbsent t.addr l → unlist (l ++ (t ∷ [])) t ≡ l
unfolding unlist swap_remove
unlist-append l t h =
    let len : length (l ++ (t ∷ [])) ≡ suc (length l) =
      omega (arith, length-append {0} l (t ∷ [])) in
    let one : suc (length l) - 1 ≡ length l = omega arith in
    rw
      (
        index_channel-append l t h,
        len,
        lt→ltb (length l) (suc (length l)) (omega arith),
        one,
        get_or_last l t t,
        set_last_self l t,
      )
      (take_append_left l (t ∷ []))

same_number : (n : ℕ) → (n == n) ≡ true
same_number n = ground arith

-- With everything of the entry in front, no arena, and the entry last in the vector.
destroy_latest :
    (b : Threads) (cap : ℕ) (tch : ThreadChannel)
    → (tch.idmem.base == 0) ≡ true
    → IsAbsent tch.addr b.channels
    → channel_destructor tch (record {
      channels = b.channels ++ (tch ∷ []);
      cap = cap;
      held =
          Resource.block tch.addr ∷ Resource.mapping tch.channel ∷ Resource.fd tch.shm_fd ∷ b.held;
      workers = tch.channel ∷ b.workers;
    })
      ≡ record b { cap = cap }
unfolding channel_destructor release tell_exit unwind drop_resource drop_worker eq_resource
destroy_latest b cap tch no_arena absent = rw (
  no_arena,
  unlist-append b.channels tch absent,
  same_number tch.channel,
  same_number tch.shm_fd,
  same_number tch.addr,
)

destroy-Created :
    (b b' : Threads) (tch : ThreadChannel)
    → Created b b' tch
    → IsAbsent tch.addr b.channels
    → channel_destructor tch b' ≡ record b { cap = b'.cap }
destroy-Created b b' tch made absent =
    ap (λ (l : List ThreadChannel). channel_destructor tch (record b' { channels = l }))
      made.channels
    ∙ ap
        (λ (l : List Resource).
          channel_destructor tch (record b' { channels = b.channels ++ (tch ∷ []); held = l }))
        made.held
    ∙ ap
        (λ (l : List ℕ). channel_destructor tch (record {
          channels = b.channels ++ (tch ∷ []);
          cap = b'.cap;
          held =
              Resource.block tch.addr
              ∷ Resource.mapping tch.channel
              ∷ Resource.fd tch.shm_fd
              ∷ b.held;
          workers = l;
        }))
        made.workers
    ∙ destroy_latest b b'.cap tch (ap (λ (a : Arena). a.base == 0) made.no_arena) absent

-- A thread that gets a channel, whose entry's address is new to the vector, and exits leaves the
-- host as it was, but for the vector's capacity: the same entries in the same order, nothing
-- held, and no worker running.
pub create_then_destroy :
    (ans : Answers) (b b' : Threads) (tch : ThreadChannel)
    → create_channel_locked ans b ≡ (b', some tch)
    → IsAbsent tch.addr b.channels
    → channel_destructor tch b' ≡ record b { cap = b'.cap }
create_then_destroy ans b b' tch made absent =
    let outcome : Outcome b b' (some tch) = rw made at (create_channel_locked_lem ans b) in
    elim outcome [
      | inl (failed, same) ↦ cc
      | inr (t, found, created) ↦
          let is_tch : t ≡ tch = cc in destroy-Created b b' tch (rw is_tch at created) absent
    ]
