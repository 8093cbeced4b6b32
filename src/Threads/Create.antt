-- ===== src/Threads/Create.antt =====
-- What `create_channel_locked` (src/pbox/pbox.c) leaves behind on every path.
use sbox.Prelude.{
  ℕ, ◌≡◌, ◌≢◌, ◌⊎◌, inl, inr, refl, [], ◌∷◌, ◌++◌, true, leb, ◌==◌, Option, none, some,
  if◌then◌else◌, length, ℤ, pos, negsuc, is_neg, mul_size, arith, Bool-cases,
}
use sbox.Idmem.{unmapped}
use sbox.Threads.{
  Resource, eq_resource, ThreadChannel, Threads, Answers, acquire, drop_resource, release,
  drop_worker, spawn, tell_exit, unwind, append_channel, allocate_entry, share_channel, map_channel,
  create_from, create_channel_locked,
}

-- The entry that a creation made, and what it added.
pub record Created (b b' : Threads) (tch : ThreadChannel) : Type 0 where
  pub channels : b'.channels ≡ b.channels ++ (tch ∷ [])
  pub held :
      b'.held
      ≡ Resource.block tch.addr ∷ Resource.mapping tch.channel ∷ Resource.fd tch.shm_fd ∷ b.held
  pub workers : b'.workers ≡ tch.channel ∷ b.workers
  pub no_arena : tch.idmem ≡ unmapped
  pub allocated : tch.addr ≢ 0

abbrev pub Outcome : Threads → Threads → Option ThreadChannel → Type 0
Outcome b b' made =
    ((made ≡ none) × (b' ≡ b)) ⊎ ((tch : ThreadChannel) × (made ≡ some tch) × Created b b' tch)

same_number : (n : ℕ) → (n == n) ≡ true
same_number n = ground arith

-- Both are undone in the order of the failure paths.
undo_mapping :
    (b : Threads) (ch shm_fd : ℕ)
    → unwind ch shm_fd (acquire (Resource.mapping ch) (acquire (Resource.fd shm_fd) b)) ≡ b
unfolding unwind release acquire drop_resource eq_resource
undo_mapping b ch shm_fd = rw (same_number ch, same_number shm_fd)

undo_worker :
    (b : Threads) (ch shm_fd : ℕ)
    → unwind ch shm_fd
        (tell_exit ch (spawn ch (acquire (Resource.mapping ch) (acquire (Resource.fd shm_fd) b))))
      ≡ b
unfolding unwind release acquire drop_resource eq_resource tell_exit spawn drop_worker
undo_worker b ch shm_fd = rw (same_number ch, same_number shm_fd)

undo_entry :
    (b : Threads) (ch shm_fd addr : ℕ)
    → release (Resource.block addr) (
        unwind ch shm_fd (
          tell_exit ch (
            acquire
              (Resource.block addr)
              (spawn ch (acquire (Resource.mapping ch) (acquire (Resource.fd shm_fd) b))))))
      ≡ b
unfolding unwind release acquire drop_resource eq_resource tell_exit spawn drop_worker
undo_entry b ch shm_fd addr = rw (same_number ch, same_number shm_fd, same_number addr)

module _ (ans : Answers) (b : Threads) (ch shm_fd : ℕ) where
  abbrev mapped : Threads
  mapped = acquire (Resource.mapping ch) (acquire (Resource.fd shm_fd) b)

  abbrev entry : ThreadChannel
  entry = record { addr = ans.malloc; channel = ch; shm_fd = shm_fd; idmem = unmapped }

  append_channel-Outcome :
      ans.malloc ≢ 0
      → let r =
          append_channel ans.realloc entry
            (acquire (Resource.block ans.malloc) (spawn ch mapped)) in
        Outcome b r.0 r.1
  unfolding append_channel acquire spawn
  append_channel-Outcome got =
      let new_cap = if b.cap == 0 then 4 else mul_size b.cap 2 in
      elim (Bool-cases (leb b.cap (length b.channels))) [
        | inl full ↦ elim (Bool-cases (ans.realloc (mul_size new_cap 8))) [
          | inl grown ↦
              rw (full, grown)
                (inr (
                  entry,
                  refl,
                  record {
                    channels = refl;
                    held = refl;
                    workers = refl;
                    no_arena = refl;
                    allocated = got;
                  },
                ))
          | inr refused ↦ rw (full, refused) (inl (refl, undo_entry b ch shm_fd ans.malloc))
        ]
        | inr room ↦ rw room (
            inr (
              entry,
              refl,
              record {
                channels = refl;
                held = refl;
                workers = refl;
                no_arena = refl;
                allocated = got;
              },
            ))
      ]

  share_channel-Outcome : let r = share_channel ans ch shm_fd mapped in Outcome b r.0 r.1
  unfolding share_channel allocate_entry
  share_channel-Outcome = elim (Bool-cases (is_neg ans.sandbox_fd)) [
    | inl refused ↦ rw refused (inl (refl, undo_mapping b ch shm_fd))
    | inr sent ↦ elim (Bool-cases (ans.malloc == 0)) [
      | inl no_memory ↦ rw (sent, no_memory) (inl (refl, undo_worker b ch shm_fd))
      | inr got ↦ rw (sent, got) (append_channel-Outcome (ground arith))
    ]
  ]

undo_fd :
    (b : Threads) (shm_fd : ℕ) → release (Resource.fd shm_fd) (acquire (Resource.fd shm_fd) b) ≡ b
unfolding release acquire drop_resource eq_resource
undo_fd b shm_fd = rw (same_number shm_fd)

map_channel-Outcome :
    (ans : Answers) (b : Threads) (mmap : Option ℕ) (shm_fd : ℕ)
    → let r = map_channel ans mmap shm_fd (acquire (Resource.fd shm_fd) b) in Outcome b r.0 r.1
unfolding map_channel
map_channel-Outcome ans b none shm_fd = inl (refl, undo_fd b shm_fd)
map_channel-Outcome ans b (some ch) shm_fd = share_channel-Outcome ans b ch shm_fd

create_from-Outcome :
    (ans : Answers) (memfd : ℤ) (b : Threads) → let r = create_from ans memfd b in Outcome b r.0 r.1
unfolding create_from
create_from-Outcome ans (negsuc n) b = inl (refl, refl)
create_from-Outcome ans (pos shm_fd) b = elim (Bool-cases (is_neg ans.ftruncate)) [
  | inl refused ↦ rw refused (inl (refl, undo_fd b shm_fd))
  | inr sized ↦ rw sized (map_channel-Outcome ans b ans.mmap shm_fd)
]

-- Whatever the system answers, `create_channel_locked` either fails and leaves the host as it was (no
-- descriptor, mapping or memory is kept, no worker is left running, and the vector and its capacity
-- are unchanged), or it puts one entry behind the others of the vector and holds exactly that entry's
-- memory, mapping and descriptor more, for one more worker.
pub create_channel_locked_lem :
    (ans : Answers) (b : Threads)
    → let (b', made) = create_channel_locked ans b in
      ((made ≡ none) × (b' ≡ b)) ⊎ ((tch : ThreadChannel) × (made ≡ some tch) × Created b b' tch)
unfolding create_channel_locked
create_channel_locked_lem ans b = create_from-Outcome ans ans.memfd b
