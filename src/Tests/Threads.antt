-- ===== src/Tests/Threads.antt =====
-- A thread's channel and its end, with concrete answers of the system (src/pbox/pbox.c).
use sbox.Prelude.{◌≡◌, ◌⊎◌, refl, [], ◌∷◌, false, ltb, none, some, pos}
use sbox.Threads.{
  Resource, ThreadChannel, Threads, Answers, create_channel_locked, create_from, map_channel,
  share_channel, allocate_entry, append_channel, acquire, spawn,
}
use sbox.Threads.Create.{Created, create_channel_locked_lem}
use sbox.Idmem.{unmapped}

-- One thread has a channel already.
abbrev other : ThreadChannel
other = record { addr = 100; channel = 200; shm_fd = 5; idmem = unmapped }

abbrev pub one_thread : Threads
one_thread = record {
  channels = other ∷ [];
  cap = 1;
  held = Resource.block 100 ∷ Resource.mapping 200 ∷ Resource.fd 5 ∷ [];
  workers = 200 ∷ [];
}

abbrev pub granted : Answers
granted = record {
  memfd = pos 6;
  ftruncate = pos 0;
  mmap = some 300;
  sandbox_fd = pos 4;
  malloc = 400;
  realloc = λ n. ltb n 100;
}

-- The vector cannot grow.
abbrev pub refused : Answers
refused = record granted { realloc = λ n. false }

abbrev created : ThreadChannel
created = record { addr = 400; channel = 300; shm_fd = 6; idmem = unmapped }

abbrev two_threads : Threads
two_threads = record {
  channels = other ∷ created ∷ [];
  cap = 2;
  held =
      Resource.block 400
      ∷ Resource.mapping 300
      ∷ Resource.fd 6
      ∷ Resource.block 100
      ∷ Resource.mapping 200
      ∷ Resource.fd 5
      ∷ [];
  workers = 300 ∷ 200 ∷ [];
}

creates : create_channel_locked granted one_thread ≡ (two_threads, some created)
unfolding create_channel_locked create_from map_channel share_channel allocate_entry append_channel
    acquire spawn
creates = refl

create_channel_locked_lem_example :
    let (b', made) = create_channel_locked refused one_thread in
    ((made ≡ none) × (b' ≡ one_thread))
    ⊎ ((tch : ThreadChannel) × (made ≡ some tch) × Created one_thread b' tch)
create_channel_locked_lem_example = create_channel_locked_lem refused one_thread
