-- ===== src/Threads.antt =====
-- The channels of the host's threads, one each: `create_channel_locked`, `channel_destructor` and
-- `get_or_create_channel` of src/pbox/pbox.c, with what they hold.
pub mod Create
pub mod Destroy
use sbox.Prelude.{
  ℕ, zero, suc, ◌+◌, ◌*◌, List, [], ◌∷◌, ◌++◌, Bool, true, false, ltb, leb, ◌==◌, Option, none,
  some, if◌then◌else◌, length, ℤ, pos, negsuc, is_neg, mul_size,
}
use sbox.FdCache.{swap_remove}
use sbox.Idmem.{Arena, unmapped}

-- What the host holds for a channel.
pub data Resource : Type 0 where
  fd mapping block : ℕ → Resource

unfoldable pub eq_resource : Resource → Resource → Bool
eq_resource (Resource.fd n) (Resource.fd m) = n == m
eq_resource (Resource.mapping n) (Resource.mapping m) = n == m
eq_resource (Resource.block n) (Resource.block m) = n == m
eq_resource r s = false

-- `struct PBoxThreadChannel`: its own address, the channel's, the descriptor and the arena.
pub record ThreadChannel : Type 0 where
  pub addr : ℕ
  pub channel : ℕ
  pub shm_fd : ℕ
  pub idmem : Arena

-- The vector `box->channels`, what the host holds for its entries, and the channels whose worker runs
-- and has not been told to exit.
pub record Threads : Type 0 where
  pub channels : List ThreadChannel
  pub cap : ℕ
  pub held : List Resource
  pub workers : List ℕ

-- The system's answers during one creation: the descriptor, ftruncate, the mapping, the result of
-- `pbox_send_fd_on_channel`, the address from malloc (NULL is 0), and whether realloc grants a size.
pub record Answers : Type 0 where
  pub memfd : ℤ
  pub ftruncate : ℤ
  pub mmap : Option ℕ
  pub sandbox_fd : ℤ
  pub malloc : ℕ
  pub realloc : ℕ → Bool

unfoldable pub acquire : Resource → Threads → Threads
acquire r b = record b { held = r ∷ b.held }

unfoldable pub drop_resource : Resource → List Resource → List Resource
drop_resource r [] = []
drop_resource r (s ∷ rest) = if eq_resource r s then rest else s ∷ drop_resource r rest

-- close, munmap or free
unfoldable pub release : Resource → Threads → Threads
release r b = record b { held = drop_resource r b.held }

unfoldable pub drop_worker : ℕ → List ℕ → List ℕ
drop_worker ch [] = []
drop_worker ch (w ∷ rest) = if ch == w then rest else w ∷ drop_worker ch rest

-- PBOX_REQ_SPAWN_WORKER
unfoldable pub spawn : ℕ → Threads → Threads
spawn ch b = record b { workers = ch ∷ b.workers }

-- `pbox_set_state(&ch->state, PBOX_STATE_EXIT)`
unfoldable pub tell_exit : ℕ → Threads → Threads
tell_exit ch b = record b { workers = drop_worker ch b.workers }

-- munmap and close, on the way out of a failure.
unfoldable pub unwind : ℕ → ℕ → Threads → Threads
unwind ch shm_fd b = release (Resource.fd shm_fd) (release (Resource.mapping ch) b)

-- The last part: the entry goes into the vector, which doubles when it is full.
unfoldable pub append_channel :
    (ℕ → Bool) → ThreadChannel → Threads → Threads × Option ThreadChannel
append_channel realloc tch b =
    let new_cap = if b.cap == 0 then 4 else mul_size b.cap 2 in
    let channels = b.channels ++ (tch ∷ []) in
    if leb b.cap (length b.channels)
    then if realloc (mul_size new_cap 8)
      then (record b { channels = channels; cap = new_cap }, some tch)
      else (
        release (Resource.block tch.addr) (unwind tch.channel tch.shm_fd (tell_exit tch.channel b)),
        none,
      )
    else (record b { channels = channels }, some tch)

-- From the spawned worker on.
unfoldable pub allocate_entry : Answers → ℕ → ℕ → Threads → Threads × Option ThreadChannel
allocate_entry ans ch shm_fd b =
    let tch : ThreadChannel = record {
      addr = ans.malloc;
      channel = ch;
      shm_fd = shm_fd;
      idmem = unmapped;
    } in
    if ans.malloc == 0
    then (unwind ch shm_fd (tell_exit ch b), none)
    else append_channel ans.realloc tch (acquire (Resource.block ans.malloc) b)

-- From the mapping on.
unfoldable pub share_channel : Answers → ℕ → ℕ → Threads → Threads × Option ThreadChannel
share_channel ans ch shm_fd b =
    if is_neg ans.sandbox_fd
    then (unwind ch shm_fd b, none)
    else allocate_entry ans ch shm_fd (spawn ch b)

-- From the descriptor on.
unfoldable pub map_channel : Answers → Option ℕ → ℕ → Threads → Threads × Option ThreadChannel
map_channel ans none shm_fd b = (release (Resource.fd shm_fd) b, none)
map_channel ans (some ch) shm_fd b = share_channel ans ch shm_fd (acquire (Resource.mapping ch) b)

unfoldable pub create_from : Answers → ℤ → Threads → Threads × Option ThreadChannel
create_from ans (negsuc n) b = (b, none)
create_from ans (pos shm_fd) b =
    let opened = acquire (Resource.fd shm_fd) b in
    if is_neg ans.ftruncate
    then (release (Resource.fd shm_fd) opened, none)
    else map_channel ans ans.mmap shm_fd opened

unfoldable pub create_channel_locked : Answers → Threads → Threads × Option ThreadChannel
create_channel_locked ans b = create_from ans ans.memfd b

-- `current` is the thread's entry, as `pthread_getspecific` gives it.
unfoldable pub get_or_create_thread_channel :
    Answers → Option ThreadChannel → Threads → Threads × Option ThreadChannel
get_or_create_thread_channel ans none b = create_channel_locked ans b
get_or_create_thread_channel ans (some tch) b = (b, some tch)

-- The index of an entry in the vector; the length if it is not there.
unfoldable pub index_channel : List ThreadChannel → ℕ → ℕ
index_channel [] addr = 0
index_channel (t ∷ rest) addr = if t.addr == addr then 0 else index_channel rest addr + 1

-- The loop that takes an entry out of the vector.
unfoldable pub unlist : List ThreadChannel → ThreadChannel → List ThreadChannel
unlist l tch =
    let i = index_channel l tch.addr in if ltb i (length l) then swap_remove l i tch else l

-- The destructor of a thread's entry.
unfoldable pub channel_destructor : ThreadChannel → Threads → Threads
channel_destructor tch b =
    let told = tell_exit tch.channel b in
    let unmapped_arena =
      if tch.idmem.base == 0 then told else release (Resource.mapping tch.idmem.base) told in
    let unwound = unwind tch.channel tch.shm_fd unmapped_arena in
    release (Resource.block tch.addr) (record unwound { channels = unlist unwound.channels tch })
