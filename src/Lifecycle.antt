-- ===== src/Lifecycle.antt =====
-- `pbox_create` and `pbox_destroy` of src/pbox/pbox.c: what each path acquires and gives back.
pub mod Create
pub mod Destroy
pub mod Creations
pub mod Entries
pub mod Lives
use sbox.Prelude.{ℕ, List, [], ◌∷◌, ◌++◌, Bool, true, false, ◌==◌, not, if◌then◌else◌}
use sbox.Threads.{Resource, ThreadChannel, Threads, drop_resource}

-- What a box owns beside its threads' channels.
pub data Owned : Type 0 where
  block fd_lock callback_lock channel_key channel_lock : Owned
  control_fd control_map sock_host sock_child child watcher : Owned

-- Which of the calls of `pbox_create` succeed.
pub record Answers : Type 0 where
  pub malloc : Bool
  pub fd_lock : Bool
  pub callback_lock : Bool
  pub channel_key : Bool
  pub channel_lock : Bool
  pub memfd : Bool
  pub ftruncate : Bool
  pub mmap : Bool
  pub socketpair : Bool
  pub fork : Bool
  pub watcher : Bool

abbrev pub number : Owned → ℕ
number Owned.block = 0
number Owned.fd_lock = 1
number Owned.callback_lock = 2
number Owned.channel_key = 3
number Owned.channel_lock = 4
number Owned.control_fd = 5
number Owned.control_map = 6
number Owned.sock_host = 7
number Owned.sock_child = 8
number Owned.child = 9
number Owned.watcher = 10

unfoldable pub give_back : Owned → List Owned → List Owned
give_back o [] = []
give_back o (p ∷ rest) = if number o == number p then rest else p ∷ give_back o rest

-- A sequence of releases.
unfoldable pub give_back_all : List Owned → List Owned → List Owned
give_back_all [] owned = owned
give_back_all (o ∷ rest) owned = give_back_all rest (give_back o owned)

-- The end of every failure path but the early ones.
abbrev pub locks_and_key : List Owned
locks_and_key =
    Owned.channel_lock ∷ Owned.callback_lock ∷ Owned.fd_lock ∷ Owned.channel_key ∷ Owned.block ∷ []

-- From the watcher on. The child's end of the socket pair is closed first.
unfoldable pub start_watcher : Answers → List Owned → List Owned × Bool
start_watcher ans owned =
    let parent = give_back Owned.sock_child owned in
    if ans.watcher then (Owned.watcher ∷ parent, true) else (
      give_back_all
          (Owned.child ∷ Owned.control_map ∷ Owned.control_fd ∷ Owned.sock_host ∷ locks_and_key)
          parent,
      false,
    )

-- From the control channel's memory on.
unfoldable pub share_control : Answers → List Owned → List Owned × Bool
share_control ans owned =
    let opened = Owned.control_fd ∷ owned in
    let mapped = Owned.control_map ∷ opened in
    let paired = Owned.sock_child ∷ Owned.sock_host ∷ mapped in
    if not ans.memfd
    then (give_back_all locks_and_key owned, false)
    else if not ans.ftruncate
    then (give_back_all (Owned.control_fd ∷ locks_and_key) opened, false)
    else if not ans.mmap
    then (give_back_all (Owned.control_fd ∷ locks_and_key) opened, false)
    else if not ans.socketpair
    then (give_back_all (Owned.control_map ∷ Owned.control_fd ∷ locks_and_key) mapped, false)
    else if not ans.fork
    then (give_back_all (Owned.control_map ∷ Owned.control_fd ∷ locks_and_key) paired, false)
    else start_watcher ans (Owned.child ∷ paired)

-- What is owned afterwards, and whether there is a box; the lookups of the symbols own nothing.
unfoldable pub pbox_create : Answers → List Owned × Bool
pbox_create ans =
    let with_block = Owned.block ∷ [] in
    let with_fd_lock = Owned.fd_lock ∷ with_block in
    let with_callback_lock = Owned.callback_lock ∷ with_fd_lock in
    let with_key = Owned.channel_key ∷ with_callback_lock in
    if not ans.malloc
    then ([], false)
    else if not ans.fd_lock
    then (give_back Owned.block with_block, false)
    else if not ans.callback_lock
    then (give_back_all (Owned.fd_lock ∷ Owned.block ∷ []) with_fd_lock, false)
    else if not ans.channel_key
    then (
      give_back_all (Owned.callback_lock ∷ Owned.fd_lock ∷ Owned.block ∷ []) with_callback_lock,
      false,
    )
    else if not ans.channel_lock
    then (
      give_back_all (Owned.channel_key ∷ Owned.callback_lock ∷ Owned.fd_lock ∷ Owned.block ∷ [])
          with_key,
      false,
    )
    else share_control ans (Owned.channel_lock ∷ with_key)

-- What the loop of `pbox_destroy` gives back for one channel: the arena if it is mapped, the
-- channel, its descriptor and the entry.
unfoldable pub resources_of : ThreadChannel → List Resource
resources_of tch =
    let rest =
      Resource.mapping tch.channel ∷ Resource.fd tch.shm_fd ∷ Resource.block tch.addr ∷ [] in
    if tch.idmem.base == 0 then rest else Resource.mapping tch.idmem.base ∷ rest

unfoldable pub drop_all : List Resource → List Resource → List Resource
drop_all [] held = held
drop_all (r ∷ rest) held = drop_all rest (drop_resource r held)

unfoldable pub destroy_channels : List ThreadChannel → List Resource → List Resource
destroy_channels [] held = held
destroy_channels (tch ∷ rest) held = destroy_channels rest (drop_all (resources_of tch) held)

-- Joining the watcher, which reaps the child, comes first; the threads' channels go next. The
-- workers died with the child.
unfoldable pub pbox_destroy : List Owned → Threads → List Owned × Threads
pbox_destroy owned b = (
  give_back_all
      (Owned.child ∷ Owned.watcher ∷ Owned.control_map ∷ Owned.control_fd ∷ Owned.sock_host
        ∷ locks_and_key)
      owned,
  record b { channels = []; held = destroy_channels b.channels b.held; workers = [] },
)
