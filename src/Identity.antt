-- ===== src/Identity.antt =====
-- `pbox_mmap_identity` and `pbox_munmap_identity` of src/pbox/pbox.c: memory at one address on both
-- sides.
pub mod Balance
use sbox.Prelude.{
  ℕ, List, [], ◌∷◌, Bool, true, false, ◌&&◌, ◌==◌, not, Option, none, some, if◌then◌else◌, ℤ, pos,
  negsuc, is_neg, minus_one,
}

-- The mappings of either side, by address, and the open descriptors of the memory.
pub record Maps : Type 0 where
  pub host : List ℕ
  pub sandbox : List ℕ
  pub host_fds : List ℕ
  pub sandbox_fds : List ℤ

-- The answers that the calls get, in their order; `none` is MAP_FAILED, or NULL for the search.
pub record Answers : Type 0 where
  pub sym_mmap : Bool
  pub memfd : ℤ
  pub ftruncate : ℤ
  pub host_map : Option ℕ
  pub has_channel : Bool
  pub sandbox_fd : ℤ
  pub sandbox_map : Option ℕ
  pub common : Option ℕ
  pub host_remap : Option ℕ
  pub sandbox_remap : Option ℕ

unfoldable pub drop_addr : ℕ → List ℕ → List ℕ
drop_addr a [] = []
drop_addr a (b ∷ rest) = if a == b then rest else b ∷ drop_addr a rest

unfoldable pub host_mmap : ℕ → Maps → Maps
host_mmap a m = record m { host = a ∷ m.host }

unfoldable pub host_munmap : ℕ → Maps → Maps
host_munmap a m = record m { host = drop_addr a m.host }

-- `pbox_call` of the sandbox's mmap.
unfoldable pub sandbox_mmap : Option ℕ → Maps → Maps
sandbox_mmap none m = m
sandbox_mmap (some a) m = record m { sandbox = a ∷ m.sandbox }

-- `if (sandbox_addr != MAP_FAILED) pbox_munmap(...)`
unfoldable pub sandbox_munmap : Option ℕ → Maps → Maps
sandbox_munmap none m = m
sandbox_munmap (some a) m = record m { sandbox = drop_addr a m.sandbox }

unfoldable pub host_close : ℕ → Maps → Maps
host_close n m = record m { host_fds = drop_addr n m.host_fds }

-- Is the sandbox's address the wanted one?
unfoldable pub agrees : Option ℕ → ℕ → Bool
agrees none a = false
agrees (some b) a = b == a

-- From the second mapping in the sandbox on.
unfoldable pub remap_sandbox : Option ℕ → ℕ → ℕ → Maps → Maps × Option ℕ
remap_sandbox answer memfd common m =
    let m1 = sandbox_mmap answer m in
    if agrees answer common
    then (host_close memfd m1, some common)
    else (host_close memfd (host_munmap common (sandbox_munmap answer m1)), none)

-- From the second mapping in the host on.
unfoldable pub remap_host : Answers → Option ℕ → ℕ → ℕ → Maps → Maps × Option ℕ
remap_host ans none memfd common m = (host_close memfd m, none)
remap_host ans (some a) memfd common m =
    let m1 = host_mmap a m in
    if a == common
    then remap_sandbox ans.sandbox_remap memfd common m1
    else (host_close memfd (host_munmap a m1), none)

-- The fallback to an address that is free on both sides.
unfoldable pub fall_back : Answers → Option ℕ → ℕ → Maps → Maps × Option ℕ
fall_back ans none memfd m = (host_close memfd m, none)
fall_back ans (some common) memfd m = remap_host ans ans.host_remap memfd common m

-- From the first mapping in the sandbox on.
unfoldable pub map_sandbox : Answers → Option ℕ → ℕ → ℕ → Maps → Maps × Option ℕ
map_sandbox ans answer memfd a m =
    let m1 = sandbox_mmap answer m in
    if agrees answer a
    then (host_close memfd m1, some a)
    else fall_back ans ans.common memfd (host_munmap a (sandbox_munmap answer m1))

-- From the first mapping in the host on. The sandbox's copy of the descriptor is opened by the send.
unfoldable pub send_memory : Answers → Option ℕ → ℕ → Maps → Maps × Option ℕ
send_memory ans none memfd m = (host_close memfd m, none)
send_memory ans (some a) memfd m =
    let m1 = host_mmap a m in
    if not ans.has_channel
    then (host_close memfd (host_munmap a m1), none)
    else if is_neg ans.sandbox_fd
    then (host_close memfd (host_munmap a m1), none)
    else map_sandbox ans ans.sandbox_map memfd a
        (record m1 { sandbox_fds = ans.sandbox_fd ∷ m1.sandbox_fds })

unfoldable pub make_memory : Answers → ℤ → Maps → Maps × Option ℕ
make_memory ans (negsuc n) m = (m, none)
make_memory ans (pos memfd) m =
    let m1 = record m { host_fds = memfd ∷ m.host_fds } in
    if is_neg ans.ftruncate
    then (host_close memfd m1, none)
    else send_memory ans ans.host_map memfd m1

unfoldable pub mmap_identity : Answers → Maps → Maps × Option ℕ
mmap_identity ans m = if ans.sym_mmap then make_memory ans ans.memfd m else (m, none)

-- `sandbox_ok` and `host_ok` say whether either munmap returns 0.
unfoldable pub munmap_identity : Bool → Bool → ℕ → Maps → Maps × ℤ
munmap_identity sandbox_ok host_ok a m =
    let m1 = if sandbox_ok then sandbox_munmap (some a) m else m in
    let m2 = if host_ok then host_munmap a m1 else m1 in
    (m2, if sandbox_ok && host_ok then pos 0 else minus_one)
