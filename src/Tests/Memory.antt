-- ===== src/Tests/Memory.antt =====
-- The arena and the address search at concrete addresses (src/pbox/pbox.c, src/pbox/pbox_procmaps.c).
use sbox.Identity.{
  host_mmap, host_munmap, host_close, sandbox_mmap, sandbox_munmap, drop_addr, Maps, Answers,
  mmap_identity, make_memory, send_memory, map_sandbox, fall_back, remap_host, remap_sandbox,
  agrees,
}
use sbox.Prelude.{
  pos, true, ◌%◌, ◌^◌, ◌<◌, ◌≤◌, ◌≡◌, inl, inr, refl, List, [], ◌∷◌, none, some, All, arith,
  Option-cases, ℕ, Bool, false,
}
use sbox.Identity.Balance.{added, mmap_identity_lem}
use sbox.Idmem.{Arena, bump, align16, default_size, idmem_reset}
use sbox.Idmem.Blocks.{IsMapped, Op, run, InUse, Apart, run-Apart, add_block}
use sbox.Procmaps.{
  Region, align, round_up, find_common_free_address, scan_candidates, scan_window, is_free,
  range_overlaps,
}
use sbox.Procmaps.Maps.{parse_proc_maps}
use sbox.Procmaps.Parse.{MapsLine, IsLine, file, parse_proc_maps_lem}
use sbox.Procmaps.Search.{
  Disjoint, find_common_free_address_sound, find_common_free_address_complete,
}

abbrev arena : Arena
arena = record { base = 0x700000000000; size = default_size; offset = 64 }

arena-IsMapped : IsMapped arena
arena-IsMapped = record {
  mapped = omega arith;
  fits = omega arith;
  sized = refl;
  within = omega arith;
  aligned = refl;
}

-- A block of 20 bytes takes 32, a request for more than the region fails, and a reset frees all.
abbrev ops : List Op
ops = Op.alloc 20 ∷ Op.alloc 2000000 ∷ Op.alloc 16 ∷ []

run-ops : (run arena [] ops).1 ≡ (0x700000000060, 16) ∷ (0x700000000040, 20) ∷ []
unfolding run bump add_block align16
run-ops = refl

run_reset : (run arena [] (Op.alloc 20 ∷ Op.reset ∷ Op.alloc 16 ∷ [])).1 ≡ (0x700000000000, 16) ∷ []
unfolding run bump add_block align16 idmem_reset
run_reset = refl

run-Apart_example :
    let (a', live') = run arena [] ops in IsMapped a' × All (InUse a') live' × Apart live'
run-Apart_example = run-Apart arena [] ops arena-IsMapped (omega arith) tt tt

-- One process holds the first 64KB of the first candidate, the other nothing.
abbrev held : List Region
held = (0x700000000000, 0x700000010000) ∷ []

found : find_common_free_address (some held) (some []) 4000 ≡ some 0x700000010000
unfolding find_common_free_address scan_candidates scan_window is_free range_overlaps round_up
found = refl

find_common_free_address_sound_example :
    (0x700000010000 % align ≡ 0)
    × (0x700000010000 < 2 ^ 48)
    × (4000 ≤ round_up 4000)
    × All (Disjoint 0x700000010000 (round_up 4000)) held
    × All (Disjoint 0x700000010000 (round_up 4000)) []
find_common_free_address_sound_example =
    find_common_free_address_sound held [] 4000 0x700000010000 (omega arith) found

-- One process holds everything below 2^48.
abbrev all_held : List Region
all_held = (0, 2 ^ 48) ∷ []

not_found : find_common_free_address (some all_held) (some []) 4096 ≡ none
not_found = elim (Option-cases (find_common_free_address (some all_held) (some []) 4096)) [
  | inl e ↦ e
  | inr (addr, e) ↦
      let (al, below, ge, d1, d2) =
        find_common_free_address_sound all_held [] 4096 addr (omega arith) e in
      absurd (omega arith)
]

find_common_free_address_complete_example : ¬ (
    All (Disjoint 0x600000010000 (round_up 4096)) all_held
    × All (Disjoint 0x600000010000 (round_up 4096)) [])
find_common_free_address_complete_example =
    find_common_free_address_complete all_held [] 4096 0x600000010000 (omega arith) not_found
      (inr (inl (1, omega arith, refl)))

-- The first address is taken in the sandbox, and the search finds another.
abbrev answers : Answers
answers = record {
  sym_mmap = true;
  memfd = pos 6;
  ftruncate = pos 0;
  host_map = some 4096;
  has_channel = true;
  sandbox_fd = pos 3;
  sandbox_map = some 8192;
  common = some 65536;
  host_remap = some 65536;
  sandbox_remap = some 65536;
}

abbrev maps : Maps
maps = record { host = 100 ∷ []; sandbox = 200 ∷ []; host_fds = 0 ∷ []; sandbox_fds = [] }

falls_back : (mmap_identity answers maps).1 ≡ some 65536
unfolding mmap_identity make_memory send_memory map_sandbox fall_back remap_host remap_sandbox
    agrees
falls_back = refl

mmap_identity_lem_example :
    let (m', result) = mmap_identity answers maps in
    (m'.host ≡ added result maps.host)
    × (m'.sandbox ≡ added result maps.sandbox)
    × (m'.host_fds ≡ maps.host_fds)
mmap_identity_lem_example = mmap_identity_lem answers maps

abbrev shared : Maps
shared = record {
  host = 65536 ∷ 100 ∷ [];
  sandbox = 65536 ∷ 200 ∷ [];
  host_fds = 0 ∷ [];
  sandbox_fds = pos 3 ∷ [];
}

shares : mmap_identity answers maps ≡ (shared, some 65536)
unfolding mmap_identity make_memory send_memory map_sandbox fall_back remap_host remap_sandbox
    agrees host_mmap host_munmap host_close sandbox_mmap sandbox_munmap drop_addr
shares = refl

-- 00400000-0040b000 r
abbrev program : MapsLine
program = record {
  d = 0;
  ds = 0 ∷ 4 ∷ 0 ∷ 0 ∷ 0 ∷ 0 ∷ 0 ∷ [];
  e = 0;
  es = 0 ∷ 4 ∷ 0 ∷ 11 ∷ 0 ∷ 0 ∷ 0 ∷ [];
  tail = 114 ∷ [];
}

-- 7f00-8000 and nothing behind the space
abbrev library : MapsLine
library = record { d = 7; ds = 15 ∷ 0 ∷ 0 ∷ []; e = 8; es = 0 ∷ 0 ∷ 0 ∷ []; tail = [] }

program-IsLine : IsLine program
program-IsLine = record {
  starts = (
    omega arith,
    (
      omega arith,
      (omega arith, (omega arith, (omega arith, (omega arith, (omega arith, (omega arith, tt)))))),
    ),
  );
  ends = (
    omega arith,
    (
      omega arith,
      (omega arith, (omega arith, (omega arith, (omega arith, (omega arith, (omega arith, tt)))))),
    ),
  );
  start_small = omega arith;
  end_small = omega arith;
  one_line = (λ q. omega arith, tt);
  short = omega arith;
}

library-IsLine : IsLine library
library-IsLine = record {
  starts = (omega arith, (omega arith, (omega arith, (omega arith, tt))));
  ends = (omega arith, (omega arith, (omega arith, (omega arith, tt))));
  start_small = omega arith;
  end_small = omega arith;
  one_line = tt;
  short = omega arith;
}

-- realloc gives nothing.
abbrev no_memory : ℕ → Bool
no_memory n = false

-- The first array has room for both.
parse_proc_maps_lem_example :
    parse_proc_maps (some (file (program ∷ library ∷ []))) true no_memory
    ≡ some ((0x400000, 0x40b000) ∷ (0x7f00, 0x8000) ∷ [])
parse_proc_maps_lem_example =
    parse_proc_maps_lem true no_memory (program ∷ library ∷ [])
      (program-IsLine, (library-IsLine, tt))
