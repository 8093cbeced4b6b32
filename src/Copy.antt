-- ===== src/Copy.antt =====
-- `pbox_copy_to` and `pbox_copy_from` of src/pbox/pbox.c: chunked copies through the channel's
-- `mem_storage`.
pub mod Memory
pub mod To
pub mod From
use sbox.Prelude.{
  ℕ, zero, suc, ◌+◌, ◌-◌, List, [], ◌∷◌, Bool, true, false, Option, none, some, ltb, ◌==◌,
  if◌then◌else◌, take, drop, get_or, memcpy_to, add_size,
}
use sbox.Channel.{State, mem_storage_size}

-- The sandbox's memory, byte by byte.
abbrev pub Memory : Type 0
Memory = ℕ → ℕ

-- The sandbox's `memcpy(d, s, n)`, called by `pbox_call`: what it does to the memory.
abbrev pub Memcpy : Type 0
Memcpy = Memory → ℕ → ℕ → ℕ → Memory

-- The host writes bytes into the storage, which both sides map; the sandbox sees it at `at`.
unfoldable pub write : Memory → ℕ → List ℕ → Memory
write mem at bytes a = if ltb a at then mem a else get_or bytes (a - at) (mem a)

-- The host reads `n` bytes from there.
unfoldable pub read : Memory → ℕ → ℕ → List ℕ
read mem at zero = []
read mem at (suc n) = mem at ∷ read mem (at + 1) n

-- `n < PBOX_MEM_STORAGE ? n : PBOX_MEM_STORAGE`
unfoldable pub chunk_of : ℕ → ℕ
chunk_of n = if ltb n mem_storage_size then n else mem_storage_size

-- The loop of `pbox_copy_to`, on fuel: `d` and `s` move on, `n` counts down. `storage` is the
-- sandbox's address of `mem_storage`.
unfoldable pub copy_to_loop : Memcpy → ℕ → ℕ → Memory → ℕ → List ℕ → ℕ → Option Memory
copy_to_loop cpy storage zero mem d s n = if n == 0 then some mem else none
copy_to_loop cpy storage (suc fuel) mem d s n =
    let chunk = chunk_of n in
    let copied = cpy (write mem storage (take chunk s)) d storage chunk in
    let rest = copy_to_loop cpy storage fuel copied (add_size d chunk) (drop chunk s) (n - chunk) in
    if n == 0 then some mem else rest

-- What a copy leaves behind: nothing happened, the host aborted, or it was done.
pub data Copied (A : Type 0) : Type 0 where
  skipped aborted : Copied A
  done : A → Copied A

-- `aborted` is also what no fuel would give.
unfoldable pub finished : {A : Type 0} → Option A → Copied A
finished none = Copied.aborted
finished (some a) = Copied.done a

-- Both functions' guards: `memcpy` must be known, a channel must be there, and its state must not be
-- CALLBACK. `channel` is the channel's state.
unfoldable pub guarded : {A : Type 0} → ℕ → Option State → Option A → Copied A
guarded sym_memcpy none run = Copied.skipped
guarded sym_memcpy (some State.callback) run =
    if sym_memcpy == 0 then Copied.skipped else Copied.aborted
guarded sym_memcpy (some state) run = if sym_memcpy == 0 then Copied.skipped else finished run

-- Every round copies a byte at least, so `n` rounds are enough.
unfoldable pub copy_to : Memcpy → ℕ → Option State → ℕ → Memory → ℕ → List ℕ → ℕ → Copied Memory
copy_to cpy sym_memcpy channel storage mem dest src n =
    guarded sym_memcpy channel (copy_to_loop cpy storage n mem dest src n)

-- The loop of `pbox_copy_from`: the sandbox's memory, and the host's bytes written so far at `d` of
-- `out`.
unfoldable pub copy_from_loop :
    Memcpy → ℕ → ℕ → Memory → List ℕ → ℕ → ℕ → ℕ → Option (Memory × List ℕ)
copy_from_loop cpy storage zero mem out d s n = if n == 0 then some (mem, out) else none
copy_from_loop cpy storage (suc fuel) mem out d s n =
    let chunk = chunk_of n in
    let copied = cpy mem storage s chunk in
    let out' = memcpy_to out d (read copied storage chunk) chunk in
    let rest =
      copy_from_loop cpy storage fuel copied out' (d + chunk) (add_size s chunk) (n - chunk) in
    if n == 0 then some (mem, out) else rest

unfoldable pub copy_from :
    Memcpy → ℕ → Option State → ℕ → Memory → List ℕ → ℕ → ℕ → Copied (Memory × List ℕ)
copy_from cpy sym_memcpy channel storage mem dest src n =
    guarded sym_memcpy channel (copy_from_loop cpy storage n mem dest 0 src n)
