-- ===== src/Copy/From.antt =====
-- What `pbox_copy_from` (src/pbox/pbox.c) leaves in the host's buffer.
use sbox.Prelude.{
  ℕ, zero, suc, ◌+◌, ◌-◌, ◌<◌, ◌≤◌, ◌≡◌, ◌≢◌, refl, ◌∙◌, ap, List, [], ◌∷◌, ◌++◌, false, ltb, leb,
  ◌&&◌, ◌==◌, if◌then◌else◌, length, take, drop, get_or, arith, size_mod, add_size, some,
  length-take_of_le, length-memcpy_to, memcpy_to,
}
use sbox.Channel.{State, mem_storage_size}
use sbox.Copy.{Memory, Memcpy, read, chunk_of, copy_from_loop, Copied, finished, guarded, copy_from}
use sbox.Copy.Memory.{
  Separate, IsMemcpy, get_or-drop, get_or-take, chunk_of_bounds, length-read, get_or-read,
}

get_or-append :
    (xs ys : List ℕ) (i d : ℕ)
    → get_or (xs ++ ys) i d
      ≡ (if ltb i (length xs) then get_or xs i d else get_or ys (i - length xs) d)
get_or-append [] ys i d = ground arith
get_or-append (x ∷ xs) ys zero d = ground arith
get_or-append (x ∷ xs) ys (suc i) d = ground (arith, get_or-append xs ys i d)

-- A copied buffer, byte by byte.
get_or-memcpy_to :
    (dst src : List ℕ) (off n i : ℕ)
    → off + n ≤ length dst
    → n ≤ length src
    → get_or (memcpy_to dst off src n) i 0
      ≡ (if leb off i && ltb i (off + n) then get_or src (i - off) 0 else get_or dst i 0)
unfolding memcpy_to
get_or-memcpy_to dst src off n i h k = ground (
  arith,
  get_or-append (take off dst) (take n src ++ drop (off + n) dst) i 0,
  get_or-append (take n src) (drop (off + n) dst) (i - off) 0,
  length-take_of_le {0} off dst,
  length-take_of_le {0} n src,
  get_or-take dst off i 0 0,
  get_or-take src n (i - off) 0 0,
  get_or-drop dst (off + n) (i - off - n) 0,
)

-- The host's buffer after `n` bytes from `s` were copied to offset `d`, at `i`.
abbrev pub fetched_at : Memory → List ℕ → ℕ → ℕ → ℕ → ℕ → ℕ
fetched_at mem out d s n i = if leb d i && ltb i (d + n) then mem (s + (i - d)) else get_or out i 0

-- One round.
round_at :
    (cpy : Memcpy) (storage : ℕ) (mem : Memory) (out : List ℕ) (d s c i : ℕ)
    → IsMemcpy cpy
    → Separate s c storage mem_storage_size
    → c ≤ mem_storage_size
    → d + c ≤ length out
    → get_or (memcpy_to out d (read (cpy mem storage s c) storage c) c) i 0
      ≡ fetched_at mem out d s c i
round_at cpy storage mem out d s c i h apart small room =
    let bytes = read (cpy mem storage s c) storage c in
    get_or-memcpy_to out bytes d c i room
      (omega (arith, length-read (cpy mem storage s c) storage c))
    ∙ ground (
      arith,
      get_or-read (cpy mem storage s c) storage c (i - d) 0,
      h.inside mem storage s c (i - d),
    )

-- Two rounds one behind the other are one.
fetched_at_twice :
    (mem mem1 : Memory) (out out1 : List ℕ) (d s c n i : ℕ)
    → c ≤ n
    → get_or out1 i 0 ≡ fetched_at mem out d s c i
    → (d + c ≤ i → i < d + n → mem1 (s + c + (i - (d + c))) ≡ mem (s + (i - d)))
    → fetched_at mem1 out1 (d + c) (s + c) (n - c) i ≡ fetched_at mem out d s n i
fetched_at_twice mem mem1 out out1 d s c n i le first same = ground (arith, first, same)

copy_from_loop_empty :
    (cpy : Memcpy) (storage fuel : ℕ) (mem : Memory) (out : List ℕ) (d s : ℕ)
    → copy_from_loop cpy storage fuel mem out d s 0 ≡ some (mem, out)
unfolding copy_from_loop
copy_from_loop_empty cpy storage zero mem out d s = refl
copy_from_loop_empty cpy storage (suc fuel) mem out d s = refl

copy_from_loop_step :
    (cpy : Memcpy) (storage fuel : ℕ) (mem : Memory) (out : List ℕ) (d s n : ℕ)
    → (n == 0) ≡ false
    → add_size s (chunk_of n) ≡ s + chunk_of n
    → let mem1 = cpy mem storage s (chunk_of n) in
      copy_from_loop cpy storage (suc fuel) mem out d s n
      ≡ copy_from_loop cpy storage fuel mem1
          (memcpy_to out d (read mem1 storage (chunk_of n)) (chunk_of n))
          (d + chunk_of n)
          (s + chunk_of n)
          (n - chunk_of n)
copy_from_loop_step cpy storage fuel mem out d s n more fits =
    unfold copy_from_loop in rw (more, fits)

module _ (cpy : Memcpy) (storage : ℕ) (h : IsMemcpy cpy) where
  copy_from_loop_lem :
      (fuel : ℕ) (mem : Memory) (out : List ℕ) (d s n i j : ℕ)
      → n ≤ fuel
      → d + n ≤ length out
      → s + n < size_mod
      → Separate s n storage mem_storage_size
      → Separate storage mem_storage_size j 1
      → (mem' : Memory) × (out' : List ℕ) × (copy_from_loop cpy storage fuel mem out d s n
          ≡ some (mem', out'))
        × (length out' ≡ length out)
        × (get_or out' i 0 ≡ fetched_at mem out d s n i)
        × (mem' j ≡ mem j)
  copy_from_loop_lem fuel mem out d s zero i j enough room fits apart outside =
      (mem, out, copy_from_loop_empty cpy storage fuel mem out d s, refl, ground arith, refl)
  copy_from_loop_lem zero mem out d s (suc n) i j enough room fits apart outside =
      absurd (omega arith)
  copy_from_loop_lem (suc fuel) mem out d s (suc n) i j enough room fits apart outside =
      let c = chunk_of (suc n) in
      let (some_byte, at_most, small) = chunk_of_bounds (suc n) (omega arith) in
      let mem1 = cpy mem storage s c in
      let bytes = read mem1 storage c in
      let out1 = memcpy_to out d bytes c in
      let len : length out1 ≡ length out =
        length-memcpy_to out bytes d c (omega arith) (omega (arith, length-read mem1 storage c)) in
      let (mem', out', runs, len', at_i, at_j) =
        copy_from_loop_lem fuel mem1 out1 (d + c) (s + c) (suc n - c) i j (omega arith)
          (omega (arith, len)) (omega arith) (omega arith) outside in
      (
        mem',
        out',
        copy_from_loop_step cpy storage fuel mem out d s (suc n) (ground arith) (omega arith)
            ∙ runs,
        len' ∙ len,
        at_i
            ∙ fetched_at_twice mem mem1 out out1 d s c (suc n) i at_most
                (round_at cpy storage mem out d s c i h (omega arith) small (omega arith))
                (λ lo hi.
                  h.outside mem storage s c (s + c + (i - (d + c))) (omega arith) (omega arith)
                  ∙ ap mem (omega arith)),
        at_j ∙ h.outside mem storage s c j (omega arith) (omega arith),
      )

-- When the sandbox has a memcpy and the thread an idle channel, `pbox_copy_from` comes to an end.
-- Afterwards the first `n` bytes of the host's buffer are those of the sandbox's memory from
-- `src` on and the others are as before, and the sandbox's memory outside the channel's storage
-- is unchanged, if the source lies in the address space and does not overlap that storage, and
-- the buffer has `n` bytes.
pub copy_from_lem :
    (cpy : Memcpy) (sym_memcpy storage : ℕ) (mem : Memory) (dest : List ℕ) (src n i j : ℕ)
    → IsMemcpy cpy
    → sym_memcpy ≢ 0
    → n ≤ length dest
    → src + n < size_mod
    → Separate src n storage mem_storage_size
    → Separate storage mem_storage_size j 1
    → (mem' : Memory) × (dest' : List ℕ) × (copy_from cpy sym_memcpy
          (some State.idle)
          storage
          mem
          dest
          src
          n
        ≡ Copied.done (mem', dest'))
      × (length dest' ≡ length dest)
      × (get_or dest' i 0 ≡ (if ltb i n then mem (src + i) else get_or dest i 0))
      × (mem' j ≡ mem j)
unfolding copy_from guarded finished
copy_from_lem cpy sym_memcpy storage mem dest src n i j h known room fits apart outside =
    let (mem', dest', runs, len, at_i, at_j) =
      copy_from_loop_lem cpy storage h n mem dest 0 src n i j (omega arith) (omega arith) fits apart
        outside in
    let ready : (sym_memcpy == 0) ≡ false = ground arith in
    (mem', dest', rw (ready, runs), len, at_i ∙ ground arith, at_j)
