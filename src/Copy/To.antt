-- ===== src/Copy/To.antt =====
-- What `pbox_copy_to` (src/pbox/pbox.c) leaves in the sandbox's memory.
use sbox.Prelude.{
  ℕ, zero, suc, ◌+◌, ◌-◌, ◌<◌, ◌≤◌, ◌≡◌, ◌≢◌, inl, inr, refl, ◌∙◌, ap, List, false, ltb, leb, ◌&&◌,
  ◌==◌, if◌then◌else◌, length, take, drop, get_or, arith, size_mod, add_size, some, length-drop,
  Bool-cases,
}
use sbox.Channel.{State, mem_storage_size}
use sbox.Copy.{Memory, Memcpy, write, chunk_of, copy_to_loop, Copied, finished, guarded, copy_to}
use sbox.Copy.Memory.{Separate, IsMemcpy, get_or-drop, write_inside, write_outside, chunk_of_bounds}

-- The memory after `n` bytes of `s` were copied to `d`, at `j`.
abbrev pub copied_at : Memory → ℕ → List ℕ → ℕ → ℕ → ℕ
copied_at mem d s n j = if leb d j && ltb j (d + n) then get_or s (j - d) 0 else mem j

-- One round, at an address outside the storage.
round_at :
    (cpy : Memcpy) (storage : ℕ) (mem : Memory) (d : ℕ) (s : List ℕ) (c j : ℕ)
    → IsMemcpy cpy
    → c ≤ mem_storage_size
    → c ≤ length s
    → Separate d c storage mem_storage_size
    → Separate storage mem_storage_size j 1
    → cpy (write mem storage (take c s)) d storage c j ≡ copied_at mem d s c j
round_at cpy storage mem d s c j h small le apart outside =
    elim (Bool-cases (leb d j && ltb j (d + c))) [
      | inl within ↦
          let lo : (d ≤ j) × (j < d + c) = ground arith in
          rw within (
            ap (cpy (write mem storage (take c s)) d storage c) {x = j} {y = d + (j - d)}
              (omega arith)
            ∙ h.inside (write mem storage (take c s)) d storage c (j - d) (omega arith)
                (omega arith)
            ∙ write_inside mem storage c (j - d) 0 s (omega arith) le)
      | inr beyond ↦
          let lo : Separate d c j 1 = ground arith in
          rw beyond (
            h.outside (write mem storage (take c s)) d storage c j (omega arith) lo
            ∙ write_outside mem storage c j s (omega arith))
    ]

-- Two copies one behind the other are one.
copied_at_twice :
    (mem mem1 : Memory) (d : ℕ) (s : List ℕ) (c n j : ℕ)
    → c ≤ n
    → mem1 j ≡ copied_at mem d s c j
    → copied_at mem1 (d + c) (drop c s) (n - c) j ≡ copied_at mem d s n j
copied_at_twice mem mem1 d s c n j le first =
    let here : c ≤ j - d → c + (j - (d + c)) ≡ j - d = λ q. omega arith in
    ground (arith, first, get_or-drop s c (j - (d + c)) 0)

copy_to_loop_empty :
    (cpy : Memcpy) (storage fuel : ℕ) (mem : Memory) (d : ℕ) (s : List ℕ)
    → copy_to_loop cpy storage fuel mem d s 0 ≡ some mem
unfolding copy_to_loop
copy_to_loop_empty cpy storage zero mem d s = refl
copy_to_loop_empty cpy storage (suc fuel) mem d s = refl

copy_to_loop_step :
    (cpy : Memcpy) (storage fuel : ℕ) (mem : Memory) (d : ℕ) (s : List ℕ) (n : ℕ)
    → (n == 0) ≡ false
    → add_size d (chunk_of n) ≡ d + chunk_of n
    → copy_to_loop cpy storage (suc fuel) mem d s n
      ≡ copy_to_loop cpy storage fuel
          (cpy (write mem storage (take (chunk_of n) s)) d storage (chunk_of n))
          (d + chunk_of n)
          (drop (chunk_of n) s)
          (n - chunk_of n)
copy_to_loop_step cpy storage fuel mem d s n more fits = unfold copy_to_loop in rw (more, fits)

copy_to_loop_lem :
    (cpy : Memcpy) (storage fuel : ℕ) (mem : Memory) (d : ℕ) (s : List ℕ) (n j : ℕ)
    → IsMemcpy cpy
    → n ≤ fuel
    → n ≤ length s
    → d + n < size_mod
    → Separate d n storage mem_storage_size
    → Separate storage mem_storage_size j 1
    → (mem' : Memory) × (copy_to_loop cpy storage fuel mem d s n ≡ some mem')
      × (mem' j ≡ copied_at mem d s n j)
copy_to_loop_lem cpy storage fuel mem d s zero j h enough le fits apart outside =
    (mem, copy_to_loop_empty cpy storage fuel mem d s, ground arith)
copy_to_loop_lem cpy storage zero mem d s (suc n) j h enough le fits apart outside =
    absurd (omega arith)
copy_to_loop_lem cpy storage (suc fuel) mem d s (suc n) j h enough le fits apart outside =
    let c = chunk_of (suc n) in
    let (some_byte, at_most, small) = chunk_of_bounds (suc n) (omega arith) in
    let mem1 = cpy (write mem storage (take c s)) d storage c in
    let (mem', runs, at_j) =
      copy_to_loop_lem cpy storage fuel mem1 (d + c) (drop c s) (suc n - c) j h (omega arith)
        (omega (arith, length-drop {0} c s)) (omega arith) (omega arith) outside in
    (
      mem',
      copy_to_loop_step cpy storage fuel mem d s (suc n) (ground arith) (omega arith) ∙ runs,
      at_j
          ∙ copied_at_twice mem mem1 d s c (suc n) j at_most
              (round_at cpy storage mem d s c j h small (omega arith) (omega arith) outside),
    )

-- When the sandbox has a memcpy and the thread an idle channel, `pbox_copy_to` comes to an end.
-- Afterwards the bytes of the destination are those of the source, and every other byte of the
-- sandbox's memory outside the channel's storage is as before, if the destination lies in the
-- address space and does not overlap that storage, and the source has `n` bytes.
pub copy_to_lem :
    (cpy : Memcpy) (sym_memcpy storage : ℕ) (mem : Memory) (dest : ℕ) (src : List ℕ) (n j : ℕ)
    → IsMemcpy cpy
    → sym_memcpy ≢ 0
    → n ≤ length src
    → dest + n < size_mod
    → Separate dest n storage mem_storage_size
    → Separate storage mem_storage_size j 1
    → (mem' : Memory) × (copy_to cpy sym_memcpy (some State.idle) storage mem dest src n
        ≡ Copied.done mem')
      × (mem' j ≡ (if leb dest j && ltb j (dest + n) then get_or src (j - dest) 0 else mem j))
unfolding copy_to guarded finished
copy_to_lem cpy sym_memcpy storage mem dest src n j h known le fits apart outside =
    let (mem', runs, at_j) =
      copy_to_loop_lem cpy storage n mem dest src n j h (omega arith) le fits apart outside in
    let ready : (sym_memcpy == 0) ≡ false = ground arith in (mem', rw (ready, runs), at_j)
