-- ===== src/Front/Strings.antt =====
-- `copy_string` of include/sbox/process.hh.
use sbox.Prelude.{
  false, ℕ, suc, ◌+◌, ◌-◌, ◌<◌, ◌≤◌, ◌≡◌, ◌≢◌, refl, sym, ap, ◌∙◌, List, [], ◌∷◌, ◌++◌, some,
  length, get_or, ltb, leb, ◌&&◌, if◌then◌else◌, ◌==◌, All, arith, size_mod,
}
use sbox.Channel.{State, mem_storage_size}
use sbox.Copy.{Memory, Memcpy, Copied, copy_to, read}
use sbox.Copy.Memory.{Separate, IsMemcpy}
use sbox.Copy.To.{copy_to_lem}
use sbox.Sandbox.Dispatch.{c_string}

-- `s` without its NUL, and `buf` the answer of `alloc<char>(len)`; the pointer, and what the copy does.
unfoldable pub copy_string :
    Memcpy → ℕ → State → ℕ → Memory → (s : List ℕ) → (buf : ℕ) → ℕ × Copied Memory
copy_string cpy sym_memcpy state storage mem s buf =
    let len = length s + 1 in
    if buf == 0
    then (0, Copied.skipped)
    else (buf, copy_to cpy sym_memcpy (some state) storage mem buf (s ++ 0 ∷ []) len)

length-terminated : (s : List ℕ) → length (s ++ 0 ∷ []) ≡ length s + 1
length-terminated [] = refl
length-terminated (c ∷ s) = let rest = length-terminated s in omega arith

-- A string that lies in memory with its NUL is read back.
c_string-read :
    (mem : Memory) (at : ℕ) (s : List ℕ)
    → All (λ c. c ≢ 0) s
    → ((i : ℕ) → i ≤ length s → mem (at + i) ≡ get_or (s ++ 0 ∷ []) i 0)
    → c_string (read mem at (suc (length s))) ≡ s
unfolding c_string read
c_string-read mem at [] all h =
    let here : mem at ≡ 0 = ap mem (omega arith) ∙ h 0 (omega arith) in rw here refl
c_string-read mem at (c ∷ s) (char, all) h =
    let here : mem at ≡ c = ap mem (omega arith) ∙ h 0 (omega arith) in
    let other : (c == 0) ≡ false = ground arith in
    rw (here, other)
      (ap (λ (l : List ℕ). c ∷ l)
        (c_string-read mem (at + 1) s all (λ i le. ap mem (omega arith) ∙ h (suc i) (omega arith))))

inside :
    (mem : Memory) (buf len : ℕ) (bytes : List ℕ) (i : ℕ)
    → i < len
    → (if leb buf (buf + i) && ltb (buf + i) (buf + len)
        then get_or bytes (buf + i - buf) 0
        else mem (buf + i))
      ≡ get_or bytes i 0
inside mem buf len bytes i lt = let k : buf + i - buf ≡ i = omega arith in ground (arith, k)

-- Where the allocation is granted, the sandbox has a memcpy and the thread an idle channel, for a buffer
-- in the address space, away from the channel's storage: the pointer that is returned is the
-- buffer's, and the string that the sandbox finds there is `s`.
pub copy_string_lem :
    (cpy : Memcpy) (sym_memcpy storage : ℕ) (mem : Memory) (s : List ℕ) (buf : ℕ)
    → IsMemcpy cpy
    → sym_memcpy ≢ 0
    → buf ≢ 0
    → All (λ c. c ≢ 0) s
    → buf + (length s + 1) < size_mod
    → Separate buf (length s + 1) storage mem_storage_size
    → (mem' : Memory) × (copy_string cpy sym_memcpy State.idle storage mem s buf
        ≡ (buf, Copied.done mem'))
      × (c_string (read mem' buf (length s + 1)) ≡ s)
unfolding copy_string
copy_string_lem cpy sym_memcpy storage mem s buf is_memcpy known granted all fits apart =
    let len = length s + 1 in
    let whole = s ++ 0 ∷ [] in
    let long = length-terminated s in
    let at = λ (i : ℕ) (le : i ≤ length s).
      copy_to_lem cpy sym_memcpy storage mem buf whole len (buf + i) is_memcpy known (omega arith)
        fits apart (omega arith) in
    let covered = λ (i : ℕ) (le : i ≤ length s). inside mem buf len whole i (omega arith) in
    let (mem', runs, first) = at 0 (omega arith) in
    let counted : len ≡ suc (length s) = omega arith in
    let some_buffer : (buf == 0) ≡ false = ground arith in
    (
      mem',
      rw (some_buffer, runs) refl,
      ap (λ (n : ℕ). c_string (read mem' buf n)) counted
          ∙ c_string-read mem' buf s all (λ i le.
            let (mem1, runs1, found) = at i le in
            let same : Copied.done mem' ≡ Copied.done mem1 = sym runs ∙ runs1 in
            let same_mem : mem' ≡ mem1 = cc in
            ap (λ (m : Memory). m (buf + i)) same_mem ∙ found ∙ covered i le),
    )
