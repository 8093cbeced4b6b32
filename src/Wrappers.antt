-- ===== src/Wrappers.antt =====
-- The memory functions of src/pbox/pbox.c that call the sandbox's own: `pbox_mmap_box_fd`, `pbox_mmap`,
-- `pbox_munmap`, `pbox_malloc`, `pbox_calloc`, `pbox_realloc` and `pbox_free`.
pub mod Calls
use sbox.Prelude.{
  ℕ, zero, suc, ◌-◌, ◌/◌, ◌%◌, ◌^◌, List, [], ◌∷◌, Bool, true, false, not, ◌&&◌, Option, some, none,
  if◌then◌else◌, ◌==◌, replicate, ℤ, pos, negsuc, is_neg,
}
use sbox.Dyfn.Types.{PBoxType}
use sbox.Channel.{Channel}
use sbox.Call.{HostArg, pbox_call}

-- A number in `k` bytes, the lowest first.
unfoldable pub le_bytes : ℕ → ℕ → List ℕ
le_bytes zero n = []
le_bytes (suc k) n = n % 256 ∷ le_bytes k (n / 256)

-- A size or an address, and an int in two's complement.
abbrev pub word : ℕ → List ℕ
word n = le_bytes 8 n

unfoldable pub int_code : ℤ → ℕ
int_code (pos n) = n % 2 ^ 32
int_code (negsuc n) = 2 ^ 32 - 1 - n

abbrev pub int : ℤ → List ℕ
int z = le_bytes 4 (int_code z)

-- The functions of the sandbox's libc, as `pbox_create` finds them; NULL is 0.
pub record Symbols : Type 0 where
  pub sym_mmap : ℕ
  pub sym_munmap : ℕ
  pub sym_malloc : ℕ
  pub sym_calloc : ℕ
  pub sym_realloc : ℕ
  pub sym_free : ℕ

-- What the sandbox does with a request, and the answer of `get_or_create_channel`.
abbrev pub Serve : Type 0
Serve = Channel → Option Channel

-- The channel, and the bytes of the result: none for void, and where `pbox_call` leaves the result as
-- it is.
abbrev pub Answer : Type 0
Answer = Option (Option Channel × Option (List ℕ))

-- NULL, MAP_FAILED and -1.
abbrev pub null : List ℕ
null = replicate 8 0

abbrev pub map_failed : List ℕ
map_failed = replicate 8 255

abbrev pub minus_one_int : List ℕ
minus_one_int = replicate 4 255

unfoldable pub pbox_mmap_box_fd :
    Serve
    → Option Channel
    → Symbols
    → (addr length : ℕ) (prot flags sandbox_fd : ℤ) (offset : ℕ) → Answer
pbox_mmap_box_fd serve channel syms addr length prot flags sandbox_fd offset =
    if syms.sym_mmap == 0
    then some (channel, some map_failed)
    else pbox_call serve channel syms.sym_mmap PBoxType.pointer
        ((PBoxType.pointer, word addr)
          ∷ (PBoxType.uint64, word length)
          ∷ (PBoxType.sint32, int prot)
          ∷ (PBoxType.sint32, int flags)
          ∷ (PBoxType.sint32, int sandbox_fd)
          ∷ (PBoxType.sint64, word offset)
          ∷ [])
        true

-- `sandbox_fd` is the answer of `pbox_send_fd`.
unfoldable pub pbox_mmap :
    Serve
    → Option Channel
    → Symbols
    → (addr length : ℕ) (prot flags fd sandbox_fd : ℤ) (offset : ℕ) → Answer
pbox_mmap serve channel syms addr length prot flags fd sandbox_fd offset =
    if not (is_neg fd) && is_neg sandbox_fd
    then some (channel, some map_failed)
    else pbox_mmap_box_fd serve channel syms addr length prot flags sandbox_fd offset

unfoldable pub pbox_munmap : Serve → Option Channel → Symbols → (addr length : ℕ) → Answer
pbox_munmap serve channel syms addr length =
    if syms.sym_munmap == 0
    then some (channel, some minus_one_int)
    else pbox_call serve channel syms.sym_munmap PBoxType.sint32
        ((PBoxType.pointer, word addr) ∷ (PBoxType.uint64, word length) ∷ []) true

unfoldable pub pbox_malloc : Serve → Option Channel → Symbols → ℕ → Answer
pbox_malloc serve channel syms size =
    if syms.sym_malloc == 0
    then some (channel, some null)
    else pbox_call serve channel syms.sym_malloc PBoxType.pointer
        ((PBoxType.uint64, word size) ∷ []) true

unfoldable pub pbox_calloc : Serve → Option Channel → Symbols → (nmemb size : ℕ) → Answer
pbox_calloc serve channel syms nmemb size =
    if syms.sym_calloc == 0
    then some (channel, some null)
    else pbox_call serve channel syms.sym_calloc PBoxType.pointer
        ((PBoxType.uint64, word nmemb) ∷ (PBoxType.uint64, word size) ∷ []) true

unfoldable pub pbox_realloc : Serve → Option Channel → Symbols → (p size : ℕ) → Answer
pbox_realloc serve channel syms p size =
    if syms.sym_realloc == 0
    then some (channel, some null)
    else pbox_call serve channel syms.sym_realloc PBoxType.pointer
        ((PBoxType.pointer, word p) ∷ (PBoxType.uint64, word size) ∷ []) true

unfoldable pub pbox_free : Serve → Option Channel → Symbols → ℕ → Answer
pbox_free serve channel syms p =
    if syms.sym_free == 0
    then some (channel, none)
    else pbox_call serve channel syms.sym_free PBoxType.void ((PBoxType.pointer, word p) ∷ []) false
