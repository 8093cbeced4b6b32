-- ===== src/Wrappers/Calls.antt =====
-- Every memory function of src/pbox/pbox.c calls the sandbox's function of that name with its
-- arguments, and returns that function's result.
use sbox.Prelude.{
  ℕ, zero, suc, ◌/◌, ◌≤◌, ◌≡◌, ◌≢◌, ◌⊎◌, refl, ap, ◌∙◌, List, [], ◌∷◌, Bool, true, false, Option,
  some, none, if◌then◌else◌, length, ℤ, is_neg, arith,
}
use sbox.Dyfn.Types.{PBoxType, code, of_code, pbox_type_size, IsNamed}
use sbox.Dyfn.Call.{DyfnCallArgs}
use sbox.Dyfn.Store.{IsResult, result_bytes}
use sbox.Dyfn.Closure.{Closures}
use sbox.Channel.{Channel, State, max_args}
use sbox.Channel.Pack.{IsShaped}
use sbox.Call.{HostArg, pbox_call}
use sbox.Call.Packing.{Ready}
use sbox.Call.Deliver.{Delivered}
use sbox.Call.Result.{pbox_call-returns}
use sbox.Call.Served.{pbox_call-served}
use sbox.Sandbox.Dispatch.{Environment, served_channel}
use sbox.Wrappers.{
  le_bytes, word, int, Symbols, Serve, Answer, null, map_failed, minus_one_int, pbox_mmap_box_fd,
  pbox_mmap, pbox_munmap, pbox_malloc, pbox_calloc, pbox_realloc, pbox_free,
}

-- A request for memory, with the function's arguments.
pub data Request : Type 0 where
  mmap : (addr length : ℕ) (prot flags fd sandbox_fd : ℤ) (offset : ℕ) → Request
  munmap : (addr length : ℕ) → Request
  malloc : (size : ℕ) → Request
  calloc : (nmemb size : ℕ) → Request
  realloc : (p size : ℕ) → Request
  free : (p : ℕ) → Request

-- The function of src/pbox/pbox.c.
abbrev pub request : Serve → Option Channel → Symbols → Request → Answer
request serve channel syms (mmap addr len prot flags fd sandbox_fd offset) =
    pbox_mmap serve channel syms addr len prot flags fd sandbox_fd offset
request serve channel syms (munmap addr len) = pbox_munmap serve channel syms addr len
request serve channel syms (malloc size) = pbox_malloc serve channel syms size
request serve channel syms (calloc nmemb size) = pbox_calloc serve channel syms nmemb size
request serve channel syms (realloc p size) = pbox_realloc serve channel syms p size
request serve channel syms (free p) = pbox_free serve channel syms p

-- The C function that it stands for: its address, its prototype's result, and its arguments.
abbrev pub symbol : Symbols → Request → ℕ
symbol syms (mmap addr len prot flags fd sandbox_fd offset) = syms.sym_mmap
symbol syms (munmap addr len) = syms.sym_munmap
symbol syms (malloc size) = syms.sym_malloc
symbol syms (calloc nmemb size) = syms.sym_calloc
symbol syms (realloc p size) = syms.sym_realloc
symbol syms (free p) = syms.sym_free

abbrev pub result_type : Request → PBoxType
result_type (munmap addr len) = PBoxType.sint32
result_type (free p) = PBoxType.void
result_type r = PBoxType.pointer

abbrev pub arguments : Request → List HostArg
arguments (mmap addr len prot flags fd sandbox_fd offset) =
    (PBoxType.pointer, word addr)
    ∷ (PBoxType.uint64, word len)
    ∷ (PBoxType.sint32, int prot)
    ∷ (PBoxType.sint32, int flags)
    ∷ (PBoxType.sint32, int sandbox_fd)
    ∷ (PBoxType.sint64, word offset)
    ∷ []
arguments (munmap addr len) = (PBoxType.pointer, word addr) ∷ (PBoxType.uint64, word len) ∷ []
arguments (malloc size) = (PBoxType.uint64, word size) ∷ []
arguments (calloc nmemb size) = (PBoxType.uint64, word nmemb) ∷ (PBoxType.uint64, word size) ∷ []
arguments (realloc p size) = (PBoxType.pointer, word p) ∷ (PBoxType.uint64, word size) ∷ []
arguments (free p) = (PBoxType.pointer, word p) ∷ []

-- Only `free` has no result.
abbrev pub has_result : Request → Bool
has_result (free p) = false
has_result r = true

-- A descriptor that must be sent could be.
abbrev pub IsSent : Request → Type 0
IsSent (mmap addr len prot flags fd sandbox_fd offset) =
    (is_neg fd ≡ true) ⊎ (is_neg sandbox_fd ≡ false)
IsSent r = Unit

pub length-le_bytes : (k n : ℕ) → length (le_bytes k n) ≡ k
unfolding le_bytes
length-le_bytes zero n = refl
length-le_bytes (suc k) n = ap suc (length-le_bytes k (n / 256))

request-pbox_call :
    (serve : Serve) (channel : Option Channel) (syms : Symbols) (r : Request)
    → symbol syms r ≢ 0
    → IsSent r
    → request serve channel syms r
      ≡ pbox_call serve channel (symbol syms r) (result_type r) (arguments r) (has_result r)
unfolding pbox_mmap_box_fd pbox_mmap pbox_munmap pbox_malloc pbox_calloc pbox_realloc pbox_free
request-pbox_call serve channel syms (mmap addr len prot flags fd sandbox_fd offset) known sent =
    ground arith
request-pbox_call serve channel syms r known sent = ground arith

arguments-Ready :
    (r : Request)
    → Ready (arguments r) × (length (arguments r) ≤ max_args) × IsNamed (result_type r)
unfolding pbox_type_size le_bytes
arguments-Ready (mmap addr len prot flags fd sandbox_fd offset) = omega arith
arguments-Ready r = omega arith

-- Where the sandbox has the function, and a descriptor that is needed there could be sent, a request
-- for memory does what one `pbox_call` of the function of that name does, whatever serves the call
-- (`serve`) and whatever channel the thread has (`any`). Over a channel in shape it fails no
-- assertion: the function is called with the caller's arguments in the places of the calling
-- convention, and the caller gets its result. The channel is idle afterwards, and in shape.
pub request-returns :
    (env : Environment) (is_control : Bool) (closures : Closures) (ch : Channel) (syms : Symbols)
    (r : Request) (serve : Serve) (any : Option Channel)
    → ((regs : DyfnCallArgs) → IsResult (env.dyfn_call regs))
    → IsShaped ch
    → symbol syms r ≢ 0
    → IsSent r
    → (request serve any syms r
        ≡ pbox_call serve any (symbol syms r) (result_type r) (arguments r) (has_result r))
      × (regs : DyfnCallArgs) × Delivered env.arch (symbol syms r) (arguments r) regs
      × ((ch' : Channel) × (request (served_channel env is_control closures) (some ch) syms r
            ≡ some (
              some ch',
              if has_result r
                  then some (result_bytes (of_code (code (result_type r))) (env.dyfn_call regs))
                  else none,
            ))
          × (ch'.state ≡ State.idle)
          × IsShaped ch')
request-returns env is_control closures ch syms r serve any results shaped known sent =
    let (ready, few, named) = arguments-Ready r in
    let (regs, delivered, (ch', e, idle, shaped')) =
      pbox_call-returns env.arch env.dyfn_call ch (symbol syms r) (result_type r) (arguments r)
        (has_result r) results shaped named ready few in
    (
      request-pbox_call serve any syms r known sent,
      regs,
      delivered,
      (
        ch',
        request-pbox_call (served_channel env is_control closures) (some ch) syms r known sent
            ∙ pbox_call-served env is_control closures ch shaped (symbol syms r) (result_type r)
                (arguments r) ready few (has_result r)
            ∙ e,
        idle,
        shaped',
      ),
    )

-- What a function returns that cannot call: NULL, MAP_FAILED, -1, or nothing.
abbrev pub failure : Request → Option (List ℕ)
failure (mmap addr len prot flags fd sandbox_fd offset) = some map_failed
failure (munmap addr len) = some minus_one_int
failure (free p) = none
failure r = some null

-- Where the sandbox has no function of that name, the function returns its failure value and leaves
-- the channel alone.
pub request_failed :
    (serve : Serve) (channel : Option Channel) (syms : Symbols) (r : Request)
    → symbol syms r ≡ 0
    → request serve channel syms r ≡ some (channel, failure r)
unfolding pbox_mmap_box_fd pbox_mmap pbox_munmap pbox_malloc pbox_calloc pbox_realloc pbox_free
request_failed serve channel syms (mmap addr len prot flags fd sandbox_fd offset) unknown =
    ground arith
request_failed serve channel syms r unknown = ground arith
