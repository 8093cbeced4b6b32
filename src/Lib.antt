-- ===== src/Lib.antt =====
-- sbox runs a library in a sandbox. The process backend puts it in a process of its own: the host talks
-- to that process over channels of shared memory, one per thread, with futex waits; the process fills
-- registers from a channel, calls the library and answers. The LFI backend keeps the library in the
-- host's address space, confined by rewriting, and enters it through trampolines. A template front
-- end in C++ gives all backends one typed interface. This development covers src/pbox and src/dyfn,
-- include/sbox and src/sbox_lfi.cc.
--
-- Parts and how they interact:
--   Prelude        shared names; lists over the native numbers, sizes that wrap at 2^64, bytes and
--                  memcpy, failure as Option.
--   Dyfn           src/dyfn/dyfn.c: types and sizes (Types), `dyfn_prep_call` and `dyfn_store_result`
--                  (Call), the calling convention as an independent description (Place), its
--                  refinement (Fill, Store), closure slots (Closure). A word is its eight bytes, a
--                  pointer its address.
--   Channel        src/pbox/pbox_internal.h: `struct PBoxChannel`; Channel.Pack is the packing that
--                  `pbox_call` and `dyfn_closure_dispatch` share.
--   Call           `pbox_call` (src/pbox/pbox.c). What happens while the host waits is the parameter
--                  `serve`; Call.Result puts the sandbox's `do_ffi_call` there.
--   Sandbox        src/pbox/pbox_sandbox.c: `do_ffi_call` (Ffi), the loop of `dyfn_closure_dispatch`
--                  (Extract, Recover), the rest of it and the request switch (Dispatch).
--   Callback       `pbox_register_callback` and `pbox_dispatch_callback` (src/pbox/pbox.c). Deliver
--                  joins them with the sandbox's side.
--   FdCache, Send  `pbox_cache_fd`, `pbox_lookup_fd`, `pbox_uncache_fd`, `pbox_send_fd` and
--                  `pbox_close` (src/pbox/pbox.c). Send.World sets whole calls beside the
--                  descriptors that are open in the sandbox.
--   Idmem          `pbox_idmem_alloc`, `pbox_idmem_reset`, `pbox_in_idmem` (src/pbox/pbox.c).
--   Procmaps       `pbox_find_common_free_address` and `parse_proc_maps` (src/pbox/pbox_procmaps.c).
--   Seccomp        src/pbox/pbox_seccomp.c: both BPF programs, and the machine that runs them.
--   Threads        `create_channel_locked`, `channel_destructor`, `get_or_create_channel`
--                  (src/pbox/pbox.c): the vector of channels, and what the host holds for each. A
--                  worker that is asked for is taken to start.
--   Protocol       the hand-over of one channel, as steps of the host's thread, the sandbox's thread and
--                  the watcher (src/pbox/pbox_internal.h, src/pbox/pbox.c, src/pbox/pbox_sandbox.c), with
--                  requests that a callback's host function makes.
--   Lifecycle      `pbox_create` and `pbox_destroy` (src/pbox/pbox.c): what each path acquires and
--                  gives back. Lives has whole lives of a box's threads.
--   Identity       `pbox_mmap_identity` and `pbox_munmap_identity` (src/pbox/pbox.c): what is mapped
--                  and open on either side.
--   Symbol         `pbox_dlsym` and `pbox_dlsym_control` (src/pbox/pbox.c).
--   Copy           `pbox_copy_to` and `pbox_copy_from` (src/pbox/pbox.c). The sandbox's memory is a
--                  byte for each address.
--   Wrappers       the members of src/pbox/pbox.c that are one call of the sandbox's libc:
--                  `pbox_mmap_box_fd`, `pbox_mmap`, `pbox_munmap`, `pbox_malloc`, `pbox_calloc`,
--                  `pbox_realloc`, `pbox_free`.
--   Front          include/sbox/sbox.hh and process.hh: C++ types as data (Types), what they cross the
--                  channel as (Crossing), which of them a sandboxed function may have (Check), the
--                  conversion of arguments and results (Convert, Cached, Typed, Returns),
--                  `Sandbox::call` and `FnHandle` (Call), memory and checked pointers (Pointers, Memory),
--                  strings (Strings), arrays (Arrays), callbacks (Callback), call contexts (Context,
--                  with memory as a byte for each address), and the sandbox a thread is in (Current).
--                  Front.Delivered, Front.Round and Front.Registered join it to Callback and to the
--                  sandbox's side.
--   Call.Served    `pbox_call` on a sandbox that runs what it is asked for.
--   Passthrough    include/sbox/passthrough.hh: the backend without a sandbox.
--   Lfi            include/sbox/lfi.hh and src/sbox_lfi.cc: registers and the stack of a call (Registers,
--                  Stage), the engine all sandboxes share (Engine), stack contexts (Stack), the symbol
--                  cache (Names) and the identity memory (Idmem).
--   Tests          runs on concrete inputs.
--
-- Bounds and fuel: the inner loop of the address search runs on one round of fuel more than the
-- 2^24 steps of 64KB in its window, the copying loops on one round for each byte, and
-- the reading of /proc/PID/maps on one for each character. size_t and uintptr_t are numbers below
-- 2^64, and each sum that can wrap is written with its remainder. A failed assertion is `none`.
--
-- Parameters: the assembly that makes a call, the table of closure stubs, the dynamic linker,
-- realloc, sendmsg and recvmsg, the sandbox's close and memcpy, `pbox_mmap_identity`; the LFI runtime
-- and what it reports; malloc; the code of the host's functions, by address; and the conversions of
-- C++ between types that are not both integers.
--
-- Not modelled: the start of the sandbox's process and of its threads, which is system calls and
-- assembly, and of the LFI backend the mapping of memory and the flags it takes.
pub mod Prelude
pub mod Dyfn
pub mod Channel
pub mod Sandbox
pub mod Call
pub mod FdCache
pub mod Send
pub mod Idmem
pub mod Procmaps
pub mod Seccomp
pub mod Callback
pub mod Copy
pub mod Symbol
pub mod Threads
pub mod Lifecycle
pub mod Protocol
pub mod Identity
pub mod Wrappers
pub mod Front
pub mod Passthrough
pub mod Lfi
pub mod Tests
