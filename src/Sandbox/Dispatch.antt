-- ===== src/Sandbox/Dispatch.antt =====
-- `dyfn_closure_dispatch`, `recv_fd` and the request switch of `dispatch_loop`
-- (src/pbox/pbox_sandbox.c).
use sbox.Prelude.{
  ℕ, ◌-◌, List, [], ◌∷◌, Bool, Option, none, some, if◌then◌else◌, ◌==◌, not, ◌||◌, set, get_or,
  take, memcpy_to, ℤ, minus_one, ◌>>=◌, map,
}
use sbox.Dyfn.Types.{DyfnType, DyfnClass, of_code, dyfn_type_size, dyfn_classify}
use sbox.Dyfn.Call.{Arch, Word, DyfnCallArgs, DyfnCallResult}
use sbox.Dyfn.Closure.{Closures, no_info, closure_alloc}
use sbox.Channel.{Channel, State, Request, max_symbol_name}
use sbox.Sandbox.Ffi.{do_ffi_call}
use sbox.Sandbox.Extract.{SavedRegs, extract_args}
use sbox.Sandbox.Recover.{at_start}

-- `struct DyfnClosureResult`
pub record ClosureResult : Type 0 where
  pub int_val : Word
  pub float_val : Word
  pub ret_class : DyfnClass

-- The callback's request, as the host finds it.
unfoldable pub callback_request : Arch → Closures → SavedRegs → Channel → Channel
callback_request arch closures saved ch =
    let info = get_or closures.info saved.stub_index no_info in
    let named = record ch { callback_id = info.callback_id; nargs = info.nargs } in
    record (extract_args arch saved at_start named 0 0 (take info.nargs info.arg_types)) {
      state = State.callback;
    }

-- The result's bytes, by the class of the callback's return type.
unfoldable pub closure_result : DyfnType → List ℕ → ClosureResult → ClosureResult
closure_result ret_type storage result =
    let ret_class = dyfn_classify ret_type in
    let ret_size = dyfn_type_size ret_type in
    let as_float = record result {
      float_val = memcpy_to result.float_val 0 storage ret_size;
      ret_class = ret_class;
    } in
    elim ret_class [
      | DyfnClass.float ↦ as_float
      | DyfnClass.double ↦ as_float
      | DyfnClass.void ↦ record result { ret_class = DyfnClass.void }
      | DyfnClass.int ↦ record result {
        int_val = memcpy_to result.int_val 0 storage ret_size;
        ret_class = DyfnClass.int;
      }
    ]

-- `channel` is the thread's channel, and `host` all that the host does until the state is REQUEST
-- again.
unfoldable pub closure_dispatch :
    Arch
    → Closures
    → (Channel → Channel)
    → SavedRegs
    → Option Channel
    → ClosureResult
    → Option Channel × ClosureResult
closure_dispatch arch closures host saved none result = (none, result)
closure_dispatch arch closures host saved (some ch) result =
    let info = get_or closures.info saved.stub_index no_info in
    let answer = host (callback_request arch closures saved ch) in
    (some answer, closure_result info.ret_type answer.result_storage result)

-- What `recvmsg` brings: nothing, or a message with perhaps a control header.
pub data Message : Type 0 where
  failed no_control : Message
  control : (level kind : ℕ) (fd : ℤ) → Message

-- SOL_SOCKET and SCM_RIGHTS are 1.
unfoldable pub recv_fd : Message → ℤ
recv_fd failed = minus_one
recv_fd no_control = minus_one
recv_fd (control level kind fd) = if not (level == 1) || not (kind == 1) then minus_one else fd

-- What the dispatch loop takes from its process: the dynamic linker, the calls, the socket and the
-- stub table.
pub record Environment : Type 0 where
  pub arch : Arch
  pub dlsym : List ℕ → ℕ
  pub dyfn_call : DyfnCallArgs → DyfnCallResult
  pub message : Message
  pub stubs : ℕ → ℕ

-- The bytes of a C string, up to its NUL.
unfoldable pub c_string : List ℕ → List ℕ
c_string [] = []
c_string (c ∷ rest) = if c == 0 then [] else c ∷ c_string rest

-- What serving a request leaves behind; `spawned` is the descriptor of a new worker's channel.
pub record Served : Type 0 where
  pub channel : Channel
  pub closures : Closures
  pub spawned : Option ℤ

abbrev answer : Channel → Closures → Served
answer ch closures = record { channel = ch; closures = closures; spawned = none }

unfoldable pub serve_dlsym : (List ℕ → ℕ) → Channel → Channel
serve_dlsym dlsym ch =
    let name = set ch.symbol_name (max_symbol_name - 1) 0 in
    record ch { symbol_name = name; symbol_addr = dlsym (c_string name) }

-- The switch; `none` is a failed assertion.
unfoldable pub serve : Environment → Bool → Request → Channel → Closures → Option Served
serve env is_control Request.dlsym ch closures = some (answer (serve_dlsym env.dlsym ch) closures)
serve env is_control Request.call ch closures = do
  ch' ← do_ffi_call env.arch env.dyfn_call ch
  some (answer ch' closures)
serve env is_control Request.recv_fd ch closures =
    some (answer (record ch { received_fd = recv_fd env.message }) closures)
serve env is_control Request.spawn_worker ch closures = some (record {
  channel = ch;
  closures = closures;
  spawned = if is_control then some ch.worker_shm_fd else none;
})
serve env is_control Request.create_closure ch closures =
    let (stub, closures') =
      closure_alloc env.stubs closures ch.closure_callback_id (of_code ch.closure_ret_type)
        ch.closure_nargs (map of_code ch.closure_arg_types) in
    some (answer (record ch { closure_addr = stub }) closures')
serve env is_control (Request.unknown n) ch closures = none

-- One round of `dispatch_loop` on a channel in state REQUEST.
unfoldable pub dispatch_round : Environment → Bool → Channel → Closures → Option Served
dispatch_round env is_control ch closures = do
  served ← serve env is_control ch.request_type ch closures
  some (record served { channel = record (served.channel) { state = State.response } })

-- The channel that a round leaves.
unfoldable pub served_channel : Environment → Bool → Closures → Channel → Option Channel
served_channel env is_control closures ch = do
  served ← dispatch_round env is_control ch closures
  some served.channel
