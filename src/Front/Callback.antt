-- ===== src/Front/Callback.antt =====
-- Callbacks of the process backend: `callback_dispatch` and `register_callback` of
-- include/sbox/process.hh, the thunks of include/sbox/sbox.hh, and the host's round for a callback in
-- `pbox_wait_for_response` (src/pbox/pbox.c).
use sbox.Prelude.{
  ℕ, ◌+◌, List, [], ◌∷◌, Option, some, none, if◌then◌else◌, leb, length, take, map, get_or,
  replicate, read_at, memcpy_to, ◌>>=◌, ◌>>◌, check,
}
use sbox.Dyfn.Types.{PBoxType}
use sbox.Channel.{Channel, State, max_args}
use sbox.Callback.{
  Registry, Registered, Outcome, ignored, killed, called, dispatch_callback, register_callback,
}
use sbox.Front.Types.{CppType, pointer, sbox_ptr, size_of, pbox_type_v}
use sbox.Front.Call.{Signature, fill_arg_types, array_size, is_void}

abbrev pub or_zero : Option ℕ → ℕ
or_zero none = 0
or_zero (some n) = n

-- `sizeof`, 0 for void.
unfoldable pub bytes_of : CppType → ℕ
bytes_of T = or_zero (size_of T)

unfoldable pub read_callback_arg : ℕ → CppType → List ℕ → List ℕ → List ℕ
read_callback_arg i T arg_storage arg_offsets =
    read_at arg_storage (get_or arg_offsets i 0) (bytes_of T)

-- `read_callback_arg<Is, Args>(arg_storage, arg_offsets)...`
unfoldable pub read_callback_args : List CppType → ℕ → List ℕ → List ℕ → List (List ℕ)
read_callback_args [] i arg_storage arg_offsets = []
read_callback_args (T ∷ params) i arg_storage arg_offsets =
    read_callback_arg i T arg_storage arg_offsets
    ∷ read_callback_args params (i + 1) arg_storage arg_offsets

-- `fn` is the function at `func_ptr`, on the values of its arguments. The result is what is left in
-- `result_storage`.
unfoldable pub callback_dispatch :
    Signature → (List (List ℕ) → List ℕ) → List ℕ → List ℕ → List ℕ → List ℕ
callback_dispatch sig fn arg_storage arg_offsets result_storage =
    let value = fn (read_callback_args sig.params 0 arg_storage arg_offsets) in
    if is_void sig.ret then result_storage else memcpy_to result_storage 0 value (bytes_of sig.ret)

-- What `dispatch` leaves in the channel; `run` is the host's code, by the addresses of a dispatcher
-- and of a function.
unfoldable pub deliver : (ℕ → ℕ → List ℕ → List ℕ → List ℕ → List ℕ) → Channel → Outcome → Channel
deliver run ch ignored = ch
deliver run ch killed = ch
deliver run ch (called func_ptr dispatch arg_offsets) = record ch {
  result_storage = run dispatch func_ptr ch.arg_storage arg_offsets ch.result_storage;
}

-- The round of `pbox_wait_for_response` in state CALLBACK.
unfoldable pub answer_callback :
    (ℕ → ℕ → List ℕ → List ℕ → List ℕ → List ℕ) → Registry → Channel → Channel
answer_callback run r ch = record (deliver run ch (dispatch_callback r ch.callback_id ch)) {
  state = State.request;
}

-- `Sandbox<Process>::register_callback`; `fn` and `dispatch` are the addresses of the function and of
-- its `callback_dispatch`.
unfoldable pub register_cpp_callback :
    (Channel → Channel)
    → Option Channel
    → Registry
    → Signature
    → (fn dispatch : ℕ) → Option Registered
register_cpp_callback serve channel r sig fn dispatch = do
  let nargs = length sig.params
  check (leb nargs max_args)
  types ← fill_arg_types sig.params 0 (replicate (array_size nargs) PBoxType.void)
  ret ← pbox_type_v sig.ret
  register_callback serve channel r
      (record { host_func = fn; dispatch = dispatch; ret_type = ret; arg_types = take nargs types })

-- `unwrap_sbox_type_t`
unfoldable pub unwrap_sbox_type : CppType → CppType
unwrap_sbox_type (sbox_ptr cv T) = pointer cv T
unwrap_sbox_type T = T

-- A callback: a function of its arguments, or one that takes the sandbox, as an address, first.
pub data Handler : Type 0 where
  plain : (List (List ℕ) → List ℕ) → Handler
  with_sandbox : (ℕ → List (List ℕ) → List ℕ) → Handler

-- `callback_thunk_impl::call`: the arguments are wrapped, and the sandbox is the thread's current one.
unfoldable pub callback_thunk : Handler → ℕ → List (List ℕ) → List ℕ
callback_thunk (plain fn) tls_current_sandbox raw_args = fn raw_args
callback_thunk (with_sandbox fn) tls_current_sandbox raw_args = fn tls_current_sandbox raw_args

-- The signature that the sandbox sees, `c_type`.
unfoldable pub thunk_type : Signature → Signature
thunk_type sig = record { ret = sig.ret; params = map unwrap_sbox_type sig.params }
