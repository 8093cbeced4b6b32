-- ===== src/Call.antt =====
-- `pbox_call` of src/pbox/pbox.c: the host's side of a call into the sandbox.
pub mod Packing
pub mod Deliver
pub mod Result
pub mod Served
use sbox.Prelude.{
  Bool, if◌then◌else◌, ℕ, ◌+◌, List, [], ◌∷◌, Option, none, some, leb, length, take, set, ◌>>=◌,
  ◌>>◌, check,
}
use sbox.Dyfn.Types.{PBoxType, code, pbox_type_size}
use sbox.Channel.{Channel, State, Request, put_arg, max_args, arg_storage_size}

-- A host argument: its type, and the memory that `args[i]` points to.
abbrev pub HostArg : Type 0
HostArg = PBoxType × List ℕ

-- The packing loop; `none` is the failed `assert`.
unfoldable pub pack_args : Channel → ℕ → ℕ → List HostArg → Option Channel
pack_args ch i offset [] = some ch
pack_args ch i offset ((t, v) ∷ rest) = do
  let size = pbox_type_size t
  let typed = record ch { arg_types = set ch.arg_types i (code t) }
  check (leb (offset + size) arg_storage_size)
  pack_args (put_arg typed i offset v size) (i + 1) (offset + size) rest

-- The request that `pbox_call` writes before it packs the arguments.
abbrev pub call_request : Channel → ℕ → PBoxType → ℕ → Channel
call_request ch func_addr ret_type nargs = record ch {
  request_type = Request.call;
  func_addr = func_addr;
  nargs = nargs;
  ret_type = code ret_type;
}

-- Up to the hand-over of the request.
unfoldable pub prepare_call : Channel → ℕ → PBoxType → List HostArg → Option Channel
unfolding pack_args
prepare_call ch func_addr ret_type args = do
  check (leb (length args) max_args)
  pack_args (call_request ch func_addr ret_type (length args)) 0 0 args

-- On the thread's channel. `serve` is all that happens between the request and the end of the wait:
-- the sandbox's work, and the callbacks that it makes. The bytes are what `ret` gets.
unfoldable pub call_on_channel :
    (Channel → Option Channel) → Channel → ℕ → PBoxType → List HostArg → Option (Channel × List ℕ)
unfolding prepare_call
call_on_channel serve ch func_addr ret_type args = do
  request ← prepare_call ch func_addr ret_type args
  answer ← serve (record request { state = State.request })
  some (record answer { state = State.idle }, take (pbox_type_size ret_type) answer.result_storage)

-- `channel` is the answer of `get_or_create_channel`, and `has_ret` says that `ret` is not NULL. The
-- result is the channel, and the bytes that are written to `ret` if any are.
unfoldable pub pbox_call :
    (Channel → Option Channel)
    → Option Channel
    → ℕ
    → PBoxType
    → List HostArg
    → Bool
    → Option (Option Channel × Option (List ℕ))
pbox_call serve none func_addr ret_type args has_ret = some (none, none)
pbox_call serve (some ch) func_addr ret_type args has_ret = do
  (ch', bytes) ← call_on_channel serve ch func_addr ret_type args
  some (some ch', if has_ret then some bytes else none)
