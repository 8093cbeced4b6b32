-- ===== src/Callback.antt =====
-- The callback registry of src/pbox/pbox.c: `pbox_register_callback` and `pbox_dispatch_callback`.
pub mod Register
pub mod Guarded
pub mod Deliver
use sbox.Prelude.{
  ℕ, zero, suc, ◌+◌, List, [], ◌∷◌, ◌++◌, Bool, true, false, ◌||◌, Option, none, some, ltb, leb,
  if◌then◌else◌, length, get_or, set, take, drop, map, ℤ, pos, negsuc, ◌>>=◌, ◌>>◌, check,
}
use sbox.Dyfn.Types.{PBoxType, code}
use sbox.Channel.{Channel, State, Request, max_args, arg_storage_size}

-- PBOX_MAX_CALLBACKS
abbrev pub max_callbacks : ℕ
max_callbacks = 64

-- `struct PBoxCallback`; functions and the sandbox's closure are addresses.
pub record Callback : Type 0 where
  pub func_ptr : ℕ
  pub dispatch : ℕ
  pub ret_type : PBoxType
  pub nargs : ℕ
  pub arg_types : List PBoxType
  pub sandbox_closure : ℕ

pub record Registry : Type 0 where
  pub callbacks : List Callback
  pub count : ℕ

-- An unused slot.
abbrev pub no_callback : Callback
no_callback = record {
  func_ptr = 0;
  dispatch = 0;
  ret_type = PBoxType.void;
  nargs = 0;
  arg_types = [];
  sandbox_closure = 0;
}

-- The function that is registered, with its types.
pub record Entry : Type 0 where
  pub host_func : ℕ
  pub dispatch : ℕ
  pub ret_type : PBoxType
  pub arg_types : List PBoxType

-- The fields that are written before the slot is published; the types behind `nargs` stay.
unfoldable pub fill_callback : Callback → Entry → Callback
fill_callback old e =
    let nargs = length e.arg_types in
    record old {
      func_ptr = e.host_func;
      dispatch = e.dispatch;
      ret_type = e.ret_type;
      nargs = nargs;
      arg_types = e.arg_types ++ drop nargs old.arg_types;
    }

-- The request to make a closure.
unfoldable pub closure_request : Channel → ℕ → Entry → Channel
closure_request ch id e =
    let nargs = length e.arg_types in
    record ch {
      request_type = Request.create_closure;
      closure_callback_id = pos id;
      closure_ret_type = code e.ret_type;
      closure_nargs = nargs;
      closure_arg_types = map code e.arg_types ++ drop nargs ch.closure_arg_types;
      state = State.request;
    }

-- What a registration leaves behind: the pointer, NULL being 0, the registry, and the channel if it
-- was used.
pub record Registered : Type 0 where
  pub closure : ℕ
  pub registry : Registry
  pub channel : Option Channel

-- The slot is filled and the count raised before the sandbox is asked; without a channel the count is
-- lowered again. `serve` is what the sandbox does with the request.
unfoldable pub publish : (Channel → Channel) → Option Channel → Registry → Entry → Registered
publish serve none r e =
    let filled = fill_callback (get_or r.callbacks r.count no_callback) e in
    record {
      closure = 0;
      registry = record r { callbacks = set r.callbacks r.count filled };
      channel = none;
    }
publish serve (some ch) r e =
    let filled = fill_callback (get_or r.callbacks r.count no_callback) e in
    let served = serve (closure_request ch r.count e) in
    record {
      closure = served.closure_addr;
      registry = record {
        callbacks =
            set r.callbacks r.count (record filled { sandbox_closure = served.closure_addr });
        count = r.count + 1;
      };
      channel = some (record served { state = State.idle });
    }

-- `channel` is the answer of `get_or_create_channel`; `none` is the failed assertion.
unfoldable pub register_callback :
    (Channel → Channel) → Option Channel → Registry → Entry → Option Registered
register_callback serve channel r e =
    if leb max_callbacks r.count
    then some (record { closure = 0; registry = r; channel = none })
    else if leb (length e.arg_types) max_args
    then some (publish serve channel r e)
    else none

-- What the host does with a callback request.
pub data Outcome : Type 0 where
  ignored killed : Outcome
  called : (func_ptr dispatch : ℕ) (arg_offsets : List ℕ) → Outcome

-- The offsets of `n` arguments from index `i` on, each read once; `none` is a violation.
unfoldable pub read_offsets : Channel → ℕ → ℕ → Option (List ℕ)
read_offsets ch i zero = some []
read_offsets ch i (suc n) = do
  let offset = get_or ch.args i 0
  check (ltb offset arg_storage_size)
  rest ← read_offsets ch (i + 1) n
  some (offset ∷ rest)

unfoldable pub run_callback : Callback → Channel → Outcome
run_callback cb ch = elim (read_offsets ch 0 cb.nargs) [
  | none ↦ killed
  | some offsets ↦ called cb.func_ptr cb.dispatch offsets
]

unfoldable pub dispatch_callback : Registry → ℤ → Channel → Outcome
dispatch_callback r (negsuc n) ch = ignored
dispatch_callback r (pos id) ch =
    if leb r.count id then ignored else run_callback (get_or r.callbacks id no_callback) ch
