-- ===== src/Channel.antt =====
-- The shared channel of src/pbox/pbox_internal.h: `struct PBoxChannel`, its states and requests.
pub mod Pack
use sbox.Prelude.{ℕ, ◌+◌, List, set, memcpy_to, ℤ}

-- PBOX_STATE_*. `unknown` is an int that no host or sandbox code of this repository stores.
pub data State : Type 0 where
  idle request response exit dead callback : State
  unknown : ℕ → State

-- PBOX_REQ_*
pub data Request : Type 0 where
  dlsym call recv_fd spawn_worker create_closure : Request
  unknown : ℕ → Request

abbrev pub max_args : ℕ
max_args = 10

abbrev pub max_symbol_name : ℕ
max_symbol_name = 256

abbrev pub arg_storage_size : ℕ
arg_storage_size = 1024

abbrev pub result_storage_size : ℕ
result_storage_size = 32

abbrev pub mem_storage_size : ℕ
mem_storage_size = 4096

-- `struct PBoxChannel`; an enumeration that crosses it does so as its number.
pub record Channel : Type 0 where
  pub state : State
  pub sandbox_channel_addr : ℕ
  pub request_type : Request
  pub func_addr : ℕ
  pub nargs : ℕ
  pub ret_type : ℕ
  pub arg_types : List ℕ
  pub args : List ℕ
  pub symbol_name : List ℕ
  pub symbol_addr : ℕ
  pub received_fd : ℤ
  pub worker_shm_fd : ℤ
  pub closure_callback_id : ℤ
  pub closure_nargs : ℕ
  pub closure_ret_type : ℕ
  pub closure_arg_types : List ℕ
  pub closure_addr : ℕ
  pub callback_id : ℤ
  pub arg_storage : List ℕ
  pub result_storage : List ℕ
  pub mem_storage : List ℕ

-- One round of either packing loop: `args[i] = offset`, and the argument's bytes at that offset.
unfoldable pub put_arg : Channel → ℕ → ℕ → List ℕ → ℕ → Channel
put_arg ch i offset v size = record ch {
  args = set ch.args i offset;
  arg_storage = memcpy_to ch.arg_storage offset v size;
}
