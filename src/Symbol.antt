-- ===== src/Symbol.antt =====
-- `pbox_dlsym` and `pbox_dlsym_control` of src/pbox/pbox.c.
pub mod Lookup
use sbox.Prelude.{ℕ, ◌-◌, List, ◌++◌, Option, none, some, set, take, drop, replicate, ◌>>=◌}
use sbox.Channel.{Channel, State, Request, max_symbol_name}

-- strncpy(dst, s, n) of a string without its NUL: at most `n` bytes, padded with NULs up to `n`.
unfoldable pub strncpy : List ℕ → List ℕ → ℕ → List ℕ
strncpy dst s n = take n (s ++ replicate n 0) ++ drop n dst

-- The request for a symbol.
unfoldable pub dlsym_request : Channel → List ℕ → Channel
dlsym_request ch symbol = record ch {
  request_type = Request.dlsym;
  symbol_name = set (strncpy ch.symbol_name symbol (max_symbol_name - 1)) (max_symbol_name - 1) 0;
  state = State.request;
}

-- On the control channel. `serve` is what the sandbox does until the state is RESPONSE.
unfoldable pub dlsym_control : (Channel → Option Channel) → Channel → List ℕ → Option (Channel × ℕ)
dlsym_control serve ch symbol = do
  answer ← serve (dlsym_request ch symbol)
  some (record answer { state = State.idle }, answer.symbol_addr)

-- On the thread's channel, `channel` being the answer of `get_or_create_channel`; NULL is 0.
unfoldable pub pbox_dlsym :
    (Channel → Option Channel) → Option Channel → List ℕ → Option (Option Channel × ℕ)
pbox_dlsym serve none symbol = some (none, 0)
pbox_dlsym serve (some ch) symbol = do
  (ch', addr) ← dlsym_control serve ch symbol
  some (some ch', addr)
