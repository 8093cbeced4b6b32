-- ===== src/Send.antt =====
-- `pbox_send_fd_on_channel`, `pbox_send_fd` and `pbox_close` of src/pbox/pbox.c.
pub mod World
pub mod Laws
pub mod Race
use sbox.Prelude.{
  ℕ, Bool, true, false, Option, none, some, if◌then◌else◌, ℤ, pos, negsuc, minus_one, is_neg, eq_ℤ,
  ◌||◌, ◌==◌,
}
use sbox.Channel.{Channel, State, Request}
use sbox.FdCache.{FdCache, cache_fd, lookup_fd, uncache_fd}

-- `sendmsg` succeeds or not; `serve` is what the sandbox makes of the request to receive.
unfoldable pub send_fd_on_channel : Bool → (Channel → Channel) → Channel → ℤ × Channel
send_fd_on_channel sendmsg_ok serve ch =
    let answer = serve (record ch { request_type = Request.recv_fd; state = State.request }) in
    if sendmsg_ok
    then (answer.received_fd, record answer { state = State.idle })
    else (minus_one, ch)

-- What a call of `pbox_send_fd` leaves behind: the result, the cache, and the channel if it was
-- used.
pub record Sent : Type 0 where
  pub result : ℤ
  pub cache : FdCache
  pub channel : Option Channel

-- A descriptor that is not cached; `channel` is the answer of `get_or_create_channel`.
unfoldable pub send_uncached :
    (ℕ → Bool) → Bool → (Channel → Channel) → Option Channel → FdCache → ℕ → Sent
send_uncached realloc sendmsg_ok serve none c fd = record {
  result = minus_one;
  cache = c;
  channel = none;
}
send_uncached realloc sendmsg_ok serve (some ch) c fd =
    let (sandbox_fd, ch') = send_fd_on_channel sendmsg_ok serve ch in
    record {
      result = sandbox_fd;
      cache = if is_neg sandbox_fd then c else cache_fd realloc c fd sandbox_fd;
      channel = some ch';
    }

unfoldable pub send_fd :
    (ℕ → Bool) → Bool → (Channel → Channel) → Option Channel → FdCache → ℤ → Sent
send_fd realloc sendmsg_ok serve channel c (negsuc n) = record {
  result = negsuc n;
  cache = c;
  channel = none;
}
send_fd realloc sendmsg_ok serve channel c (pos fd) =
    let cached = lookup_fd c fd in
    if is_neg cached
    then send_uncached realloc sendmsg_ok serve channel c fd
    else record { result = cached; cache = c; channel = none }

-- `close_call` is the result of the sandbox's `close`.
unfoldable pub pbox_close : ℕ → (ℤ → ℤ) → FdCache → ℤ → ℤ × FdCache
pbox_close sym_close close_call c sandbox_fd =
    let result = close_call sandbox_fd in
    if sym_close == 0 || is_neg sandbox_fd
    then (minus_one, c)
    else (result, if eq_ℤ result (pos 0) then uncache_fd c sandbox_fd else c)
