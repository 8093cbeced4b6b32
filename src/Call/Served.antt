-- ===== src/Call/Served.antt =====
-- A call whose request the whole dispatch loop serves (src/pbox/pbox_sandbox.c): the switch takes it
-- to `do_ffi_call`.
use sbox.Prelude.{ℕ, take, ◌≤◌, ◌≡◌, refl, ◌∙◌, List, Bool, Option, some, none, length, ◌>>=◌, ap}
use sbox.Dyfn.Types.{PBoxType, pbox_type_size}
use sbox.Dyfn.Closure.{Closures}
use sbox.Channel.{Channel, State, Request, max_args}
use sbox.Channel.Pack.{IsShaped}
use sbox.Call.{HostArg, call_on_channel, pbox_call}
use sbox.Call.Packing.{Ready}
use sbox.Call.Deliver.{packed_channel, prepare_call-eq, request_type-packed}
use sbox.Sandbox.Ffi.{do_ffi_call}
use sbox.Sandbox.Dispatch.{Environment, Served, serve, dispatch_round, served_channel}

-- The loop's answer, given the one of `do_ffi_call`.
as_response : Option Channel → Option Channel
as_response none = none
as_response (some ch) = some (record ch { state = State.response })

rounds :
    (m : Option Channel) (closures : Closures)
    → ((m >>= λ ch. some (record { channel = ch; closures = closures; spawned = none }))
        >>= (λ (s : Served).
            some (record s { channel = record (s.channel) { state = State.response } }))
        >>= (λ (s : Served). some s.channel))
      ≡ as_response m
unfolding as_response
rounds none closures = refl
rounds (some ch) closures = refl

served :
    (env : Environment) (is_control : Bool) (closures : Closures) (ch : Channel)
    → ch.request_type ≡ Request.call
    → served_channel env is_control closures ch
      ≡ as_response (do_ffi_call env.arch env.dyfn_call ch)
unfolding served_channel dispatch_round serve as_response
served env is_control closures ch e =
    ap
      (λ (r : Request).
        serve env is_control r ch closures
        >>= (λ (s : Served).
            some (record s { channel = record (s.channel) { state = State.response } }))
        >>= (λ (s : Served). some s.channel))
      e
    ∙ rounds (do_ffi_call env.arch env.dyfn_call ch) closures

abbrev take_result : PBoxType → Channel → Option (Channel × List ℕ)
take_result ret_type ch =
    some (record ch { state = State.idle }, take (pbox_type_size ret_type) ch.result_storage)

-- The host does not see the state in which it finds the answer.
taken :
    (m : Option Channel) (ret_type : PBoxType)
    → (as_response m >>= take_result ret_type) ≡ (m >>= take_result ret_type)
unfolding as_response
taken none ret_type = refl
taken (some ch) ret_type = refl

module _ (env : Environment) (is_control : Bool) (closures : Closures) (ch : Channel)
    (shaped : IsShaped ch) (func_addr : ℕ) (ret_type : PBoxType) (args : List HostArg)
    (ready : Ready args) (few : length args ≤ max_args) where
  call_on_channel-served :
      call_on_channel (served_channel env is_control closures) ch func_addr ret_type args
      ≡ call_on_channel (do_ffi_call env.arch env.dyfn_call) ch func_addr ret_type args
  unfolding call_on_channel
  call_on_channel-served =
      rw
        (
          prepare_call-eq ch shaped func_addr ret_type args ready few,
          served env is_control closures
              (record (packed_channel ch shaped func_addr ret_type args ready few) {
                state = State.request;
              })
              (request_type-packed ch shaped func_addr ret_type args ready few),
        )
        (taken _ ret_type)

  -- A call that the dispatch loop serves is a call that `do_ffi_call` serves.
  pub pbox_call-served :
      (has_ret : Bool)
      → pbox_call (served_channel env is_control closures) (some ch) func_addr ret_type args has_ret
        ≡ pbox_call (do_ffi_call env.arch env.dyfn_call) (some ch) func_addr ret_type args has_ret
  unfolding pbox_call
  pbox_call-served has_ret = rw call_on_channel-served
