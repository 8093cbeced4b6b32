-- ===== src/Call/Result.antt =====
-- A whole call: the sandbox runs the function on the host's arguments, and the host gets its result.
use sbox.Prelude.{
  ℕ, ◌≤◌, ◌≡◌, refl, ◌∙◌, List, some, length, take, arith, Option, none, Bool, if◌then◌else◌, zero,
  suc, ◌+◌, ap,
}
use sbox.Dyfn.Types.{PBoxType, code, of_code, pbox_type_size, IsNamed, dyfn_type_size-of_code}
use sbox.Dyfn.Call.{Arch, DyfnCallArgs, DyfnCallResult, dyfn_store_result}
use sbox.Dyfn.Store.{IsResult, result_bytes, dyfn_store_result_lem, length-dyfn_store_result}
use sbox.Channel.{Channel, State, max_args}
use sbox.Channel.Pack.{IsShaped}
use sbox.Call.{HostArg, call_on_channel, pbox_call}
use sbox.Call.Packing.{Ready}
use sbox.Call.Deliver.{
  packed-IsShaped, Delivered, delivered_call, packed_channel, prepare_call-eq, ffi_registers-eq,
  delivered_call-Delivered, ret_type-packed, result_storage-packed,
}
use sbox.Sandbox.Ffi.{gather_args, ffi_registers, do_ffi_call}

-- The arguments do not depend on the channel's state.
gather_args-state :
    (ch : Channel) (s : State) (i n : ℕ)
    → gather_args (record ch { state = s }) i n ≡ gather_args ch i n
unfolding gather_args
gather_args-state ch s i zero = refl
gather_args-state ch s i (suc n) = rw (gather_args-state ch s (i + 1) n)

ffi_registers-state :
    (arch : Arch) (ch : Channel) (s : State)
    → ffi_registers arch (record ch { state = s }) ≡ ffi_registers arch ch
unfolding ffi_registers
ffi_registers-state arch ch s = rw (gather_args-state ch s 0 ch.nargs)

-- The sandbox's answer to a request whose registers are known.
do_ffi_call-eq :
    (arch : Arch) (dyfn_call : DyfnCallArgs → DyfnCallResult) (ch : Channel) (call : DyfnCallArgs)
    → ffi_registers arch ch ≡ some call
    → do_ffi_call arch dyfn_call ch
      ≡ some (record ch {
        result_storage = dyfn_store_result (dyfn_call call) (of_code ch.ret_type) ch.result_storage;
      })
unfolding do_ffi_call
do_ffi_call-eq arch dyfn_call ch call e = rw e

module _ (arch : Arch) (dyfn_call : DyfnCallArgs → DyfnCallResult) (ch : Channel)
    (shaped : IsShaped ch) (func_addr : ℕ) (ret_type : PBoxType) (args : List HostArg)
    (ready : Ready args) (few : length args ≤ max_args) where
  sent : Channel
  sent = packed_channel ch shaped func_addr ret_type args ready few

  made : DyfnCallArgs
  made = delivered_call ch shaped func_addr ret_type args ready few arch

  -- The channel when the host has taken the result.
  after : Channel
  unfolding sent made
  after = record sent {
    state = State.idle;
    result_storage = dyfn_store_result (dyfn_call made) (of_code sent.ret_type) sent.result_storage;
  }

  call_on_channel-eq :
      call_on_channel (do_ffi_call arch dyfn_call) ch func_addr ret_type args
      ≡ some (after, take (pbox_type_size ret_type) after.result_storage)
  unfolding call_on_channel after
  call_on_channel-eq = rw (
    prepare_call-eq ch shaped func_addr ret_type args ready few,
    do_ffi_call-eq arch dyfn_call (record sent { state = State.request }) made
        (ffi_registers-state arch sent State.request
          ∙ ffi_registers-eq ch shaped func_addr ret_type args ready few arch),
  )

  after_bytes :
      IsNamed ret_type
      → IsResult (dyfn_call made)
      → take (pbox_type_size ret_type) after.result_storage
        ≡ result_bytes (of_code (code ret_type)) (dyfn_call made)
  unfolding after
  after_bytes named result =
      rw
        (
          ← dyfn_type_size-of_code ret_type named,
          ret_type-packed ch shaped func_addr ret_type args ready few,
          result_storage-packed ch shaped func_addr ret_type args ready few,
        )
        (dyfn_store_result_lem (dyfn_call made) (of_code (code ret_type)) ch.result_storage result
          (omega (arith, shaped.result_len)))

  after-IsShaped : IsResult (dyfn_call made) → IsShaped after
  unfolding after made sent
  after-IsShaped result =
      let shaped' = packed-IsShaped ch shaped func_addr ret_type args ready few in
      record {
        args_len = shaped'.args_len;
        storage_len = shaped'.storage_len;
        types_len = shaped'.types_len;
        result_len =
            length-dyfn_store_result (dyfn_call made) (of_code sent.ret_type) sent.result_storage
              result (omega (arith, shaped'.result_len))
            ∙ shaped'.result_len;
      }

-- What is taken from a call on the thread's channel.
pbox_call-some :
    (serve : Channel → Option Channel) (ch ch' : Channel) (func_addr : ℕ) (ret_type : PBoxType)
    (args : List HostArg) (has_ret : Bool) (bytes : List ℕ)
    → call_on_channel serve ch func_addr ret_type args ≡ some (ch', bytes)
    → pbox_call serve (some ch) func_addr ret_type args has_ret
      ≡ some (some ch', if has_ret then some bytes else none)
pbox_call-some serve ch ch' func_addr ret_type args has_ret bytes e = unfold pbox_call in rw e

-- On a channel in shape, a call of at most ten arguments, each of a named type and backed by
-- enough memory, with a result of a named type, fails no assertion on either side. The sandbox
-- calls the function with every argument in the register or stack slot of its calling convention,
-- and `ret`, unless it is NULL, gets the bytes of that call's result. The channel is idle
-- afterwards, and in shape for the next call.
pub pbox_call-returns :
    (arch : Arch) (dyfn_call : DyfnCallArgs → DyfnCallResult) (ch : Channel) (func_addr : ℕ)
    (ret_type : PBoxType) (args : List HostArg) (has_ret : Bool)
    → ((call : DyfnCallArgs) → IsResult (dyfn_call call))
    → IsShaped ch
    → IsNamed ret_type
    → Ready args
    → length args ≤ max_args
    → (call : DyfnCallArgs) × Delivered arch func_addr args call
      × ((ch' : Channel) × (pbox_call
              (do_ffi_call arch dyfn_call)
              (some ch)
              func_addr
              ret_type
              args
              has_ret
            ≡ some (
              some ch',
              if has_ret
                  then some (result_bytes (of_code (code ret_type)) (dyfn_call call))
                  else none,
            ))
          × (ch'.state ≡ State.idle)
          × IsShaped ch')
unfolding after
pbox_call-returns arch dyfn_call ch func_addr ret_type args has_ret results shaped named ready few =
    let call = delivered_call ch shaped func_addr ret_type args ready few arch in
    let ch' = after arch dyfn_call ch shaped func_addr ret_type args ready few in
    (
      call,
      delivered_call-Delivered ch shaped func_addr ret_type args ready few arch,
      (
        ch',
        pbox_call-some (do_ffi_call arch dyfn_call) ch ch' func_addr ret_type args has_ret _ (
            call_on_channel-eq arch dyfn_call ch shaped func_addr ret_type args ready few
            ∙ ap (λ (b : List ℕ). some (ch', b))
                (after_bytes arch dyfn_call ch shaped func_addr ret_type args ready few named
                  (results call))),
        refl,
        after-IsShaped arch dyfn_call ch shaped func_addr ret_type args ready few (results call),
      ),
    )
