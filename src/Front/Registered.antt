-- ===== src/Front/Registered.antt =====
-- A callback that is registered from C++ and then called in the sandbox (include/sbox/process.hh,
-- src/pbox/pbox.c, src/pbox/pbox_sandbox.c, src/dyfn/dyfn.c).
use sbox.Prelude.{
  ℕ, ◌≤◌, ◌<◌, ◌≡◌, ap, sym, ◌∙◌, List, Bool, false, some, length, take, map, get_or, arith,
}
use sbox.Dyfn.Types.{PBoxType}
use sbox.Dyfn.Call.{Arg}
use sbox.Dyfn.Place.{Placed, Backed}
use sbox.Dyfn.Closure
use sbox.Dyfn.Closure.{ClosureInfo, Closures, no_info, closure_alloc, max_closures, fill_info}
use sbox.Channel.{Channel, State, max_args}
use sbox.Channel.Pack.{IsShaped}
use sbox.Sandbox.Extract.{SavedRegs}
use sbox.Sandbox.Recover.{saved_word, type_of}
use sbox.Sandbox.Dispatch.{ClosureResult, closure_dispatch, Environment, Served, dispatch_round}
use sbox.Callback.{
  Callback, fill_callback, Registry, Registered, max_callbacks, closure_request, publish,
}
use sbox.Callback.Register
use sbox.Callback.Register.{registered_slot}
use sbox.Front.Types.{pbox_type_v}
use sbox.Front.Call.{Signature, is_void}
use sbox.Front.Arrays.{AreMapped}
use sbox.Front.Callback.{bytes_of, callback_dispatch, answer_callback, register_cpp_callback}
use sbox.Front.Delivered.{value_of, register}
use sbox.Front.Round.{Code, callback_round}
use sbox.Front.Registration.{
  slot_types, same_length, AreMapped-Matches, dispatch_round-closure, registered-eq, at_slot,
  at_count, stub_returned, crossing, entry_of, sandbox_side, closure_made,
}

-- A C++ function with a result is registered while the host and the sandbox have free slots, from a
-- thread with a channel; its parameters cross the channel as `ts`. The sandbox makes the closure,
-- whose stub is the pointer that the registration returns. Then sandbox code calls that stub, on a
-- channel in shape, with at most ten arguments of those types where its calling convention wants
-- them: the C++ function is called with the bytes of each argument, and when the stub returns, the
-- result register of the return type's class begins with the value that the function returned.
pub registered_round :
    (env : Environment) (is_control : Bool) (closures : Closures) (reg_ch ch : Channel)
    (r : Registry) (sig : Signature) (ts : List PBoxType) (ret : PBoxType) (fn dispatch : ℕ)
    (run : Code) (function : List (List ℕ) → List ℕ) (saved : SavedRegs) (args : List Arg)
    (result : ClosureResult)
    → Register.IsValid r
    → r.count < max_callbacks
    → Closure.IsValid closures
    → closures.count < max_closures
    → AreMapped sig.params ts
    → length ts ≤ max_args
    → pbox_type_v sig.ret ≡ some ret
    → is_void sig.ret ≡ false
    → run dispatch fn ≡ callback_dispatch sig function
    → saved.stub_index ≡ closures.count
    → IsShaped ch
    → Backed args
    → map type_of args ≡ map crossing ts
    → Placed env.arch 0 0 args (saved_word saved)
    → length (function (map value_of args)) ≡ bytes_of sig.ret
    → length result.int_val ≡ 8
    → length result.float_val ≡ 8
    → (done : Registered) × (served : Served) × (dispatch_round env is_control
          (closure_request reg_ch r.count (entry_of fn dispatch ret ts))
          closures
        ≡ some served)
      × (register_cpp_callback
            (sandbox_side env is_control closures)
            (some reg_ch)
            r
            sig
            fn
            dispatch
          ≡ some done)
      × (done.closure ≡ env.stubs closures.count)
      × (ch' : Channel) × (result' : ClosureResult) × (closure_dispatch env.arch served.closures
            (answer_callback run done.registry)
            saved
            (some ch)
            result
          ≡ (some ch', result'))
      × (ch'.state ≡ State.request)
      × (take (bytes_of sig.ret) (register (crossing ret) result') ≡ function (map value_of args))
unfolding publish fill_callback
registered_round env is_control closures reg_ch ch r sig ts ret fn dispatch run function saved args
      result valid free slots free_slot mapped few returned returns runs at_stub shaped backed types
      placed len int_len float_len =
    let entry = entry_of fn dispatch ret ts in
    let side = sandbox_side env is_control closures in
    let done = publish side (some reg_ch) r entry in
    let served = closure_made env closures reg_ch r.count entry in
    let round = dispatch_round-closure env is_control closures reg_ch r.count entry free_slot in
    let info = get_or (served.closures.info) (saved.stub_index) no_info in
    let old = get_or closures.info closures.count no_info in
    let slot_eq =
      at_slot closures reg_ch r.count ret ts (saved.stub_index) slots free_slot at_stub in
    let cb_eq = at_count side reg_ch r entry valid free in
    let (ch', result', rounded, requested, value) =
      callback_round env.arch (served.closures) saved ch (done.registry) args r.count run sig
        function ret result shaped backed (omega (arith, same_length args ts types)) placed
        (ap (λ (c : ClosureInfo). c.callback_id) slot_eq)
        (ap (λ (c : ClosureInfo). take c.nargs c.arg_types) slot_eq ∙ slot_types ts _ _ ∙ sym types)
        (omega arith) (ap (λ (c : Callback). c.nargs) cb_eq ∙ same_length args ts types)
        (ap (λ (c : Callback). run c.dispatch c.func_ptr) cb_eq ∙ runs)
        (AreMapped-Matches sig.params ts args mapped types) returned
        (ap (λ (c : ClosureInfo). c.ret_type) slot_eq) returns len int_len float_len in
    (
      done,
      served,
      round,
      registered-eq side reg_ch r sig ts ret fn dispatch free mapped few returned,
      stub_returned env is_control closures reg_ch r entry free_slot,
      ch',
      result',
      rounded,
      requested,
      value,
    )
