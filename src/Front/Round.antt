-- ===== src/Front/Round.antt =====
-- A callback's whole round: from the stub in the sandbox to a C++ function and back
-- (include/sbox/process.hh, src/pbox/pbox.c, src/pbox/pbox_sandbox.c).
use sbox.Prelude.{
  ap₂, ℕ, ◌≤◌, ◌<◌, ◌≡◌, refl, ap, sym, ◌∙◌, List, [], ◌∷◌, some, length, take, map, get_or, arith,
  pos, false, read_at-memcpy_to, length-memcpy_to,
}
use sbox.Dyfn.Types.{PBoxType, DyfnType, code, of_code, dyfn_type_size-le}
use sbox.Dyfn.Call.{Arch, Arg, dyfn_max_args}
use sbox.Dyfn.Place.{Placed, Backed}
use sbox.Dyfn.Closure.{Closures, no_info}
use sbox.Channel.{Channel, State}
use sbox.Channel.Pack.{IsShaped}
use sbox.Sandbox.Extract.{SavedRegs}
use sbox.Sandbox.Recover.{saved_word, type_of}
use sbox.Sandbox.Dispatch.{ClosureResult, callback_request, closure_result, closure_dispatch}
use sbox.Callback.{Registry, no_callback, Outcome, called, dispatch_callback}
use sbox.Callback.Deliver.{callback_delivers, request_result_storage}
use sbox.Front.Types.{pbox_type_v}
use sbox.Front.Call.{Signature, is_void}
use sbox.Front.Callback.{bytes_of, read_callback_args, callback_dispatch, deliver, answer_callback}
use sbox.Front.Delivered.{
  Matches, value_of, bytes_of_mapped, register, closure_result_lem, read_callback_args-eq,
}

-- The code of the host's dispatchers and functions, by their addresses.
abbrev pub Code : Type 0
Code = ℕ → ℕ → List ℕ → List ℕ → List ℕ → List ℕ

-- A slot of the registry holds this function behind its `callback_dispatch`.
abbrev pub Holds : Code → Registry → ℕ → Signature → (List (List ℕ) → List ℕ) → Type 0
Holds run r n sig fn =
    let cb = get_or r.callbacks n no_callback in
    run cb.dispatch cb.func_ptr ≡ callback_dispatch sig fn

-- The host's answer, when the request's dispatch is known.
answer-eq :
    (run : Code) (r : Registry) (request : Channel) (func dispatch : ℕ) (offsets : List ℕ)
    → dispatch_callback r request.callback_id request ≡ called func dispatch offsets
    → answer_callback run r request ≡ record request {
      state = State.request;
      result_storage = run dispatch func request.arg_storage offsets request.result_storage;
    }
unfolding answer_callback deliver
answer-eq run r request func dispatch offsets e =
    ap (λ (o : Outcome). record (deliver run request o) { state = State.request }) e

take_all : (xs : List ℕ) → take (length xs) xs ≡ xs
take_all [] = refl
take_all (x ∷ xs) = ap (λ (l : List ℕ). x ∷ l) (take_all xs)

-- The bytes of the function's value in the storage that the dispatcher leaves.
dispatched :
    (sig : Signature) (fn : List (List ℕ) → List ℕ) (storage offsets result : List ℕ)
    (values : List (List ℕ))
    → read_callback_args sig.params 0 storage offsets ≡ values
    → is_void sig.ret ≡ false
    → length (fn values) ≡ bytes_of sig.ret
    → bytes_of sig.ret ≤ length result
    → (take (bytes_of sig.ret) (callback_dispatch sig fn storage offsets result) ≡ fn values)
      × (length (callback_dispatch sig fn storage offsets result) ≡ length result)
unfolding callback_dispatch
dispatched sig fn storage offsets result values e returns len fits =
    rw (returns, e)
      (
        read_at-memcpy_to result (fn values) 0 (bytes_of sig.ret) (omega arith) (omega arith)
            ∙ ap (λ (n : ℕ). take n (fn values)) (sym len)
            ∙ take_all (fn values),
        length-memcpy_to result (fn values) 0 (bytes_of sig.ret) (omega arith) (omega arith),
      )

-- Sandbox code calls the stub of a callback that is registered for a C++ function with a result,
-- with at most ten arguments where its calling convention wants them, of the types of the
-- function's parameters; the channel is in shape, and the saved registers have eight bytes each.
-- Then the C++ function is called with the bytes of each argument, and when the stub returns, the
-- result register of the return type's class begins with the value that the function returned. The
-- channel is left in state REQUEST.
pub callback_round :
    (arch : Arch) (closures : Closures) (saved : SavedRegs) (ch : Channel) (r : Registry)
    (args : List Arg) (n : ℕ) (run : Code) (sig : Signature) (fn : List (List ℕ) → List ℕ)
    (ret : PBoxType) (result : ClosureResult)
    → let info = get_or closures.info saved.stub_index no_info in
      let cb = get_or r.callbacks n no_callback in
      IsShaped ch
      → Backed args
      → length args ≤ dyfn_max_args
      → Placed arch 0 0 args (saved_word saved)
      → info.callback_id ≡ pos n
      → take info.nargs info.arg_types ≡ map type_of args
      → n < r.count
      → cb.nargs ≡ length args
      → Holds run r n sig fn
      → Matches sig.params args
      → pbox_type_v sig.ret ≡ some ret
      → info.ret_type ≡ of_code (code ret)
      → is_void sig.ret ≡ false
      → length (fn (map value_of args)) ≡ bytes_of sig.ret
      → length result.int_val ≡ 8
      → length result.float_val ≡ 8
      → (ch' : Channel) × (result' : ClosureResult) × (closure_dispatch arch closures
            (answer_callback run r)
            saved
            (some ch)
            result
          ≡ (some ch', result'))
        × (ch'.state ≡ State.request)
        × (take (bytes_of sig.ret) (register (of_code (code ret)) result') ≡ fn (map value_of args))
unfolding closure_dispatch
callback_round arch closures saved ch r args n run sig fn ret result shaped backed few placed id
      types lt same holds matches mapped ret_type returns len int_len float_len =
    let request = callback_request arch closures saved ch in
    let (offsets, dispatches, reads) =
      callback_delivers arch closures saved ch r args n shaped backed few placed id types lt same in
    let storage = callback_dispatch sig fn request.arg_storage offsets request.result_storage in
    let size = bytes_of_mapped sig.ret ret mapped in
    let small = dyfn_type_size-le (of_code (code ret)) in
    let room : length request.result_storage ≡ 32 =
      ap length (request_result_storage arch closures saved ch args placed types)
      ∙ shaped.result_len in
    let (value, kept) =
      dispatched sig fn request.arg_storage offsets request.result_storage (map value_of args)
        (read_callback_args-eq sig.params args request.arg_storage offsets offsets 0 matches reads
          refl)
        returns len (omega arith) in
    let answered : answer_callback run r request
        ≡ record request { state = State.request; result_storage = storage } =
      answer-eq run r request (get_or r.callbacks n no_callback).func_ptr
        (get_or r.callbacks n no_callback).dispatch offsets dispatches
      ∙ ap
          (λ (g : List ℕ → List ℕ → List ℕ → List ℕ). record request {
            state = State.request;
            result_storage = g request.arg_storage offsets request.result_storage;
          })
          holds in
    (
      record request { state = State.request; result_storage = storage },
      closure_result (of_code (code ret)) storage result,
      ap₂ (λ (c : Channel) (t : DyfnType). (some c, closure_result t c.result_storage result))
          answered ret_type,
      refl,
      ap
            (λ (k : ℕ).
              take k (
                register (of_code (code ret)) (closure_result (of_code (code ret)) storage result)))
            (sym size)
          ∙ closure_result_lem (of_code (code ret)) storage result int_len float_len (omega arith)
          ∙ ap (λ (k : ℕ). take k storage) size
          ∙ value,
    )
