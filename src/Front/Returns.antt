-- ===== src/Front/Returns.antt =====
-- A call from C++ through the process backend (include/sbox/process.hh), down to the function in the
-- sandbox and back.
use sbox.Prelude.{
  ◌==◌, false, ℕ, ◌≤◌, ◌≡◌, ◌≢◌, refl, sym, ◌∙◌, List, Bool, true, not, Option, some, none, length,
  arith, le→leb, if◌then◌else◌,
}
use sbox.Dyfn.Types.{PBoxType, code, of_code}
use sbox.Dyfn.Call.{DyfnCallArgs}
use sbox.Dyfn.Store.{IsResult, result_bytes}
use sbox.Dyfn.Closure.{Closures}
use sbox.Channel.{Channel, State, max_args}
use sbox.Channel.Pack.{IsShaped}
use sbox.Call.{pbox_call}
use sbox.Call.Deliver.{Delivered}
use sbox.Call.Packing.{Ready}
use sbox.Call.Result.{pbox_call-returns}
use sbox.Call.Served.{pbox_call-served}
use sbox.Sandbox.Dispatch.{Environment, served_channel}
use sbox.Symbol.Lookup.{IsText}
use sbox.Front.Types.{pbox_type_v, pbox_type_v-sizes}
use sbox.Front.Call.{
  CppArg, Signature, Cast, Cache, Returned, zip_args, is_void, call_impl, convert_args,
  call_ptr_sig, call,
}
use sbox.Front.Arrays.{
  AreMapped, AreValues, fill_arg_types-taken, fill_arg_ptrs-taken, zip_args-Ready, length-zip_args,
  length-mapped, length-values,
}
use sbox.Front.Cached.{symbol_of, Agrees, IsUsable, lookup_lem}

-- The function is called with these values as the calling convention wants them, and the caller gets
-- what it returns, or nothing from a void function. The channel is idle, and in shape.
abbrev pub Returns :
    Environment
    → ℕ
    → Signature
    → List PBoxType
    → PBoxType
    → List (List ℕ)
    → Option Returned
    → Type 0
Returns env fn sig types ret values result =
    (regs : DyfnCallArgs) × Delivered env.arch fn (zip_args types values) regs
    × ((ch' : Channel) × (result
          ≡ some (
            some ch',
            if not (is_void sig.ret)
                then some (result_bytes (of_code (code ret)) (env.dyfn_call regs))
                else none,
          ))
        × (ch'.state ≡ State.idle)
        × IsShaped ch')

not_zero : (n : ℕ) → n ≢ 0 → not (n == 0) ≡ true
not_zero n h = ground arith

is_zero : (n : ℕ) → n ≡ 0 → not (n == 0) ≡ false
is_zero n h = ground arith

module _ (env : Environment) (is_control : Bool) (closures : Closures)
    (results : (regs : DyfnCallArgs) → IsResult (env.dyfn_call regs)) (sig : Signature)
    (types : List PBoxType) (ret : PBoxType) (values : List (List ℕ))
    (mapped : AreMapped sig.params types) (returned : pbox_type_v sig.ret ≡ some ret)
    (valued : AreValues sig.params values) (few : length sig.params ≤ max_args) where
  call_impl-pbox :
      (serve : Channel → Option Channel) (channel : Option Channel) (fn : ℕ)
      → call_impl serve channel fn sig values
        ≡ pbox_call serve channel fn ret (zip_args types values) (not (is_void sig.ret))
  unfolding call_impl
  call_impl-pbox serve channel fn =
      let (filled, made, taken) = fill_arg_types-taken sig.params types mapped in
      rw
        (
          le→leb (length sig.params) max_args few,
          made,
          returned,
          taken,
          fill_arg_ptrs-taken (length sig.params) values (length-values sig.params values valued),
        )
        refl

  -- The arguments and the result are of types that cross the channel.
  pub call_impl-Returns :
      (ch : Channel) (fn : ℕ)
      → IsShaped ch
      → Returns env fn sig types ret values
          (call_impl (served_channel env is_control closures) (some ch) fn sig values)
  call_impl-Returns ch fn shaped =
      let args = zip_args types values in
      let ready : Ready args = zip_args-Ready sig.params types values mapped valued in
      let same = length-mapped sig.params types mapped in
      let few' : length args ≤ max_args = omega (
        arith,
        length-zip_args types values (same ∙ sym (length-values sig.params values valued)),
      ) in
      let (regs, delivered, (ch', e, idle, shaped')) =
        pbox_call-returns env.arch env.dyfn_call ch fn ret args (not (is_void sig.ret)) results
          shaped (pbox_type_v-sizes sig.ret ret returned).0 ready few' in
      (
        regs,
        delivered,
        (
          ch',
          call_impl-pbox (served_channel env is_control closures) (some ch) fn
              ∙ pbox_call-served env is_control closures ch shaped fn ret args ready few'
                  (not (is_void sig.ret))
              ∙ e,
          idle,
          shaped',
        ),
      )

  module _ (other_cast : Cast) (text : ℕ → List ℕ) (cache : Cache) (ch : Channel) (name : ℕ)
      (args : List CppArg) (usable : IsUsable ch) (is_text : IsText (text name))
      (agrees : Agrees env text cache)
      (converts : convert_args other_cast sig.params args ≡ some values) where
    -- A call by name: the symbol is looked up, in the cache or by a request, and the function runs
    -- on the converted arguments, where the conditions of `call_impl` hold.
    pub found :
        symbol_of env text name ≢ 0
        → (cache' : Cache) × (result : Returned) × (call other_cast
              (served_channel env is_control closures)
              text
              cache
              (some ch)
              sig
              name
              args
            ≡ some (cache', result))
          × Agrees env text cache'
          × Returns env (symbol_of env text name) sig types ret values (some result)
    unfolding call call_ptr_sig
    found present =
        let (cache', ch1, at_symbol, agrees', usable') =
          lookup_lem env is_control closures text cache ch name is_text usable agrees in
        let (regs, delivered, (ch2, runs, idle, shaped)) =
          call_impl-Returns ch1 (symbol_of env text name) usable'.shaped in
        (
          cache',
          _,
          rw (at_symbol, not_zero (symbol_of env text name) present, converts, runs) refl,
          agrees',
          (regs, delivered, (ch2, refl, idle, shaped)),
        )

    pub absent :
        symbol_of env text name ≡ 0
        → call other_cast
            (served_channel env is_control closures)
            text
            cache
            (some ch)
            sig
            name
            args
          ≡ none
    unfolding call
    absent missing =
        let (cache', ch1, at_symbol, agrees', usable') =
          lookup_lem env is_control closures text cache ch name is_text usable agrees in
        rw (at_symbol, is_zero (symbol_of env text name) missing) refl
