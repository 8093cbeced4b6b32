-- ===== src/Front/Typed.antt =====
-- The typed calls of include/sbox/process.hh and the handles of include/sbox/sbox.hh.
use sbox.Prelude.{ℕ_discrete, Bool, ℕ, ◌≤◌, ◌≡◌, ◌≢◌, ◌↔◌, List, true, some, none, length}
use sbox.Dyfn.Types.{PBoxType}
use sbox.Dyfn.Call.{DyfnCallArgs}
use sbox.Dyfn.Store.{IsResult}
use sbox.Dyfn.Closure.{Closures}
use sbox.Channel.{Channel, max_args}
use sbox.Channel.Pack.{IsShaped}
use sbox.Sandbox.Dispatch.{Environment, served_channel}
use sbox.Symbol.Lookup.{IsText}
use sbox.Front.Types.{pbox_type_v}
use sbox.Front.Call.{
  CppArg, Signature, Cast, Cache, Returned, convert_args, call, check_args, call_typed,
  fn_handle_call,
}
use sbox.Front.Arrays.{AreMapped, AreValues}
use sbox.Front.Cached.{symbol_of, Agrees, IsUsable}
use sbox.Front.Returns.{Returns, call_impl-Returns, found, absent}

-- A call that compiles: at most ten parameters, of types that cross the channel, to which the
-- arguments are converted, and a return type that crosses it.
pub record Compiles (other_cast : Cast) (sig : Signature) (args : List CppArg)
    (types : List PBoxType) (ret : PBoxType) (values : List (List ℕ)) : Type 0 where
  pub mapped : AreMapped sig.params types
  pub returned : pbox_type_v sig.ret ≡ some ret
  pub valued : AreValues sig.params values
  pub few : length sig.params ≤ max_args
  pub converts : convert_args other_cast sig.params args ≡ some values

-- A typed call that compiles, whose pointer arguments pass the check, from a thread with a channel
-- in shape and a cache whose entries are right, to a name that the sandbox knows: it fails no
-- assertion and does not abort. The function of that name is called with the converted arguments
-- in the places of its calling convention, and the caller gets the result, or nothing from a void
-- function. The cache's entries are right again, and the channel is idle and in shape.
pub call_typed-Returns :
    (env : Environment) (is_control : Bool) (closures : Closures) (other_cast : Cast)
    (text : ℕ → List ℕ) (cache : Cache) (ch : Channel) (name : ℕ) (sig : Signature)
    (args : List CppArg) (types : List PBoxType) (ret : PBoxType) (values : List (List ℕ))
    → ((regs : DyfnCallArgs) → IsResult (env.dyfn_call regs))
    → Compiles other_cast sig args types ret values
    → IsUsable ch
    → IsText (text name)
    → Agrees env text cache
    → symbol_of env text name ≢ 0
    → check_args sig.params args ≡ true
    → (cache' : Cache) × (result : Returned) × (call_typed other_cast
          (served_channel env is_control closures)
          text
          cache
          (some ch)
          sig
          name
          args
        ≡ some (cache', result))
      × Agrees env text cache'
      × Returns env (symbol_of env text name) sig types ret values (some result)
unfolding call_typed
call_typed-Returns env is_control closures other_cast text cache ch name sig args types ret values
      results c usable is_text agrees present checked =
    rw checked (
      found env is_control closures results sig types ret values c.mapped c.returned c.valued c.few
        other_cast text cache ch name args usable is_text agrees c.converts present)

-- Under the same conditions, but for the pointer check and the name, a call by name aborts exactly
-- if the sandbox does not know the name.
pub call_aborts_iff :
    (env : Environment) (is_control : Bool) (closures : Closures) (other_cast : Cast)
    (text : ℕ → List ℕ) (cache : Cache) (ch : Channel) (name : ℕ) (sig : Signature)
    (args : List CppArg) (types : List PBoxType) (ret : PBoxType) (values : List (List ℕ))
    → ((regs : DyfnCallArgs) → IsResult (env.dyfn_call regs))
    → Compiles other_cast sig args types ret values
    → IsUsable ch
    → IsText (text name)
    → Agrees env text cache
    → (call other_cast (served_channel env is_control closures) text cache (some ch) sig name args
        ≡ none)
      ↔ (symbol_of env text name ≡ 0)
call_aborts_iff env is_control closures other_cast text cache ch name sig args types ret values
      results c usable is_text agrees =
    (
      λ stops. elim (ℕ_discrete (symbol_of env text name) 0) [
        | yes missing ↦ missing
        | no present ↦
            let (cache', result, e, right, rest) =
              found env is_control closures results sig types ret values c.mapped c.returned
                c.valued c.few other_cast text cache ch name args usable is_text agrees c.converts
                present in
            cc
      ],
      absent env is_control closures results sig types ret values c.mapped c.returned c.valued c.few
          other_cast text cache ch name args usable is_text agrees c.converts,
    )

-- A handle's call is the call by name without the lookup: with the name's symbol, it runs the same
-- function on the same arguments and returns the same, through a channel in shape.
pub fn_handle_call-Returns :
    (env : Environment) (is_control : Bool) (closures : Closures) (other_cast : Cast) (ch : Channel)
    (fn : ℕ) (sig : Signature) (args : List CppArg) (types : List PBoxType) (ret : PBoxType)
    (values : List (List ℕ))
    → ((regs : DyfnCallArgs) → IsResult (env.dyfn_call regs))
    → Compiles other_cast sig args types ret values
    → IsShaped ch
    → Returns env fn sig types ret values
        (fn_handle_call other_cast (served_channel env is_control closures) (some ch) fn sig args)
unfolding fn_handle_call
fn_handle_call-Returns env is_control closures other_cast ch fn sig args types ret values results c
      shaped =
    rw c.converts (
      call_impl-Returns env is_control closures results sig types ret values c.mapped c.returned
        c.valued c.few ch fn shaped)
