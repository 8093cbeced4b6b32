-- ===== src/Front/Registration.antt =====
-- The registration of a callback from C++, on both sides: `register_callback` of
-- include/sbox/process.hh, `pbox_register_callback` (src/pbox/pbox.c), the sandbox's request for a
-- closure (src/pbox/pbox_sandbox.c) and `dyfn_closure_alloc` (src/dyfn/dyfn.c).
use sbox.Prelude.{
  set, suc, ◌+◌, ℕ, ◌≤◌, ◌<◌, ◌≡◌, refl, ap, ◌∙◌, List, [], ◌∷◌, ◌++◌, Bool, false, Option, none,
  some, length, take, drop, map, get_or, arith, pos, leb, get_or-set_self, le→leb,
}
use sbox.Dyfn.Types.{PBoxType, DyfnType, code, of_code}
use sbox.Dyfn.Call.{Arg}
use sbox.Dyfn.Closure
use sbox.Dyfn.Closure.{ClosureInfo, Closures, no_info, closure_alloc, max_closures, fill_info}
use sbox.Channel.{Channel, State, max_args}
use sbox.Sandbox.Recover.{type_of}
use sbox.Sandbox.Dispatch.{Environment, Served, serve, dispatch_round}
use sbox.Callback.{
  Registry, Entry, no_callback, max_callbacks, closure_request, publish, register_callback,
}
use sbox.Callback.Register
use sbox.Callback.Register.{registered_slot}
use sbox.Front.Types.{CppType, pbox_type_v}
use sbox.Front.Call.{Signature}
use sbox.Front.Arrays.{AreMapped, length-mapped, fill_arg_types-taken}
use sbox.Front.Callback.{register_cpp_callback}
use sbox.Front.Delivered.{Matches}

-- The type that the sandbox takes a type of the host's for.
abbrev pub crossing : PBoxType → DyfnType
crossing t = of_code (code t)

abbrev pub entry_of : (fn dispatch : ℕ) → PBoxType → List PBoxType → Entry
entry_of fn dispatch ret types = record {
  host_func = fn;
  dispatch = dispatch;
  ret_type = ret;
  arg_types = types;
}

abbrev pub left_in : Channel → Option Served → Channel
left_in ch none = ch
left_in ch (some served) = served.channel

-- The sandbox's side of a request; a failed assertion leaves the channel as it is.
abbrev pub sandbox_side : Environment → Bool → Closures → Channel → Channel
sandbox_side env is_control closures ch = left_in ch (dispatch_round env is_control ch closures)

-- The types in a slot are those of the request.
pub slot_types :
    (ts : List PBoxType) (rest : List ℕ) (old : List DyfnType)
    → take (length ts) (take (length ts) (map of_code (map code ts ++ rest)) ++ old)
      ≡ map crossing ts
slot_types [] rest old = refl
slot_types (t ∷ ts) rest old = ap (λ (l : List DyfnType). crossing t ∷ l) (slot_types ts rest old)

pub same_length :
    (args : List Arg) (ts : List PBoxType)
    → map type_of args ≡ map crossing ts
    → length ts ≡ length args
same_length [] [] e = refl
same_length [] (t ∷ ts) e = cc
same_length (a ∷ args) [] e = cc
same_length (a ∷ args) (t ∷ ts) e =
    let rest : map type_of args ≡ map crossing ts = cc in ap suc (same_length args ts rest)

pub AreMapped-Matches :
    (params : List CppType) (ts : List PBoxType) (args : List Arg)
    → AreMapped params ts
    → map type_of args ≡ map crossing ts
    → Matches params args
AreMapped-Matches [] [] [] m e = tt
AreMapped-Matches [] [] (a ∷ args) m e = cc
AreMapped-Matches [] (t ∷ ts) args m e = absurd m
AreMapped-Matches (T ∷ params) [] args m e = absurd m
AreMapped-Matches (T ∷ params) (t ∷ ts) [] m e = cc
AreMapped-Matches (T ∷ params) (t ∷ ts) ((k, v) ∷ args) (here, m) e =
    let type : k ≡ crossing t = cc in
    let rest : map type_of args ≡ map crossing ts = cc in
    ((t, here, type), AreMapped-Matches params ts args m rest)

-- The sandbox's slots when the closure is made.
abbrev pub with_closure : Closures → Channel → (id : ℕ) → PBoxType → List PBoxType → Closures
with_closure closures ch id ret ts =
    let types = map of_code (map code ts ++ drop (length ts) ch.closure_arg_types) in
    let old = get_or closures.info closures.count no_info in
    record {
      info =
          set closures.info closures.count
            (fill_info old (pos id) (crossing ret) (length ts) types);
      count = closures.count + 1;
    }

abbrev pub closure_made : Environment → Closures → Channel → (id : ℕ) → Entry → Served
closure_made env closures ch id e = record {
  channel = record (closure_request ch id e) {
    closure_addr = env.stubs closures.count;
    state = State.response;
  };
  closures = with_closure closures ch id e.ret_type e.arg_types;
  spawned = none;
}

-- While a slot is free, the sandbox makes the closure.
pub dispatch_round-closure :
    (env : Environment) (is_control : Bool) (closures : Closures) (ch : Channel) (id : ℕ)
    (e : Entry)
    → closures.count < max_closures
    → dispatch_round env is_control (closure_request ch id e) closures
      ≡ some (closure_made env closures ch id e)
unfolding dispatch_round serve closure_alloc closure_request
dispatch_round-closure env is_control closures ch id e free =
    let has_room : leb max_closures closures.count ≡ false = ground arith in rw has_room refl

-- A registration of parameters that cross the channel, on a thread with a channel, takes a free slot.
pub registered-eq :
    (side : Channel → Channel) (ch : Channel) (r : Registry) (sig : Signature) (ts : List PBoxType)
    (ret : PBoxType) (fn dispatch : ℕ)
    → r.count < max_callbacks
    → AreMapped sig.params ts
    → length ts ≤ max_args
    → pbox_type_v sig.ret ≡ some ret
    → register_cpp_callback side (some ch) r sig fn dispatch
      ≡ some (publish side (some ch) r (entry_of fn dispatch ret ts))
unfolding register_cpp_callback register_callback
registered-eq side ch r sig ts ret fn dispatch free mapped few returned =
    let (types, made, taken) = fill_arg_types-taken sig.params ts mapped in
    let same = length-mapped sig.params ts mapped in
    let has_room : leb max_callbacks r.count ≡ false = ground arith in
    rw
      (
        le→leb (length sig.params) max_args (omega (arith, same)),
        made,
        returned,
        taken,
        has_room,
        le→leb (length ts) max_args few,
      )
      refl

-- The slot that the closure took.
pub at_slot :
    (closures : Closures) (ch : Channel) (id : ℕ) (ret : PBoxType) (ts : List PBoxType) (i : ℕ)
    → Closure.IsValid closures
    → closures.count < max_closures
    → i ≡ closures.count
    → get_or (with_closure closures ch id ret ts).info i no_info
      ≡ fill_info
          (get_or closures.info closures.count no_info)
          (pos id)
          (crossing ret)
          (length ts)
          (map of_code (map code ts ++ drop (length ts) ch.closure_arg_types))
at_slot closures ch id ret ts i slots free e =
    ap (λ (k : ℕ). get_or (with_closure closures ch id ret ts).info k no_info) e
    ∙ get_or-set_self closures.info closures.count
        (fill_info (get_or closures.info closures.count no_info) (pos id) (crossing ret) (length ts)
          (map of_code (map code ts ++ drop (length ts) ch.closure_arg_types)))
        no_info (omega (arith, slots.info_len))

-- The slot that the registration took.
pub at_count :
    (side : Channel → Channel) (ch : Channel) (r : Registry) (e : Entry)
    → Register.IsValid r
    → r.count < max_callbacks
    → get_or (publish side (some ch) r e).registry.callbacks r.count no_callback
      ≡ registered_slot r e (side (closure_request ch r.count e)).closure_addr
unfolding publish
at_count side ch r e valid free =
    get_or-set_self r.callbacks r.count
      (registered_slot r e (side (closure_request ch r.count e)).closure_addr) no_callback
      (omega (arith, valid.slots))

pub stub_returned :
    (env : Environment) (is_control : Bool) (closures : Closures) (ch : Channel) (r : Registry)
    (e : Entry)
    → closures.count < max_closures
    → (publish (sandbox_side env is_control closures) (some ch) r e).closure
      ≡ env.stubs closures.count
unfolding publish
stub_returned env is_control closures ch r e free =
    ap (λ (m : Option Served). (left_in (closure_request ch r.count e) m).closure_addr)
      (dispatch_round-closure env is_control closures ch r.count e free)
