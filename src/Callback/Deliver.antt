-- ===== src/Callback/Deliver.antt =====
-- A callback crosses the channel: what sandbox code passes to the stub is what host code is given
-- (src/pbox/pbox_sandbox.c and src/pbox/pbox.c).
use sbox.Prelude.{
  ℕ, suc, ◌+◌, ◌<◌, ◌≤◌, ◌≡◌, inl, inr, refl, ap, sym, ◌∙◌, List, [], ◌∷◌, some, length, get_or,
  map, take, read_at, arith, All, ℤ, pos, get_or_of_get_elem?,
}
use sbox.Dyfn.Types.{dyfn_type_size-le}
use sbox.Dyfn.Call.{Arch, Arg, dyfn_max_args}
use sbox.Dyfn.Place.{Placed, Backed}
use sbox.Dyfn.Closure.{Closures, ClosureInfo, no_info}
use sbox.Channel.{Channel, State}
use sbox.Channel.Pack.{Sized, Packed, IsShaped, Room, put_args_frame}
use sbox.Sandbox.Extract.{SavedRegs, extract_args}
use sbox.Sandbox.Recover.{
  saved_word, at_start, bytes_arg, type_of, word_arg, extract_args-Packed, extract_args-eq,
  start-Tracks,
}
use sbox.Sandbox.Dispatch.{callback_request}
use sbox.Callback.{Registry, no_callback, called, read_offsets, run_callback, dispatch_callback}
use sbox.Callback.Guarded.{offsets_of, InStorage, read_offsets_iff}

-- At each offset lie the bytes of its argument.
abbrev pub Reads : List ℕ → List Sized → List ℕ → Type 0
Reads storage [] [] = Unit
Reads storage [] (o ∷ os) = ⊥
Reads storage (a ∷ rest) [] = ⊥
Reads storage ((size, v) ∷ rest) (o ∷ os) =
    (read_at storage o size ≡ take size v) × Reads storage rest os

abbrev Narrow : List Sized → Type 0
Narrow l = All (λ (a : Sized). a.0 ≤ 8) l

Packed-Reads :
    (i o : ℕ) (l : List Sized) (ch : Channel)
    → Narrow l
    → Room i o l
    → Packed i o l ch
    → InStorage (offsets_of ch i (length l)) × Reads ch.arg_storage l (offsets_of ch i (length l))
Packed-Reads i o [] ch narrow room h = (tt, tt)
Packed-Reads i o ((size, v) ∷ rest) ch narrow room (at, bytes, h) =
    let here = get_or_of_get_elem? ch.args i o 0 at in
    let (inside, reads) = Packed-Reads (i + 1) (o + size) rest ch narrow.1 (omega arith) h in
    ((omega arith, inside), (ap (λ (x : ℕ). read_at ch.arg_storage x size) here ∙ bytes, reads))

read_offsets-InStorage :
    (ch : Channel) (i n : ℕ)
    → InStorage (offsets_of ch i n)
    → read_offsets ch i n ≡ some (offsets_of ch i n)
read_offsets-InStorage ch i n h = elim (read_offsets_iff ch i n) [
  | inl seen ↦ seen.0
  | inr bad ↦ absurd (bad.1 h)
]

-- A registered callback whose arguments are packed is called.
dispatch_callback-eq :
    (r : Registry) (n : ℕ) (ch : Channel)
    → n < r.count
    → InStorage (offsets_of ch 0 (get_or r.callbacks n no_callback).nargs)
    → dispatch_callback r (pos n) ch
      ≡ called
          (get_or r.callbacks n no_callback).func_ptr
          (get_or r.callbacks n no_callback).dispatch
          (offsets_of ch 0 (get_or r.callbacks n no_callback).nargs)
unfolding dispatch_callback run_callback
dispatch_callback-eq r n ch lt h =
    ground (arith, read_offsets-InStorage ch 0 (get_or r.callbacks n no_callback).nargs h)

Narrow-args : (args : List Arg) → Narrow (map bytes_arg args)
Narrow-args [] = tt
Narrow-args ((t, v) ∷ rest) = (dyfn_type_size-le t, Narrow-args rest)

length-bytes_args : (args : List Arg) → length (map bytes_arg args) ≡ length args
length-bytes_args [] = refl
length-bytes_args (a ∷ rest) = ap suc (length-bytes_args rest)

-- Packed arguments do not depend on the channel's state.
Packed-state :
    (i o : ℕ) (l : List Sized) (ch : Channel) (s : State)
    → Packed i o l ch
    → Packed i o l (record ch { state = s })
Packed-state i o [] ch s h = tt
Packed-state i o ((size, v) ∷ rest) ch s (at, bytes, h) =
    (at, bytes, Packed-state (i + 1) (o + size) rest ch s h)

-- The offsets of packed arguments pass the check, and the callback is called with them.
dispatch_callback-Packed :
    (r : Registry) (n : ℕ) (ch : Channel) (l : List Sized)
    → Narrow l
    → Room 0 0 l
    → Packed 0 0 l ch
    → n < r.count
    → (get_or r.callbacks n no_callback).nargs ≡ length l
    → (dispatch_callback r (pos n) ch
        ≡ called
            (get_or r.callbacks n no_callback).func_ptr
            (get_or r.callbacks n no_callback).dispatch
            (offsets_of ch 0 (length l)))
      × Reads ch.arg_storage l (offsets_of ch 0 (length l))
dispatch_callback-Packed r n ch l narrow room packed lt same =
    let (inside, reads) = Packed-Reads 0 0 l ch narrow room packed in
    let at_count : InStorage (offsets_of ch 0 (get_or r.callbacks n no_callback).nargs) =
      rw same inside in
    (
      dispatch_callback-eq r n ch lt at_count
          ∙ ap
              (λ (k : ℕ).
                called (get_or r.callbacks n no_callback).func_ptr
                  (get_or r.callbacks n no_callback).dispatch (offsets_of ch 0 k))
              same,
      reads,
    )

module _ (arch : Arch) (closures : Closures) (saved : SavedRegs) (ch : Channel) (args : List Arg)
    (placed : Placed arch 0 0 args (saved_word saved)) where
  abbrev info : ClosureInfo
  info = get_or closures.info saved.stub_index no_info

  abbrev named : Channel
  named = record ch { callback_id = info.callback_id; nargs = info.nargs }

  -- The request, when the closure's types are those of the arguments.
  request-eq :
      take info.nargs info.arg_types ≡ map type_of args
      → callback_request arch closures saved ch
        ≡ record (extract_args arch saved at_start named 0 0 (map type_of args)) {
          state = State.callback;
        }
  unfolding callback_request
  request-eq types = rw types

  named_callback_id :
      (extract_args arch saved at_start named 0 0 (map type_of args)).callback_id ≡ info.callback_id
  named_callback_id =
      ap (λ (c : Channel). c.callback_id)
        (extract_args-eq arch saved at_start named 0 0 0 0 args (start-Tracks arch) placed
          ∙ put_args_frame named 0 0 (map word_arg args))

  -- A callback's request leaves the result's storage alone.
  pub request_result_storage :
      take info.nargs info.arg_types ≡ map type_of args
      → (callback_request arch closures saved ch).result_storage ≡ ch.result_storage
  request_result_storage types =
      ap (λ (c : Channel). c.result_storage) (request-eq types)
      ∙ ap (λ (c : Channel). c.result_storage)
          (extract_args-eq arch saved at_start named 0 0 0 0 args (start-Tracks arch) placed
            ∙ put_args_frame named 0 0 (map word_arg args))

  named-IsShaped : IsShaped ch → IsShaped named
  named-IsShaped shaped = record {
    args_len = shaped.args_len;
    storage_len = shaped.storage_len;
    types_len = shaped.types_len;
    result_len = shaped.result_len;
  }

-- A closure whose callback is registered with as many arguments as the closure has types delivers
-- them over a channel in shape: if the saved registers hold at most ten arguments of those types
-- as the calling convention places them, each backed by its bytes, the host's dispatcher calls
-- the registered function, and at each offset that it passes on lie the bytes of the
-- corresponding argument.
pub callback_delivers :
    (arch : Arch) (closures : Closures) (saved : SavedRegs) (ch : Channel) (r : Registry)
    (args : List Arg) (n : ℕ)
    → let info = get_or closures.info saved.stub_index no_info in
      let cb = get_or r.callbacks n no_callback in
      let request = callback_request arch closures saved ch in
      IsShaped ch
      → Backed args
      → length args ≤ dyfn_max_args
      → Placed arch 0 0 args (saved_word saved)
      → info.callback_id ≡ pos n
      → take info.nargs info.arg_types ≡ map type_of args
      → n < r.count
      → cb.nargs ≡ length args
      → (offsets : List ℕ) × (dispatch_callback r request.callback_id request
          ≡ called cb.func_ptr cb.dispatch offsets)
        × Reads request.arg_storage (map bytes_arg args) offsets
callback_delivers arch closures saved ch r args n shaped backed few placed id types lt same =
    let made =
      extract_args arch saved at_start (named arch closures saved ch args placed) 0 0
        (map type_of args) in
    let packed = Packed-state 0 0 (map bytes_arg args) made State.callback (
      extract_args-Packed arch saved (named arch closures saved ch args placed) args
        (named-IsShaped arch closures saved ch args placed shaped) backed few placed) in
    let (calls, reads) =
      dispatch_callback-Packed r n (record made { state = State.callback }) (map bytes_arg args)
        (Narrow-args args) (omega (arith, length-bytes_args args)) packed lt
        (same ∙ sym (length-bytes_args args)) in
    rw (request-eq arch closures saved ch args placed types) (
      offsets_of (record made { state = State.callback }) 0 (length (map bytes_arg args)),
      ap (λ (k : ℤ). dispatch_callback r k (record made { state = State.callback }))
            (named_callback_id arch closures saved ch args placed ∙ id)
          ∙ calls,
      reads,
    )
