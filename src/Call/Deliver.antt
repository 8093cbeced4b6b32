-- ===== src/Call/Deliver.antt =====
-- A call crosses the channel: what the host packs is what the sandbox puts into registers, and the
-- result comes back.
use sbox.Prelude.{
  ℕ, suc, ◌+◌, ◌*◌, ◌≤◌, ◌≡◌, refl, ◌∙◌, ap, List, [], ◌∷◌, Option, some, length, take, drop, map,
  get_or, arith, le→leb, lt→ltb, get_or_of_get_elem?, ◌++◌, ◌-◌, replicate,
}
use sbox.Dyfn.Types.{
  PBoxType, code, of_code, pbox_type_size, dyfn_type_size, pbox_type_size-le,
  dyfn_type_size-of_code,
}
use sbox.Dyfn.Call.{Arch, Arg, DyfnCallArgs, dyfn_prep_call}
use sbox.Dyfn.Place.{Place, Placed, extended, words_of, place, next_int, next_float}
use sbox.Dyfn.Fill.{prep_call-Placed, prep_call-func}
use sbox.Channel.{Channel, Request, max_args, arg_storage_size}
use sbox.Channel.Pack.{
  Packed, IsShaped, put_args, put_args_frame, put_args-Packed, put_args-IsShaped,
}
use sbox.Call.{HostArg, call_request, prepare_call}
use sbox.Sandbox.Ffi.{gather_args, ffi_registers}
use sbox.Call.Packing.{
  Ready, crossed, sized, typed, TypesAt, Ready-Fits, length-sized, pack_args-eq, typed-TypesAt,
  length-typed,
}

-- The same arguments, each with the bytes that its type has.
abbrev Same : List HostArg → List Arg → Type 0
Same [] [] = Unit
Same [] (b ∷ bs) = ⊥
Same (a ∷ rest) [] = ⊥
Same ((t, v) ∷ rest) ((t', v') ∷ l) =
    (t' ≡ of_code (code t))
    × (take (dyfn_type_size (of_code (code t))) v' ≡ take (dyfn_type_size (of_code (code t))) v)
    × Same rest l

abbrev received : Channel → ℕ → List HostArg → List Arg
received ch i [] = []
received ch i (a ∷ rest) =
    (of_code (get_or ch.arg_types i 0), drop (get_or ch.args i 0) ch.arg_storage)
    ∷ received ch (i + 1) rest

-- The sandbox finds every packed argument, and its assertion holds.
gather_args-received :
    (ch : Channel) (i o : ℕ) (args : List HostArg)
    → Packed i o (map sized args) ch
    → i + length args ≤ max_args
    → o ≤ 8 * i
    → gather_args ch i (length args) ≡ some (received ch i args)
unfolding gather_args
gather_args-received ch i o [] packed le room = refl
gather_args-received ch i o ((t, v) ∷ rest) (at, bytes, packed) le room = rw (
  get_or_of_get_elem? ch.args i o 0 at,
  lt→ltb o arg_storage_size (omega arith),
  gather_args-received ch (i + 1) (o + pbox_type_size t) rest packed (omega arith)
      (omega (arith, pbox_type_size-le t)),
)

received-Same :
    (ch : Channel) (i o : ℕ) (args : List HostArg)
    → Packed i o (map sized args) ch
    → TypesAt i args ch.arg_types
    → Ready args
    → Same args (received ch i args)
received-Same ch i o [] packed types ready = tt
received-Same ch i o ((t, v) ∷ rest) (at, bytes, packed) (type, types) (named, backed, ready) = (
  ap of_code (get_or_of_get_elem? ch.arg_types i (code t) 0 type),
  rw (dyfn_type_size-of_code t named, get_or_of_get_elem? ch.args i o 0 at) bytes,
  received-Same ch (i + 1) (o + pbox_type_size t) rest packed types ready,
)

Placed-Same :
    (arch : Arch) (i f : ℕ) (args : List HostArg) (l : List Arg) (at : Place → Option (List ℕ))
    → Same args l
    → Placed arch i f l at
    → Placed arch i f (map crossed args) at
Placed-Same arch i f [] [] at same placed = tt
Placed-Same arch i f [] (b ∷ l) at same placed = absurd same
Placed-Same arch i f (a ∷ rest) [] at same placed = absurd same
Placed-Same arch i f ((t, v) ∷ rest) ((t', v') ∷ l) at (e, bytes, same) (here, placed) =
    let here' : at (place arch i f (of_code (code t))) ≡ some (extended (of_code (code t), v')) =
      rw e at here in
    (
      here' ∙ ap (λ b. some (b ++ replicate (8 - dyfn_type_size (of_code (code t))) 0)) bytes,
      Placed-Same arch (next_int i (of_code (code t))) (next_float f (of_code (code t))) rest l at
          same (rw e at placed),
    )

length-received :
    (ch : Channel) (i : ℕ) (args : List HostArg) → length (received ch i args) ≡ length args
length-received ch i [] = refl
length-received ch i (a ∷ rest) = ap suc (length-received ch (i + 1) rest)

-- What the sandbox calls: the function, with the host's arguments where its calling convention wants
-- them, each zero-extended to a word.
pub record Delivered (arch : Arch) (func_addr : ℕ) (args : List HostArg) (call : DyfnCallArgs)
    : Type 0 where
  pub func : call.func ≡ func_addr
  pub registers : Placed arch 0 0 (map crossed args) (words_of call)

module _ (ch : Channel) (shaped : IsShaped ch) (func_addr : ℕ) (ret_type : PBoxType)
    (args : List HostArg) (ready : Ready args) (few : length args ≤ max_args) where
  -- The channel as the sandbox gets it.
  abbrev pub packed_channel : Channel
  packed_channel =
      put_args
        (record (call_request ch func_addr ret_type (length args)) {
          arg_types = typed ch.arg_types 0 args;
        })
        0 0 (map sized args)

  pub prepare_call-eq : prepare_call ch func_addr ret_type args ≡ some packed_channel
  unfolding prepare_call
  prepare_call-eq = rw (le→leb (length args) max_args few) (
      pack_args-eq (call_request ch func_addr ret_type (length args)) 0 0 args (omega arith)
        (omega arith))

  -- The registers that the sandbox fills from it.
  abbrev pub delivered_call : Arch → DyfnCallArgs
  delivered_call arch =
      dyfn_prep_call arch func_addr (of_code (code ret_type)) (received packed_channel 0 args)

  frame :
      packed_channel
      ≡ record (record (call_request ch func_addr ret_type (length args)) {
        arg_types = typed ch.arg_types 0 args;
      }) { args = packed_channel.args; arg_storage = packed_channel.arg_storage }
  frame = put_args_frame _ 0 0 (map sized args)

  pub ret_type-packed : packed_channel.ret_type ≡ code ret_type
  ret_type-packed = ap (λ (c : Channel). c.ret_type) frame

  pub request_type-packed : packed_channel.request_type ≡ Request.call
  request_type-packed = ap (λ (c : Channel). c.request_type) frame

  pub result_storage-packed : packed_channel.result_storage ≡ ch.result_storage
  result_storage-packed = ap (λ (c : Channel). c.result_storage) frame

  typed-IsShaped : IsShaped (record (call_request ch func_addr ret_type (length args)) {
    arg_types = typed ch.arg_types 0 args;
  })
  typed-IsShaped = record {
    args_len = shaped.args_len;
    storage_len = shaped.storage_len;
    types_len = length-typed ch.arg_types 0 args ∙ shaped.types_len;
    result_len = shaped.result_len;
  }

  packed : Packed 0 0 (map sized args) packed_channel
  packed =
      put_args-Packed _ 0 0 (map sized args) typed-IsShaped (Ready-Fits args ready)
        (omega (arith, length-sized args))

  pub packed-IsShaped : IsShaped packed_channel
  packed-IsShaped =
      put_args-IsShaped _ 0 0 (map sized args) typed-IsShaped (Ready-Fits args ready)
        (omega (arith, length-sized args))

  pub ffi_registers-eq :
      (arch : Arch) → ffi_registers arch packed_channel ≡ some (delivered_call arch)
  unfolding ffi_registers
  ffi_registers-eq arch = rw (
    ap (λ (c : Channel). c.nargs) frame,
    gather_args-received packed_channel 0 0 args packed (omega arith) (omega arith),
    ap (λ (c : Channel). c.func_addr) frame,
    ret_type-packed,
  )

  types : TypesAt 0 args packed_channel.arg_types
  types =
      rw (ap (λ (c : Channel). c.arg_types) frame)
        (typed-TypesAt ch.arg_types 0 args (omega (arith, shaped.types_len)))

  pub delivered_call-Delivered : (arch : Arch) → Delivered arch func_addr args (delivered_call arch)
  delivered_call-Delivered arch = record {
    func = prep_call-func arch func_addr _ (received packed_channel 0 args);
    registers =
        Placed-Same arch 0 0 args (received packed_channel 0 args) _
          (received-Same packed_channel 0 0 args packed types ready)
          (prep_call-Placed arch func_addr (of_code (code ret_type))
            (received packed_channel 0 args)
            (omega (arith, length-received packed_channel 0 args)));
  }
