-- ===== src/Callback/Guarded.antt =====
-- What `pbox_dispatch_callback` (src/pbox/pbox.c) lets through to host code.
use sbox.Prelude.{
  ℕ, zero, suc, ◌+◌, ◌<◌, ◌≡◌, ◌⊎◌, inl, refl, List, [], ◌∷◌, none, some, get_or, arith, All, ℤ,
  pos, negsuc,
}
use sbox.Channel.{Channel, arg_storage_size}
use sbox.Callback.{
  Registry, no_callback, killed, called, read_offsets, run_callback, dispatch_callback,
}

-- The offsets that the channel holds from index `i` on.
abbrev pub offsets_of : Channel → ℕ → ℕ → List ℕ
offsets_of ch i zero = []
offsets_of ch i (suc n) = get_or ch.args i 0 ∷ offsets_of ch (i + 1) n

abbrev pub InStorage : List ℕ → Type 0
InStorage l = All (λ (o : ℕ). o < arg_storage_size) l

-- All offsets pass, or one of them does not.
pub read_offsets_iff :
    (ch : Channel) (i n : ℕ)
    → ((read_offsets ch i n ≡ some (offsets_of ch i n)) × InStorage (offsets_of ch i n))
      ⊎ ((read_offsets ch i n ≡ none) × ¬ (InStorage (offsets_of ch i n)))
unfolding read_offsets
read_offsets_iff ch i zero = inl (refl, tt)
read_offsets_iff ch i (suc n) = ground (arith, read_offsets_iff ch (i + 1) n)

-- Host code runs only for a callback whose number is registered, and only with offsets that lie in
-- the argument storage; they are the offsets of that callback's arguments.
pub dispatch_callback-called :
    (r : Registry) (id : ℤ) (ch : Channel) (func dispatch : ℕ) (offsets : List ℕ)
    → dispatch_callback r id ch ≡ called func dispatch offsets
    → (n : ℕ) × (id ≡ pos n)
      × (n < r.count)
      × InStorage offsets
      × (func ≡ (get_or r.callbacks n no_callback).func_ptr)
      × (dispatch ≡ (get_or r.callbacks n no_callback).dispatch)
      × (offsets ≡ offsets_of ch 0 (get_or r.callbacks n no_callback).nargs)
unfolding dispatch_callback run_callback
dispatch_callback-called r (negsuc n) ch func dispatch offsets e = cc
dispatch_callback-called r (pos n) ch func dispatch offsets e =
    let seen = read_offsets_iff ch 0 (get_or r.callbacks n no_callback).nargs in
    let same : offsets ≡ offsets_of ch 0 (get_or r.callbacks n no_callback).nargs =
      ground (arith, seen) in
    (
      n,
      refl,
      ground arith,
      rw same (ground (arith, seen)),
      ground (arith, seen),
      ground (arith, seen),
      same,
    )

-- The sandbox is killed only for an offset outside the argument storage of a callback that is
-- registered.
pub dispatch_callback-killed :
    (r : Registry) (id : ℤ) (ch : Channel)
    → dispatch_callback r id ch ≡ killed
    → (n : ℕ) × (id ≡ pos n)
      × (n < r.count)
      × ¬ (InStorage (offsets_of ch 0 (get_or r.callbacks n no_callback).nargs))
unfolding dispatch_callback run_callback
dispatch_callback-killed r (negsuc n) ch e = cc
dispatch_callback-killed r (pos n) ch e =
    let seen = read_offsets_iff ch 0 (get_or r.callbacks n no_callback).nargs in
    (n, refl, ground arith, λ h. ground (arith, seen))
