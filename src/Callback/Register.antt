-- ===== src/Callback/Register.antt =====
-- What `pbox_register_callback` (src/pbox/pbox.c) does to the registry.
use sbox.Prelude.{
  ℕ, ◌+◌, ◌<◌, ◌≤◌, ◌≡◌, ◌⊎◌, inl, inr, refl, ◌∙◌, Option, none, some, leb, if◌then◌else◌, length,
  get_or, get_elem?, arith, length-set, get_elem?-set, ◌==◌, get_elem?-set_ne, le→leb, Bool-cases,
}
use sbox.Channel.{Channel, max_args}
use sbox.Callback.{
  Callback, Registry, Entry, Registered, no_callback, max_callbacks, fill_callback, closure_request,
  publish, register_callback,
}

pub record IsValid (r : Registry) : Type 0 where
  pub slots : length r.callbacks ≡ max_callbacks
  pub in_range : r.count ≤ max_callbacks

-- The slot that a successful registration takes.
abbrev pub registered_slot : Registry → Entry → ℕ → Callback
registered_slot r e closure = record (fill_callback (get_or r.callbacks r.count no_callback) e) {
  sandbox_closure = closure;
}

-- With a valid registry, a free slot and a channel, a registration of at most ten arguments takes
-- the next slot: the slot holds the function, its types and the closure that the sandbox answers
-- with, every other slot `j` is as before, and the closure is what is returned.
pub register_callback_taken :
    (serve : Channel → Channel) (ch : Channel) (r : Registry) (e : Entry) (j : ℕ)
    → IsValid r
    → r.count < max_callbacks
    → length e.arg_types ≤ max_args
    → (done : Registered) × (register_callback serve (some ch) r e ≡ some done)
      × IsValid done.registry
      × (done.registry.count ≡ r.count + 1)
      × (done.closure ≡ (serve (closure_request ch r.count e)).closure_addr)
      × (get_elem? done.registry.callbacks j ≡ (
          if r.count == j
          then some (registered_slot r e done.closure)
          else get_elem? r.callbacks j))
unfolding register_callback publish
register_callback_taken serve ch r e j v free few =
    let slot = registered_slot r e (serve (closure_request ch r.count e)).closure_addr in
    (
      publish serve (some ch) r e,
      ground arith,
      record { slots = length-set r.callbacks r.count slot ∙ v.slots; in_range = omega arith },
      refl,
      refl,
      get_elem?-set r.callbacks r.count j slot (omega (arith, v.slots)),
    )

-- A registration that fails, for want of a slot or of a channel, returns NULL and leaves the count and
-- every slot `j` below it as they were.
pub register_callback_failed :
    (serve : Channel → Channel) (channel : Option Channel) (r : Registry) (e : Entry) (j : ℕ)
    → IsValid r
    → j < r.count
    → length e.arg_types ≤ max_args
    → (r.count ≡ max_callbacks) ⊎ (channel ≡ none)
    → (done : Registered) × (register_callback serve channel r e ≡ some done)
      × IsValid done.registry
      × (done.registry.count ≡ r.count)
      × (done.closure ≡ 0)
      × (get_elem? done.registry.callbacks j ≡ get_elem? r.callbacks j)
unfolding register_callback publish
register_callback_failed serve channel r e j v lt few why =
    elim (Bool-cases (leb max_callbacks r.count)) [
      | inl full ↦
          (record { closure = 0; registry = r; channel = none }, rw full, v, refl, refl, refl)
      | inr free ↦
          let gone : channel ≡ none = ground arith in
          (
            publish serve none r e,
            rw (free, le→leb _ _ few, gone),
            record {
              slots = length-set r.callbacks r.count filled ∙ v.slots;
              in_range = v.in_range;
            },
            refl,
            refl,
            get_elem?-set_ne r.callbacks r.count j filled (λ q. omega arith),
          )
    ]
  where
    filled : Callback
    filled = fill_callback (get_or r.callbacks r.count no_callback) e
