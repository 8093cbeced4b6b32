-- ===== src/Lifecycle/Destroy.antt =====
-- What `pbox_destroy` (src/pbox/pbox.c) gives back of the threads' channels.
use sbox.Prelude.{
  ℕ, ◌+◌, ◌-◌, ◌≡◌, refl, ◌∙◌, ap, sym, List, [], ◌∷◌, ◌++◌, true, false, if◌then◌else◌, arith,
  Bool-cases, ==_iff, inl, inr,
}
use sbox.Threads.{Resource, eq_resource, ThreadChannel, Threads, drop_resource}
use sbox.Lifecycle.{Owned, resources_of, drop_all, destroy_channels, pbox_destroy}

-- How often a resource is held.
unfoldable pub count : Resource → List Resource → ℕ
count r [] = 0
count r (s ∷ rest) = if eq_resource r s then count r rest + 1 else count r rest

-- All that the entries of a vector stand for.
unfoldable pub all_resources : List ThreadChannel → List Resource
all_resources [] = []
all_resources (tch ∷ rest) = resources_of tch ++ all_resources rest

eq_resource_sound : (s t : Resource) → eq_resource s t ≡ true → s ≡ t
unfolding eq_resource
eq_resource_sound (Resource.fd n) (Resource.fd m) e = ap Resource.fd ((==_iff n m).0 e)
eq_resource_sound (Resource.mapping n) (Resource.mapping m) e =
    ap Resource.mapping ((==_iff n m).0 e)
eq_resource_sound (Resource.block n) (Resource.block m) e = ap Resource.block ((==_iff n m).0 e)
eq_resource_sound (Resource.fd n) (Resource.mapping m) e = cc
eq_resource_sound (Resource.fd n) (Resource.block m) e = cc
eq_resource_sound (Resource.mapping n) (Resource.fd m) e = cc
eq_resource_sound (Resource.mapping n) (Resource.block m) e = cc
eq_resource_sound (Resource.block n) (Resource.fd m) e = cc
eq_resource_sound (Resource.block n) (Resource.mapping m) e = cc

count-drop_resource :
    (r s : Resource) (l : List Resource)
    → count r (drop_resource s l) ≡ (if eq_resource r s then count r l - 1 else count r l)
unfolding count drop_resource
count-drop_resource r s [] = ground arith
count-drop_resource r s (t ∷ l) = elim (Bool-cases (eq_resource s t)) [
  | inl same ↦
      let to : eq_resource r t ≡ eq_resource r s =
        ap (eq_resource r) (sym (eq_resource_sound s t same)) in
      rw (same, to) (ground arith)
  | inr other ↦ elim (Bool-cases (eq_resource r s)) [
    | inl rs ↦
        let rt : eq_resource r t ≡ false =
          ap (λ (q : Resource). eq_resource q t) (eq_resource_sound r s rs) ∙ other in
        rw (other, rs, rt) (ground (arith, count-drop_resource r s l, rs))
    | inr not_rs ↦ rw (other, not_rs) (ground (arith, count-drop_resource r s l, not_rs))
  ]
]

pub count-append :
    (r : Resource) (xs ys : List Resource) → count r (xs ++ ys) ≡ count r xs + count r ys
unfolding count
count-append r [] ys = omega arith
count-append r (x ∷ xs) ys = ground (arith, count-append r xs ys)

pub count-drop_all :
    (r : Resource) (xs l : List Resource) → count r (drop_all xs l) ≡ count r l - count r xs
unfolding count drop_all
count-drop_all r [] l = omega arith
count-drop_all r (x ∷ xs) l =
    count-drop_all r xs (drop_resource x l) ∙ ground (arith, count-drop_resource r x l)

count-destroy_channels :
    (r : Resource) (channels : List ThreadChannel) (l : List Resource)
    → count r (destroy_channels channels l) ≡ count r l - count r (all_resources channels)
unfolding count destroy_channels all_resources
count-destroy_channels r [] l = omega arith
count-destroy_channels r (tch ∷ rest) l =
    count-destroy_channels r rest (drop_all (resources_of tch) l)
    ∙ ground (
      arith,
      count-drop_all r (resources_of tch) l,
      count-append r (resources_of tch) (all_resources rest),
    )

-- If the host holds a resource as often as the entries of the vector stand for it, then it does not
-- hold it any more after `pbox_destroy`, which also empties the vector.
pub pbox_destroy_lem :
    (owned : List Owned) (b : Threads) (r : Resource)
    → count r b.held ≡ count r (all_resources b.channels)
    → let b' = (pbox_destroy owned b).1 in (count r b'.held ≡ 0) × (b'.channels ≡ [])
unfolding pbox_destroy
pbox_destroy_lem owned b r same =
    (omega (arith, count-destroy_channels r b.channels b.held, same), refl)
