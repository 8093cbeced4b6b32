-- ===== src/Lifecycle/Creations.antt =====
-- The host holds what the entries of the vector stand for, also when threads come (src/pbox/pbox.c).
use sbox.Prelude.{◌+◌, ◌≡◌, ◌∙◌, ap, sym, List, [], ◌∷◌, ◌++◌, true, ◌==◌, arith, inl, inr}
use sbox.Idmem.{Arena}
use sbox.Threads.{Resource, ThreadChannel, Threads, Answers, create_channel_locked}
use sbox.Threads.Create.{Created, create_channel_locked_lem}
use sbox.Lifecycle.{resources_of}
use sbox.Lifecycle.Destroy.{count, all_resources, count-append}

-- The host holds `r` as often as the entries of the vector stand for it.
abbrev pub Balanced : Resource → Threads → Type 0
Balanced r b = count r b.held ≡ count r (all_resources b.channels)

all_resources-snoc :
    (r : Resource) (l : List ThreadChannel) (t : ThreadChannel)
    → count r (all_resources (l ++ (t ∷ []))) ≡ count r (all_resources l) + count r (resources_of t)
unfolding all_resources
all_resources-snoc r [] t = count-append r (resources_of t) [] ∙ (unfold count in omega arith)
all_resources-snoc r (x ∷ l) t = omega (
  arith,
  count-append r (resources_of x) (all_resources (l ++ (t ∷ []))),
  count-append r (resources_of x) (all_resources l),
  all_resources-snoc r l t,
)

-- An entry without an arena stands for its channel, its descriptor and its memory.
count-resources_of :
    (r : Resource) (t : ThreadChannel)
    → (t.idmem.base == 0) ≡ true
    → count r (Resource.block t.addr ∷ Resource.mapping t.channel ∷ Resource.fd t.shm_fd ∷ [])
      ≡ count r (resources_of t)
unfolding count resources_of
count-resources_of r t no_arena = rw no_arena (ground arith)

Created-Balanced :
    (r : Resource) (b b' : Threads) (t : ThreadChannel)
    → Created b b' t
    → Balanced r b
    → Balanced r b'
Created-Balanced r b b' t made before =
    ap (count r) made.held
    ∙ count-append r
        (Resource.block t.addr ∷ Resource.mapping t.channel ∷ Resource.fd t.shm_fd ∷ []) b.held
    ∙ omega (
      arith,
      before,
      count-resources_of r t (ap (λ (a : Arena). a.base == 0) made.no_arena),
      all_resources-snoc r b.channels t,
    )
    ∙ ap (λ (l : List ThreadChannel). count r (all_resources l)) (sym made.channels)

-- As `pbox_create` leaves the vector.
abbrev pub no_threads : Threads
no_threads = record { channels = []; cap = 0; held = []; workers = [] }

-- A creation keeps the balance, whatever the system answers.
pub create-Balanced :
    (r : Resource) (ans : Answers) (b : Threads)
    → Balanced r b
    → Balanced r (create_channel_locked ans b).0
create-Balanced r ans b before = elim (create_channel_locked_lem ans b) [
  | inl (failed, same) ↦ rw same before
  | inr (t, made, created) ↦ Created-Balanced r b _ t created before
]
