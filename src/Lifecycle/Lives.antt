-- ===== src/Lifecycle/Lives.antt =====
-- Threads come, allocate identity memory and go, and the box is destroyed (src/pbox/pbox.c).
use sbox.Prelude.{
  ℕ, ◌+◌, ◌≡◌, ◌⊎◌, inl, inr, refl, sym, ◌∙◌, ap, List, [], ◌∷◌, true, false, Bool-cases, Option,
  none, some, ◌==◌, if◌then◌else◌, get_elem?, set, arith,
}
use sbox.Idmem.{Arena, idmem_alloc, ensure_mapped, bump}
use sbox.Threads.{
  Resource, ThreadChannel, Threads, Answers, create_channel_locked, index_channel, unlist,
  channel_destructor, release, unwind, tell_exit,
}
use sbox.Lifecycle.{Owned, resources_of, drop_all, pbox_destroy}
use sbox.Lifecycle.Destroy.{count, all_resources, count-drop_all, pbox_destroy_lem}
use sbox.Lifecycle.Creations.{Balanced, no_threads, create-Balanced}
use sbox.Lifecycle.Entries.{weight, total, total-set, total-unlist}

-- What a first allocation adds to what is held.
abbrev pub hold_arena : Arena → Arena → List Resource → List Resource
hold_arena old new held =
    if old.base == 0
    then (if new.base == 0 then held else Resource.mapping new.base ∷ held)
    else held

-- `pbox_idmem_alloc` by the thread of the entry at index `i`; `mmap_identity` is the address that
-- `pbox_mmap_identity` returns, where it has mapped that region on the host's side.
unfoldable pub alloc_at : (ℕ → ℕ) → (requested i : ℕ) → Option ThreadChannel → Threads → Threads
alloc_at mmap_identity requested i none b = b
alloc_at mmap_identity requested i (some tch) b =
    let arena = (idmem_alloc mmap_identity tch.idmem requested).0 in
    record b {
      channels = set b.channels i (record tch { idmem = arena });
      held = hold_arena tch.idmem arena b.held;
    }

unfoldable pub exit_of : Option ThreadChannel → Threads → Threads
exit_of none b = b
exit_of (some tch) b = channel_destructor tch b

-- A thread asks for a channel, or the one whose entry has an address allocates or exits.
pub data Event : Type 0 where
  create : Answers → Event
  alloc : (mmap_identity : ℕ → ℕ) (addr requested : ℕ) → Event
  thread_exit : (addr : ℕ) → Event

unfoldable pub step : Event → Threads → Threads
step (create ans) b = (create_channel_locked ans b).0
step (alloc mmap_identity addr requested) b =
    let i = index_channel b.channels addr in
    alloc_at mmap_identity requested i (get_elem? b.channels i) b
step (thread_exit addr) b = exit_of (get_elem? b.channels (index_channel b.channels addr)) b

unfoldable pub run : List Event → Threads → Threads
run [] b = b
run (e ∷ events) b = run events (step e b)

base_kept :
    (a : Arena) (requested : ℕ) (o : Option Arena)
    → o ≡ some a
    → (elim o as (λ (x : Option Arena). Arena × ℕ) [
      | none ↦ (a, 0)
      | some b ↦ bump b requested
    ]).0.base
      ≡ a.base
unfolding bump
base_kept a requested none e = cc
base_kept a requested (some b) e =
    let same : b ≡ a = cc in
    let base : b.base ≡ a.base = ap (λ (x : Arena). x.base) same in ground arith

-- A mapped arena keeps its base.
idmem_alloc-base :
    (mmap_identity : ℕ → ℕ) (a : Arena) (requested : ℕ)
    → (a.base == 0) ≡ false
    → (idmem_alloc mmap_identity a requested).0.base ≡ a.base
unfolding idmem_alloc ensure_mapped
idmem_alloc-base mmap_identity a requested h =
    base_kept a requested (ensure_mapped mmap_identity a) (rw h refl)

abbrev Kept : Arena → Arena → Type 0
Kept old new = ((old.base == 0) ≡ true) ⊎ (((old.base == 0) ≡ false) × (new.base ≡ old.base))

-- What is held grows as what the entry stands for.
count-hold_arena :
    (r : Resource) (tch : ThreadChannel) (arena : Arena) (held : List Resource)
    → Kept tch.idmem arena
    → count r (hold_arena tch.idmem arena held) + weight r tch
      ≡ count r held + weight r (record tch { idmem = arena })
unfolding count resources_of
count-hold_arena r tch arena held (inl fresh) = elim (Bool-cases (arena.base == 0)) [
  | inl none_yet ↦ rw (fresh, none_yet) refl
  | inr mapped ↦ rw (fresh, mapped) (ground arith)
]
count-hold_arena r tch arena held (inr (mapped, same)) =
    let still : (arena.base == 0) ≡ false = ap (λ (x : ℕ). x == 0) same ∙ mapped in
    rw (mapped, still, same) refl

alloc_at-Balanced :
    (r : Resource) (mmap_identity : ℕ → ℕ) (requested i : ℕ) (o : Option ThreadChannel)
    (b : Threads)
    → get_elem? b.channels i ≡ o
    → Balanced r b
    → Balanced r (alloc_at mmap_identity requested i o b)
unfolding alloc_at
alloc_at-Balanced r mmap_identity requested i none b e before = before
alloc_at-Balanced r mmap_identity requested i (some tch) b e before =
    let arena = (idmem_alloc mmap_identity tch.idmem requested).0 in
    let kept : Kept tch.idmem arena = elim (Bool-cases (tch.idmem.base == 0)) [
      | inl fresh ↦ inl fresh
      | inr mapped ↦ inr (mapped, idmem_alloc-base mmap_identity tch.idmem requested mapped)
    ] in
    omega (
      arith,
      before,
      count-hold_arena r tch arena b.held kept,
      total-set r b.channels i tch (record tch { idmem = arena }) e,
    )

-- The destructor gives back what the entry stands for.
held-destructor :
    (tch : ThreadChannel) (b : Threads)
    → (channel_destructor tch b).held ≡ drop_all (resources_of tch) b.held
unfolding channel_destructor release unwind tell_exit resources_of drop_all
held-destructor tch b = elim (Bool-cases (tch.idmem.base == 0)) [
  | inl no_arena ↦ rw no_arena refl
  | inr arena ↦ rw arena refl
]

channels-destructor :
    (tch : ThreadChannel) (b : Threads)
    → (channel_destructor tch b).channels ≡ unlist b.channels tch
unfolding channel_destructor release unwind tell_exit
channels-destructor tch b = elim (Bool-cases (tch.idmem.base == 0)) [
  | inl no_arena ↦ rw no_arena refl
  | inr arena ↦ rw arena refl
]

exit_of-Balanced :
    (r : Resource) (addr : ℕ) (o : Option ThreadChannel) (b : Threads)
    → get_elem? b.channels (index_channel b.channels addr) ≡ o
    → Balanced r b
    → Balanced r (exit_of o b)
unfolding exit_of
exit_of-Balanced r addr none b e before = before
exit_of-Balanced r addr (some tch) b e before =
    ap (count r) (held-destructor tch b)
    ∙ omega (
      arith,
      before,
      count-drop_all r (resources_of tch) b.held,
      total-unlist r b.channels addr tch e,
    )
    ∙ ap (total r) (sym (channels-destructor tch b))

step-Balanced : (r : Resource) (e : Event) (b : Threads) → Balanced r b → Balanced r (step e b)
unfolding step
step-Balanced r (create ans) b before = create-Balanced r ans b before
step-Balanced r (alloc mmap_identity addr requested) b before =
    alloc_at-Balanced r mmap_identity requested (index_channel b.channels addr) _ b refl before
step-Balanced r (thread_exit addr) b before = exit_of-Balanced r addr _ b refl before

run-Balanced :
    (r : Resource) (events : List Event) (b : Threads) → Balanced r b → Balanced r (run events b)
unfolding run
run-Balanced r [] b before = before
run-Balanced r (e ∷ events) b before = run-Balanced r events (step e b) (step-Balanced r e b before)

-- However threads ask for channels, allocate identity memory and exit, and whatever the system answers
-- each of them, after `pbox_destroy` the host holds no resource `r` of any channel: no channel's or
-- arena's mapping, no descriptor and no entry's memory.
pub run_destroy :
    (events : List Event) (owned : List Owned) (r : Resource)
    → count r (pbox_destroy owned (run events no_threads)).1.held ≡ 0
run_destroy events owned r =
    (pbox_destroy_lem owned (run events no_threads) r
      (run-Balanced r events no_threads (unfold count all_resources in refl))).0
