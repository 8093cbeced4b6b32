-- ===== src/Lfi/Stack/Contexts.antt =====
-- The contexts that threads run sandbox code on (src/sbox_lfi.cc).
use sbox.Prelude.{
  ℕ_discrete, ℕ, ◌≡◌, ◌≢◌, refl, ap, ◌∙◌, [], ◌∷◌, ◌++◌, Bool, true, false, Option, some, none,
  if◌then◌else◌, ◌==◌, arith,
}
use sbox.Lfi.Stack.{
  Entries, entry_of, set_entry, found_entry, get_thread_ctx, clone_if_missing, call_ctx,
}

entry_of-append :
    (box other ctx : ℕ) (entries : Entries)
    → entry_of box entries ≡ none
    → (entry_of box (entries ++ ((box, ctx) ∷ [])) ≡ some ctx)
      × (other ≢ box → entry_of other (entries ++ ((box, ctx) ∷ [])) ≡ entry_of other entries)
unfolding entry_of
entry_of-append box other ctx [] e = (ground arith, λ n. ground arith)
entry_of-append box other ctx ((b, c) ∷ rest) e =
    let there = entry_of-append box other ctx rest in
    (ground (arith, there), λ n. ground (arith, there))

entry_of-set_entry :
    (box other ctx old : ℕ) (entries : Entries)
    → entry_of box entries ≡ some old
    → (entry_of box (set_entry box ctx entries) ≡ some ctx)
      × (other ≢ box → entry_of other (set_entry box ctx entries) ≡ entry_of other entries)
unfolding entry_of set_entry
entry_of-set_entry box other ctx old [] e = cc
entry_of-set_entry box other ctx old ((b, c) ∷ rest) e =
    let there = entry_of-set_entry box other ctx old rest in
    (ground (arith, there), λ n. ground (arith, there))

-- A search that fails adds an entry, and no search changes another box's.
got :
    (box other : ℕ) (is_main : Bool) (main_ctx : ℕ) (entries : Entries) (found : Option ℕ)
    → entry_of box entries ≡ found
    → other ≢ box
    → let (entries1, ctx) = found_entry box is_main main_ctx entries found in
      (entry_of box entries1 ≡ some ctx) × (entry_of other entries1 ≡ entry_of other entries)
unfolding found_entry
got box other is_main main_ctx entries (some ctx) e n = (e, refl)
got box other is_main main_ctx entries none e n =
    let there = entry_of-append box other (if is_main then main_ctx else 0) entries e in
    (there.0, there.1 n)

cloned :
    (box other clone : ℕ) (entries entries1 : Entries) (ctx : ℕ)
    → clone ≢ 0
    → other ≢ box
    → entry_of box entries1 ≡ some ctx
    → entry_of other entries1 ≡ entry_of other entries
    → (entries' : Entries) × (ctx' : ℕ) × (clone_if_missing box clone (entries1, ctx)
        ≡ some (entries', ctx'))
      × (ctx' ≢ 0)
      × (entry_of box entries' ≡ some ctx')
      × (entry_of other entries' ≡ entry_of other entries)
unfolding clone_if_missing
cloned box other clone entries entries1 ctx made n at kept = elim (ℕ_discrete ctx 0) [
  | yes missing ↦
      let there = entry_of-set_entry box other clone ctx entries1 at in
      let absent : (ctx == 0) ≡ true = ground arith in
      let present : (clone == 0) ≡ false = ground arith in
      (
        set_entry box clone entries1,
        clone,
        rw (absent, present) refl,
        made,
        there.0,
        there.1 n ∙ kept,
      )
  | no there ↦
      let present : (ctx == 0) ≡ false = ground arith in
      (entries1, ctx, rw present refl, there, at, kept)
]

again :
    (box : ℕ) (is_main : Bool) (main_ctx : ℕ) (entries : Entries) (ctx : ℕ)
    → entry_of box entries ≡ some ctx
    → get_thread_ctx box is_main main_ctx entries ≡ (entries, ctx)
unfolding get_thread_ctx found_entry
again box is_main main_ctx entries ctx e = ap (found_entry box is_main main_ctx entries) e

-- When the runtime can clone, a call on any thread finds a context for its box: one that is there, or a
-- clone that is kept, so that `get_thread_ctx` answers with it from then on. The entry of any other
-- box stays as it was.
pub call_ctx_lem :
    (box other : ℕ) (is_main : Bool) (main_ctx clone : ℕ) (entries : Entries)
    → clone ≢ 0
    → other ≢ box
    → (entries' : Entries) × (ctx : ℕ) × (call_ctx box is_main main_ctx clone entries
        ≡ some (entries', ctx))
      × (ctx ≢ 0)
      × (get_thread_ctx box is_main main_ctx entries' ≡ (entries', ctx))
      × (entry_of other entries' ≡ entry_of other entries)
unfolding call_ctx get_thread_ctx
call_ctx_lem box other is_main main_ctx clone entries made n =
    let first = found_entry box is_main main_ctx entries (entry_of box entries) in
    let (at, kept) = got box other is_main main_ctx entries (entry_of box entries) refl n in
    let (entries', ctx, runs, there, at', kept') =
      cloned box other clone entries first.0 first.1 made n at kept in
    (entries', ctx, runs, there, again box is_main main_ctx entries' ctx at', kept')
