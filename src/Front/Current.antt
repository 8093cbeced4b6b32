-- ===== src/Front/Current.antt =====
-- `tls_current_sandbox` of include/sbox/sbox.hh: the calls of all backends set it but one, and the thunks
-- of callbacks that take the sandbox read it.
use mathlib.Core.Path.{subst}
use sbox.Prelude.{ℕ, ◌≡◌, refl, sym, ◌∙◌, ap, List, [], ◌∷◌, All}
use sbox.Front.Callback.{with_sandbox, callback_thunk}

-- What happens on a thread: a call into a sandbox (`call_impl`, `call_ptr`, the passthrough backend's
-- `call`), a call by pointer with a context of the passthrough backend, or the return from one.
pub data Event : Type 0 where
  call : ℕ → Event
  call_with_context : ℕ → Event
  return : Event

-- The variable, and the sandboxes whose code is running, innermost first; NULL is 0.
pub record Thread : Type 0 where
  pub tls_current_sandbox : ℕ
  pub running : List ℕ

-- `thread_local void* tls_current_sandbox = nullptr`
abbrev pub fresh : Thread
fresh = record { tls_current_sandbox = 0; running = [] }

abbrev pub pop : List ℕ → List ℕ
pop [] = []
pop (s ∷ rest) = rest

-- A call sets the variable, but for the one with a context; a return leaves it.
unfoldable pub step : Thread → Event → Thread
step t (call s) = record { tls_current_sandbox = s; running = s ∷ t.running }
step t (call_with_context s) = record t { running = s ∷ t.running }
step t return = record t { running = pop t.running }

unfoldable pub run : Thread → List Event → Thread
run t [] = t
run t (e ∷ events) = run (step t e) events

-- All calls go into one sandbox and set the variable.
abbrev pub OnlyInto : ℕ → Event → Type 0
OnlyInto s (call other) = other ≡ s
OnlyInto s (call_with_context other) = ⊥
OnlyInto s return = Unit

-- The sandbox that is running is the current one.
abbrev IsCurrent : ℕ → Thread → Type 0
IsCurrent s t = All (λ (r : ℕ). (r ≡ s) × (t.tls_current_sandbox ≡ s)) t.running

All-current :
    (s before now : ℕ) (running : List ℕ)
    → now ≡ s
    → All (λ (r : ℕ). (r ≡ s) × (before ≡ s)) running
    → All (λ (r : ℕ). (r ≡ s) × (now ≡ s)) running
All-current s before now [] e h = tt
All-current s before now (r ∷ running) e ((first, f), h) =
    ((first, e), All-current s before now running e h)

pop-All :
    (s other : ℕ) (running : List ℕ)
    → All (λ (r : ℕ). (r ≡ s) × (other ≡ s)) running
    → All (λ (r : ℕ). (r ≡ s) × (other ≡ s)) (pop running)
pop-All s other [] h = tt
pop-All s other (r ∷ running) h = h.1

step-IsCurrent :
    (s : ℕ) (t : Thread) (e : Event) → OnlyInto s e → IsCurrent s t → IsCurrent s (step t e)
unfolding step
step-IsCurrent s t (call other) only h =
    ((only, only), All-current s t.tls_current_sandbox other t.running only h)
step-IsCurrent s t (call_with_context other) only h = absurd only
step-IsCurrent s t return only h = pop-All s t.tls_current_sandbox t.running h

run-IsCurrent :
    (s : ℕ) (t : Thread) (events : List Event)
    → All (OnlyInto s) events
    → IsCurrent s t
    → IsCurrent s (run t events)
unfolding run
run-IsCurrent s t [] only h = h
run-IsCurrent s t (e ∷ events) (first, only) h =
    run-IsCurrent s (step t e) events only (step-IsCurrent s t e first h)

inside :
    (s r : ℕ) (rest : List ℕ) (t : Thread)
    → t.running ≡ r ∷ rest
    → IsCurrent s t
    → t.tls_current_sandbox ≡ r
inside s r rest t e h =
    let here : (r ≡ s) × (t.tls_current_sandbox ≡ s) =
      (subst (λ (l : List ℕ). All (λ (x : ℕ). (x ≡ s) × (t.tls_current_sandbox ≡ s)) l) e h).0 in
    here.1 ∙ sym here.0

-- On a thread whose calls all set the variable and go into one sandbox, however they nest, a callback that takes the
-- sandbox is given the sandbox whose code called it.
pub run-current :
    (s r : ℕ) (rest : List ℕ) (events : List Event) (fn : ℕ → List (List ℕ) → List ℕ)
    (args : List (List ℕ))
    → All (OnlyInto s) events
    → (run fresh events).running ≡ r ∷ rest
    → callback_thunk (with_sandbox fn) (run fresh events).tls_current_sandbox args ≡ fn r args
unfolding callback_thunk
run-current s r rest events fn args only running =
    ap (λ (x : ℕ). fn x args)
      (inside s r rest (run fresh events) running (run-IsCurrent s fresh events only tt))

-- When code of sandbox `a` has made a callback that called into sandbox `b`, and that call has
-- returned, the next callback that `a` makes is given `b`, whatever the thread did before.
pub run-current_nested :
    (a b : ℕ) (t : Thread) (fn : ℕ → List (List ℕ) → List ℕ) (args : List (List ℕ))
    → let t' = run t (call a ∷ call b ∷ return ∷ []) in
      (t'.running ≡ a ∷ t.running)
      × (callback_thunk (with_sandbox fn) t'.tls_current_sandbox args ≡ fn b args)
unfolding run step callback_thunk
run-current_nested a b t fn args = (refl, refl)

-- A callback out of a call by pointer with a passthrough context is given the sandbox that the thread
-- called before, not the one whose code calls it.
pub call_with_context-current :
    (a : ℕ) (t : Thread) (fn : ℕ → List (List ℕ) → List ℕ) (args : List (List ℕ))
    → let t' = step t (call_with_context a) in
      (t'.running ≡ a ∷ t.running)
      × (callback_thunk (with_sandbox fn) t'.tls_current_sandbox args
          ≡ fn t.tls_current_sandbox args)
unfolding step callback_thunk
call_with_context-current a t fn args = (refl, refl)
