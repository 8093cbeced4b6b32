-- ===== src/Lfi/Engine/Ledger.antt =====
-- Nothing that the LFI runtime made is lost (src/sbox_lfi.cc).
use sbox.Prelude.{ℕ, ◌≡◌, ◌≢◌, ◌⊎◌, List, [], ◌∷◌, Option, some, none, arith}
use sbox.Identity.{drop_addr}
use sbox.Lfi.Engine.{
  Live, Manager, EngineAnswers, add, create_engine, init, ensure, get, free_linux_engine,
  free_engine, destroy, Sandbox, CreateAnswers, destroy_sandbox, create_sandbox,
}

-- One call of a client, with the runtime's answers.
pub data Op : Type 0 where
  op_init op_get : EngineAnswers → Op
  op_destroy : Op

abbrev pub step : Manager → Op → Manager
step m (op_init ans) = (init ans m).0
step m (op_get ans) = (get ans m).0
step m op_destroy = destroy m

abbrev pub run : Manager → List Op → Manager
run m [] = m
run m (op ∷ ops) = run (step m op) ops

-- Both engines or none, and just those are live.
abbrev pub Holds : ℕ → ℕ → List ℕ → List ℕ → Type 0
Holds engine linux engines linux_engines =
    ((engine ≡ 0) × (linux ≡ 0) × (engines ≡ []) × (linux_engines ≡ []))
    ⊎ ((engine ≢ 0) × (linux ≢ 0) × (engines ≡ engine ∷ []) × (linux_engines ≡ linux ∷ []))

abbrev pub IsValid : Manager → Type 0
IsValid m = Holds m.engine m.linux_engine m.live.engines m.live.linux_engines

drop_only : (a : ℕ) → drop_addr a (a ∷ []) ≡ []
unfolding drop_addr
drop_only a = ground arith

drop_first : (a : ℕ) (l : List ℕ) → drop_addr a (a ∷ l) ≡ l
unfolding drop_addr
drop_first a l = ground arith

create_engine-IsValid :
    (ans : EngineAnswers) (m : Manager) → m.engine ≡ 0 → IsValid m → IsValid (create_engine ans m).0
unfolding create_engine
create_engine-IsValid ans m none_yet v = ground (arith, drop_first ans.new_engine m.live.engines)

step-IsValid : (m : Manager) (op : Op) → IsValid m → IsValid (step m op)
unfolding init get ensure destroy free_engine free_linux_engine
step-IsValid m (op_init ans) v = ground (arith, create_engine-IsValid ans m)
step-IsValid m (op_get ans) v = ground (arith, create_engine-IsValid ans m)
step-IsValid m op_destroy v = ground (arith, drop_only m.engine, drop_only m.linux_engine)

-- From a manager without engines, whatever calls of `init`, `get` and `destroy` follow one another and
-- whatever the runtime answers, there are two engines or none, both live, and no other engine is
-- live: a failed creation frees the half that it made, and no engine is made over a live one.
pub run-IsValid : (m : Manager) (ops : List Op) → IsValid m → IsValid (run m ops)
run-IsValid m [] v = v
run-IsValid m (op ∷ ops) v = run-IsValid (step m op) ops (step-IsValid m op v)

-- A failure leaves what was there; a sandbox adds its process and its thread, which its destructor
-- frees.
abbrev pub Balanced : Live → Live → Option Sandbox → Type 0
Balanced live live' none = live' ≡ live
Balanced live live' (some sb) =
    (live'.procs ≡ sb.proc ∷ live.procs)
    × (live'.threads ≡ sb.main_thread ∷ live.threads)
    × (destroy_sandbox sb live' ≡ live)

-- A sandbox's whole life. If its creation fails, no process and no thread of the runtime is left
-- behind; if it succeeds, both are live until the destructor has freed them, after which those are live
-- that were before.
pub create_sandbox-Balance :
    (ans : CreateAnswers) (linux_engine : ℕ) (live : Live)
    → let (live', result) = create_sandbox ans linux_engine live in Balanced live live' result
unfolding create_sandbox destroy_sandbox add
create_sandbox-Balance ans linux_engine live =
    ground (arith, drop_first ans.proc live.procs, drop_first ans.thread live.threads)
