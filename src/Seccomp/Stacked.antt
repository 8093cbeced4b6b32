-- ===== src/Seccomp/Stacked.antt =====
-- A worker thread runs under both filters of src/pbox/pbox_seccomp.c.
use sbox.Prelude.{
  ℕ, ◌≡◌, refl, [], ◌∷◌, ◌++◌, Bool, true, false, ◌&&◌, ◌||◌, not, some, ◌==◌, if◌then◌else◌,
  Bool-cases, inl, inr,
}
use sbox.Seccomp.Bpf.{SeccompData, Action, Insn, value, run}
use sbox.Seccomp.Base.{Platform, Syscall, base_filter}
use sbox.Seccomp.Worker.{worker_filter, block_syscall}
use sbox.Seccomp.Permits.{permits, run-base_filter}

-- `clone`, or `clone3` where the platform has it.
pub spawns : Platform → SeccompData → Bool
spawns p d =
    d.nr == p.number Syscall.clone || (p.has Syscall.clone3 && d.nr == p.number Syscall.clone3)

run_from_clone3 :
    (p : Platform) (d : SeccompData) (b : Bool)
    → run d 0 d.nr
        ((if b then block_syscall p Syscall.clone3 else []) ++ (Insn.ret Action.allow ∷ []))
      ≡ some (if b && d.nr == p.number Syscall.clone3 then Action.errno p.enosys else Action.allow)
unfolding run block_syscall
run_from_clone3 p d true = elim (Bool-cases (d.nr == p.number Syscall.clone3)) [
  | inl is_clone3 ↦ rw (is_clone3, run) refl
  | inr other ↦ rw (other, run) refl
]
run_from_clone3 p d false = refl

-- The worker's filter always returns, and fails exactly the calls that make a thread.
pub run-worker_filter :
    (p : Platform) (d : SeccompData)
    → run d 0 0 (worker_filter p)
      ≡ some (if spawns p d then Action.errno p.enosys else Action.allow)
unfolding worker_filter value run spawns
run-worker_filter p d = elim (Bool-cases (d.nr == p.number Syscall.clone)) [
  | inl is_clone ↦ rw (is_clone, run) refl
  | inr other ↦ rw (other, run) (run_from_clone3 p d (p.has Syscall.clone3))
]

-- What the kernel does with the results of two filters, by seccomp(2): it takes the one of higher
-- precedence, and every other action precedes ALLOW.
pub record IsPrecedence (combine : Action → Action → Action) : Type 0 where
  pub allow_left : (a : Action) → combine Action.allow a ≡ a
  pub allow_right : (a : Action) → combine a Action.allow ≡ a
  pub kill_left : (a : Action) → combine Action.kill a ≡ Action.kill
  pub kill_right : (a : Action) → combine a Action.kill ≡ Action.kill
  pub same : (a : Action) → combine a a ≡ a

-- The action for a call of a worker thread.
abbrev pub worker_action : Platform → SeccompData → Action
worker_action p d =
    if d.arch == p.audit_arch
    then (if permits p d && not (spawns p d) then Action.allow else Action.errno p.enosys)
    else Action.kill

combined :
    (combine : Action → Action → Action)
    → IsPrecedence combine
    → (arch permitted spawning : Bool) (e : ℕ)
    → combine
        (if spawning then Action.errno e else Action.allow)
        (if arch then (if permitted then Action.allow else Action.errno e) else Action.kill)
      ≡ (if arch
          then (if permitted && not spawning then Action.allow else Action.errno e)
          else Action.kill)
combined combine h true true true e = h.allow_right (Action.errno e)
combined combine h true true false e = h.allow_left Action.allow
combined combine h true false true e = h.same (Action.errno e)
combined combine h true false false e = h.allow_left (Action.errno e)
combined combine h false p true e = h.kill_right (Action.errno e)
combined combine h false p false e = h.allow_left Action.kill

-- Under both filters, whose results the kernel combines by its precedence of actions, a worker
-- may make exactly the calls that the sandbox may make, less those that make a thread.
pub run_stacked :
    (combine : Action → Action → Action) (p : Platform) (d : SeccompData)
    → IsPrecedence combine
    → (worker base : Action) × (run d 0 0 (worker_filter p) ≡ some worker)
      × (run d 0 0 (base_filter p) ≡ some base)
      × (combine worker base ≡ worker_action p d)
run_stacked combine p d h = (
  _,
  _,
  run-worker_filter p d,
  run-base_filter p d,
  combined combine h (d.arch == p.audit_arch) (permits p d) (spawns p d) p.enosys,
)
