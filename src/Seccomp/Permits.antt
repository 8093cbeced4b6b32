-- ===== src/Seccomp/Permits.antt =====
-- What the filter of src/pbox/pbox_seccomp.c lets through, call by call.
use sbox.Prelude.{
  ℕ, ◌%◌, ◌^◌, ◌≡◌, refl, List, [], ◌∷◌, ◌++◌, Bool, true, false, ◌&&◌, ◌||◌, some, ◌==◌,
  if◌then◌else◌, arith, Bool-cases, inl, inr,
}
use sbox.Seccomp.Bpf.{SeccompData, Action, Insn, value, run}
use sbox.Seccomp.Base.{
  Platform, Syscall, allow_all, allow_arg, permitted_first, permitted_second, permitted_third,
  base_filter,
}

unfoldable pub among : ℕ → List ℕ → Bool
among n [] = false
among n (m ∷ rest) = n == m || among n rest

-- A call of number `n` whose first argument is `v`, as an int.
unfoldable pub with_arg : SeccompData → ℕ → ℕ → Bool
with_arg d n v = d.nr == n && d.args 0 % 2 ^ 32 == v

-- The calls that the sandbox may make.
unfoldable pub permits : Platform → SeccompData → Bool
permits p d =
    among d.nr (permitted_first p)
    || ((p.has Syscall.socketcall && with_arg d (p.number Syscall.socketcall) p.sys_recvmsg)
        || (among d.nr (permitted_second p)
            || (with_arg d (p.number Syscall.prctl) p.pr_set_seccomp
                || among d.nr (permitted_third p))))

run-allow_all :
    (d : SeccompData) (l : List ℕ) (rest : List Insn)
    → run d 0 d.nr (allow_all l ++ rest)
      ≡ (if among d.nr l then some Action.allow else run d 0 d.nr rest)
unfolding allow_all run among
run-allow_all d [] rest = refl
run-allow_all d (n ∷ l) rest = elim (Bool-cases (d.nr == n)) [
  | inl here ↦ rw (here, run)
  | inr not_here ↦ rw (not_here, run) (run-allow_all d l rest)
]

run-allow_arg :
    (d : SeccompData) (n v : ℕ) (rest : List Insn)
    → run d 0 d.nr (allow_arg n v ++ rest)
      ≡ (if with_arg d n v then some Action.allow else run d 0 d.nr rest)
unfolding allow_arg run value with_arg
run-allow_arg d n v rest = elim (Bool-cases (d.nr == n)) [
  | inl here ↦ elim (Bool-cases (d.args 0 % 2 ^ 32 == v)) [
    | inl fits ↦ rw (here, run) (rw (fits, run))
    | inr other ↦ rw (here, run) (rw (other, run))
  ]
  | inr not_here ↦ rw (not_here, run)
]

-- The same under an `#ifdef`.
run-allow_arg_if :
    (b : Bool) (d : SeccompData) (n v : ℕ) (rest : List Insn)
    → run d 0 d.nr ((if b then allow_arg n v else []) ++ rest)
      ≡ (if b && with_arg d n v then some Action.allow else run d 0 d.nr rest)
run-allow_arg_if true d n v rest = run-allow_arg d n v rest
run-allow_arg_if false d n v rest = refl

any_of_five :
    {A : Type 0} (a b c e f : Bool) (x y : A)
    → (if a
        then some x
        else (if b
            then some x
            else (if c then some x else (if e then some x else (if f then some x else some y)))))
      ≡ some (if a || (b || (c || (e || f))) then x else y)
any_of_five a b c e f x y = ground arith

-- The program behind its architecture check.
abbrev body : Platform → List Insn
body p =
    allow_all (permitted_first p)
    ++ ((if p.has Syscall.socketcall
          then allow_arg (p.number Syscall.socketcall) p.sys_recvmsg
          else [])
        ++ (allow_all (permitted_second p)
            ++ (allow_arg (p.number Syscall.prctl) p.pr_set_seccomp
                ++ (allow_all (permitted_third p) ++ (Insn.ret (Action.errno p.enosys) ∷ [])))))

run-body :
    (p : Platform) (d : SeccompData)
    → run d 0 d.nr (body p) ≡ some (if permits p d then Action.allow else Action.errno p.enosys)
unfolding permits run
run-body p d =
    rw
      (
        run-allow_all d (permitted_first p) _,
        run-allow_arg_if (p.has Syscall.socketcall) d (p.number Syscall.socketcall) p.sys_recvmsg _,
        run-allow_all d (permitted_second p) _,
        run-allow_arg d (p.number Syscall.prctl) p.pr_set_seccomp _,
        run-allow_all d (permitted_third p) _,
      )
      (any_of_five (among d.nr (permitted_first p))
        (p.has Syscall.socketcall && with_arg d (p.number Syscall.socketcall) p.sys_recvmsg)
        (among d.nr (permitted_second p)) (with_arg d (p.number Syscall.prctl) p.pr_set_seccomp)
        (among d.nr (permitted_third p)) Action.allow (Action.errno p.enosys))

-- The filter always returns. It kills a process of another architecture, allows exactly the calls
-- that `permits` names, and fails every other with ENOSYS.
pub run-base_filter :
    (p : Platform) (d : SeccompData)
    → run d 0 0 (base_filter p)
      ≡ some (
          if d.arch == p.audit_arch
          then (if permits p d then Action.allow else Action.errno p.enosys)
          else Action.kill)
unfolding base_filter run value
run-base_filter p d = elim (Bool-cases (d.arch == p.audit_arch)) [
  | inl same ↦ rw (same, run) (run-body p d)
  | inr other ↦ rw (other, run) refl
]
