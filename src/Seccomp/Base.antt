-- ===== src/Seccomp/Base.antt =====
-- `pbox_install_seccomp` of src/pbox/pbox_seccomp.c: the filter of the whole sandbox.
use sbox.Prelude.{ℕ, List, [], ◌∷◌, ◌++◌, Bool, if◌then◌else◌}
use sbox.Seccomp.Bpf.{Action, Field, Insn}

-- The system calls that the filters name.
pub data Syscall : Type 0 where
  brk mmap munmap mprotect mremap madvise : Syscall
  close recvmsg socketcall : Syscall
  futex futex_waitv set_tid_address set_robust_list get_robust_list rseq : Syscall
  rt_sigaction rt_sigprocmask rt_sigreturn sigaltstack : Syscall
  exit exit_group arch_prctl prctl : Syscall
  getpid gettid getuid geteuid getgid getegid : Syscall
  getrandom clock_gettime clock_getres gettimeofday nanosleep clock_nanosleep : Syscall
  sched_yield sched_getaffinity clone clone3 tgkill membarrier : Syscall

-- What the kernel's headers define: numbers, and which of them there are (`#ifdef`).
pub record Platform : Type 0 where
  pub audit_arch : ℕ
  pub number : Syscall → ℕ
  pub has : Syscall → Bool
  pub pr_set_seccomp : ℕ
  pub sys_recvmsg : ℕ
  pub enosys : ℕ

-- BPF_SYSCALL_ALLOW
unfoldable pub allow_syscall : ℕ → List Insn
allow_syscall n = Insn.jump_eq n 0 1 ∷ Insn.ret Action.allow ∷ []

-- BPF_SYSCALL_ALLOW for each number.
unfoldable pub allow_all : List ℕ → List Insn
unfolding allow_syscall
allow_all [] = []
allow_all (n ∷ rest) = allow_syscall n ++ allow_all rest

-- Allow one call only with the given first argument, then load the number again.
unfoldable pub allow_arg : ℕ → ℕ → List Insn
allow_arg n v =
    Insn.jump_eq n 0 3
    ∷ Insn.load (Field.arg 0)
    ∷ Insn.jump_eq v 0 1
    ∷ Insn.ret Action.allow
    ∷ Insn.load Field.nr
    ∷ []

module _ (p : Platform) where
  open p use {number, has}

  -- `#ifdef __NR_x`
  abbrev pub if_defined : Syscall → List ℕ
  if_defined s = if has s then number s ∷ [] else []

  -- "Memory management" and "File descriptors".
  abbrev pub permitted_first : List ℕ
  permitted_first =
      number Syscall.brk
      ∷ number Syscall.mmap
      ∷ number Syscall.munmap
      ∷ number Syscall.mprotect
      ∷ number Syscall.mremap
      ∷ number Syscall.madvise
      ∷ number Syscall.close
      ∷ number Syscall.recvmsg
      ∷ []

  -- "Threading", "Signals", "Process exit" and "Architecture".
  abbrev pub permitted_second : List ℕ
  permitted_second =
      number Syscall.futex
      ∷ (if_defined Syscall.futex_waitv
          ++ (number Syscall.set_tid_address
              ∷ number Syscall.set_robust_list
              ∷ number Syscall.get_robust_list
              ∷ (if_defined Syscall.rseq
                  ++ (number Syscall.rt_sigaction
                      ∷ number Syscall.rt_sigprocmask
                      ∷ number Syscall.rt_sigreturn
                      ∷ number Syscall.sigaltstack
                      ∷ number Syscall.exit
                      ∷ number Syscall.exit_group
                      ∷ if_defined Syscall.arch_prctl))))

  -- "Safe information queries" and all below.
  abbrev pub permitted_third : List ℕ
  permitted_third =
      number Syscall.getpid
      ∷ number Syscall.gettid
      ∷ number Syscall.getuid
      ∷ number Syscall.geteuid
      ∷ number Syscall.getgid
      ∷ number Syscall.getegid
      ∷ number Syscall.getrandom
      ∷ number Syscall.clock_gettime
      ∷ number Syscall.clock_getres
      ∷ number Syscall.gettimeofday
      ∷ number Syscall.nanosleep
      ∷ (if_defined Syscall.clock_nanosleep
          ++ (number Syscall.sched_yield
              ∷ number Syscall.sched_getaffinity
              ∷ number Syscall.clone
              ∷ (if_defined Syscall.clone3
                  ++ (if_defined Syscall.tgkill ++ if_defined Syscall.membarrier))))

  unfoldable pub base_filter : List Insn
  base_filter =
      Insn.load Field.arch
      ∷ Insn.jump_eq p.audit_arch 1 0
      ∷ Insn.ret Action.kill
      ∷ Insn.load Field.nr
      ∷ (allow_all permitted_first
          ++ ((if has Syscall.socketcall
                then allow_arg (number Syscall.socketcall) p.sys_recvmsg
                else [])
              ++ (allow_all permitted_second
                  ++ (allow_arg (number Syscall.prctl) p.pr_set_seccomp
                      ++ (allow_all permitted_third ++ (Insn.ret (Action.errno p.enosys) ∷ []))))))
