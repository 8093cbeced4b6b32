-- ===== src/Seccomp/Worker.antt =====
-- `pbox_install_seccomp_worker` of src/pbox/pbox_seccomp.c: the filter of a worker thread.
use sbox.Prelude.{List, [], ◌∷◌, ◌++◌, if◌then◌else◌}
use sbox.Seccomp.Bpf.{Action, Field, Insn}
use sbox.Seccomp.Base.{Platform, Syscall}

-- BPF_SYSCALL_BLOCK
unfoldable pub block_syscall : Platform → Syscall → List Insn
block_syscall p s = Insn.jump_eq (p.number s) 0 1 ∷ Insn.ret (Action.errno p.enosys) ∷ []

unfoldable pub worker_filter : Platform → List Insn
unfolding block_syscall
worker_filter p =
    Insn.load Field.nr
    ∷ (block_syscall p Syscall.clone
        ++ ((if p.has Syscall.clone3 then block_syscall p Syscall.clone3 else [])
            ++ (Insn.ret Action.allow ∷ [])))
