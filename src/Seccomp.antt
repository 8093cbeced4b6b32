-- ===== src/Seccomp.antt =====
-- src/pbox/pbox_seccomp.c: the two system-call filters, as programs of the classic BPF instruction
-- set that they are written in.
pub mod Bpf
pub mod Base
pub mod Worker
pub mod Permits
pub mod Stacked
