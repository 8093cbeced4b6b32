-- ===== src/Tests/Filters.antt =====
-- System calls under the filters of src/pbox/pbox_seccomp.c.
use sbox.Prelude.{ℕ, ◌≡◌, refl, ◌==◌, true, some, if◌then◌else◌}
use sbox.Seccomp.Bpf.{SeccompData, Action, run}
use sbox.Seccomp.Base.{Platform, Syscall, base_filter}
use sbox.Seccomp.Worker.{worker_filter}
use sbox.Seccomp.Permits.{permits, run-base_filter}
use sbox.Seccomp.Stacked.{IsPrecedence, worker_action, run_stacked}

-- Some of the numbers of x86-64, and one that no call has for the rest.
abbrev number : Syscall → ℕ
number Syscall.close = 3
number Syscall.prctl = 157
number Syscall.clone = 56
number Syscall.clone3 = 435
number s = 1000

abbrev platform : Platform
platform = record {
  audit_arch = 0xC000003E;
  number = number;
  has = λ s. true;
  pr_set_seccomp = 22;
  sys_recvmsg = 17;
  enosys = 38;
}

abbrev clone_call : SeccompData
clone_call = record { nr = 56; arch = 0xC000003E; args = λ n. 0 }

run-base_filter_example :
    run clone_call 0 0 (base_filter platform)
    ≡ some (
        if 0xC000003E == 0xC000003E
        then (if permits platform clone_call then Action.allow else Action.errno 38)
        else Action.kill)
run-base_filter_example = run-base_filter platform clone_call

-- The kernel's choice: KILL before ERRNO before ALLOW, and the first of two errors.
abbrev combine : Action → Action → Action
combine Action.allow b = b
combine Action.kill b = Action.kill
combine (Action.errno e) Action.kill = Action.kill
combine (Action.errno e) b = Action.errno e

allow_right : (a : Action) → combine a Action.allow ≡ a
allow_right Action.allow = refl
allow_right Action.kill = refl
allow_right (Action.errno e) = refl

kill_right : (a : Action) → combine a Action.kill ≡ Action.kill
kill_right Action.allow = refl
kill_right Action.kill = refl
kill_right (Action.errno e) = refl

same : (a : Action) → combine a a ≡ a
same Action.allow = refl
same Action.kill = refl
same (Action.errno e) = refl

combine-IsPrecedence : IsPrecedence combine
combine-IsPrecedence = record {
  allow_left = λ a. refl;
  allow_right = allow_right;
  kill_left = λ a. refl;
  kill_right = kill_right;
  same = same;
}

run_stacked_example :
    (worker base : Action) × (run clone_call 0 0 (worker_filter platform) ≡ some worker)
    × (run clone_call 0 0 (base_filter platform) ≡ some base)
    × (combine worker base ≡ worker_action platform clone_call)
run_stacked_example = run_stacked combine platform clone_call combine-IsPrecedence
