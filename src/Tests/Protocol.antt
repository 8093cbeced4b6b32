-- ===== src/Tests/Protocol.antt =====
-- One call with a callback, step by step, and a box's life (src/pbox/pbox.c, src/pbox/pbox_sandbox.c).
use sbox.Prelude.{◌≡◌, refl, true, false, ◌&&◌, [], ◌∷◌, if◌then◌else◌, arith, List, pos, some}
use sbox.Channel.{State}
use sbox.Protocol.{Host, Worker, Conf, Move, Step, Reach, host_owns, worker_owns}
use sbox.Protocol.Agree.{exclusive, answers_match}
use sbox.Protocol.Progress.{waiting_hangs}
use sbox.Threads.{
  eq_resource, Resource, create_channel_locked, create_from, map_channel, share_channel,
  allocate_entry, append_channel, acquire, spawn, index_channel, channel_destructor, release,
  unwind, tell_exit, drop_resource,
}
use sbox.Lifecycle.{resources_of, Owned, Answers, pbox_create, pbox_destroy}
use sbox.Lifecycle.Create.{fork_fails, all_succeed, pbox_create_lem}
use sbox.Lifecycle.Destroy.{count, all_resources, pbox_destroy_lem}
use sbox.Lifecycle.Creations.{no_threads}
use sbox.Lifecycle.Lives.{
  Event, create, alloc, thread_exit, step, run, alloc_at, exit_of, run_destroy,
}
use sbox.Idmem.{align16, idmem_alloc, ensure_mapped, bump}
use sbox.Tests.Threads.{one_thread, granted}

-- The host asks, the sandbox takes the request and calls back, and the host runs the callback.
abbrev in_callback : Conf
in_callback = record {
  word = State.callback;
  host = Host.calling;
  worker = Worker.in_callback;
  heeds = true;
  depth = 0;
  reentered = false;
  called = 1;
  answered = 0;
}

called_back-Reach : Reach false in_callback
called_back-Reach =
    Reach.later
      (Reach.later
        (Reach.later (Reach.later Reach.start (Step.move (Move.request true refl)))
          (Step.move (Move.take refl refl)))
        (Step.move (Move.call_back refl)))
      (Step.move (Move.dispatch refl refl refl))

-- The callback ends, the sandbox goes on and answers.
abbrev answered_call : Conf
answered_call = record {
  word = State.response;
  host = Host.waiting;
  worker = Worker.looping;
  heeds = true;
  depth = 0;
  reentered = false;
  called = 1;
  answered = 1;
}

answered-Reach : Reach false answered_call
answered-Reach =
    Reach.later
      (Reach.later (Reach.later called_back-Reach (Step.move (Move.call_back_done refl)))
        (Step.move (Move.resume refl refl)))
      (Step.move (Move.respond refl))

exclusive_example : host_owns Host.calling && worker_owns Worker.in_callback ≡ false
exclusive_example = exclusive called_back-Reach

answers_match_example :
    (answered_call.called ≡ answered_call.answered) × (answered_call.host ≡ Host.waiting)
answers_match_example = answers_match answered-Reach (λ e. ground arith) refl refl

-- The sandbox died with a request open.
abbrev abandoned : Conf
abandoned = record {
  word = State.request;
  host = Host.waiting;
  worker = Worker.killed;
  heeds = true;
  depth = 0;
  reentered = false;
  called = 1;
  answered = 0;
}

still_dead : Step false abandoned abandoned
still_dead = Step.die

waiting_hangs_example :
    (abandoned.worker ≡ Worker.killed)
    × (abandoned.host ≡ Host.waiting)
    × (abandoned.word ≡ State.request)
waiting_hangs_example = waiting_hangs still_dead refl refl refl

-- Every call succeeds but the fork.
abbrev no_fork : Answers
no_fork = record {
  malloc = true;
  fd_lock = true;
  callback_lock = true;
  channel_key = true;
  channel_lock = true;
  memfd = true;
  ftruncate = true;
  mmap = true;
  socketpair = true;
  fork = false;
  watcher = true;
}

pbox_create_lem_example :
    let (owned, made) = pbox_create no_fork in
    (made ≡ all_succeed no_fork)
    × (if made
        then (pbox_destroy owned one_thread).0 ≡ []
        else owned ≡ (if fork_fails no_fork then Owned.sock_child ∷ Owned.sock_host ∷ [] else []))
pbox_create_lem_example = pbox_create_lem no_fork one_thread

balanced :
    count (Resource.fd 5) one_thread.held
    ≡ count (Resource.fd 5) (all_resources one_thread.channels)
unfolding count all_resources resources_of eq_resource
balanced = refl

pbox_destroy_lem_example :
    let b' = (pbox_destroy [] one_thread).1 in
    (count (Resource.fd 5) b'.held ≡ 0) × (b'.channels ≡ [])
pbox_destroy_lem_example = pbox_destroy_lem [] one_thread (Resource.fd 5) balanced

-- A thread gets a channel and maps its arena; a second gets none, and a third gets one and exits.
abbrev events : List Event
events =
    create granted
    ∷ alloc (λ n. 65536) 400 64
    ∷ create (record granted { malloc = 0 })
    ∷ create (record granted { malloc = 500; memfd = pos 7; mmap = some 800 })
    ∷ thread_exit 500
    ∷ []

held_before :
    (run events no_threads).held
    ≡ Resource.mapping 65536 ∷ Resource.block 400 ∷ Resource.mapping 300 ∷ Resource.fd 6 ∷ []
unfolding align16 run step alloc_at exit_of create_channel_locked create_from map_channel
    share_channel allocate_entry append_channel acquire spawn index_channel idmem_alloc
    ensure_mapped bump channel_destructor release unwind tell_exit drop_resource eq_resource
held_before = refl

run_destroy_example :
    count (Resource.mapping 65536) (pbox_destroy [] (run events no_threads)).1.held ≡ 0
run_destroy_example = run_destroy events [] (Resource.mapping 65536)
