-- ===== src/Protocol.antt =====
-- The hand-over of one channel between a host thread, the sandbox's thread and the watcher: the futex
-- waits of src/pbox/pbox_internal.h, `pbox_wait_for_response` and `watcher_thread_fn` of
-- src/pbox/pbox.c, and the waits of `dispatch_loop` and `dyfn_closure_dispatch` of
-- src/pbox/pbox_sandbox.c. A wait that finds the state it waits for is one step; any other wake-up
-- changes nothing and is left out. A request of `pbox_call` waits by `pbox_wait_for_response`; the other
-- requests wait by `pbox_wait_for_state`, which sees neither CALLBACK nor DEAD. Nothing keeps the host
-- function of a callback from making a request on the channel, so requests nest.
pub mod Agree
pub mod Progress
use sbox.Prelude.{ℕ, ◌+◌, ◌≡◌, ◌≢◌, Bool, true, false}
use sbox.Channel.{State}

-- Where the host's thread is: outside of a request, waiting for an answer, in a callback's host
-- function, or past the thread's destructor.
pub data Host : Type 0 where
  outside waiting calling finished : Host

-- Where the sandbox's thread is: in the loop that waits for a request, serving one, in
-- `dyfn_closure_dispatch` waiting for a callback's end, past EXIT, or dead with its process.
pub data Worker : Type 0 where
  looping serving in_callback gone killed : Worker

-- The channel's state, both threads, whether the host waits by `pbox_wait_for_response`, how many host
-- functions of callbacks are below the innermost request, and of the past: whether a callback's host
-- function has made a request, the requests begun, and the requests answered.
pub record Conf : Type 0 where
  pub word : State
  pub host : Host
  pub worker : Worker
  pub heeds : Bool
  pub depth : ℕ
  pub reentered : Bool
  pub called : ℕ
  pub answered : ℕ

-- A step of either side. `heeds` tells a request of `pbox_call` from the others; `return_inside`
-- and `return_dead_inside` take the thread back into the host function that made the request.
pub data Move (c : Conf) : Conf → Type 0 where
  request :
      (heeds : Bool)
      → c.host ≡ Host.outside
      → Move c (record c {
        word = State.request;
        host = Host.waiting;
        heeds = heeds;
        called = c.called + 1;
      })
  request_inside :
      (heeds : Bool)
      → c.host ≡ Host.calling
      → Move c (record c {
        word = State.request;
        host = Host.waiting;
        heeds = heeds;
        depth = c.depth + 1;
        reentered = true;
        called = c.called + 1;
      })
  take :
      c.worker ≡ Worker.looping
      → c.word ≡ State.request
      → Move c (record c { worker = Worker.serving })
  respond :
      c.worker ≡ Worker.serving
      → Move c
          (record c { word = State.response; worker = Worker.looping; answered = c.answered + 1 })
  call_back :
      c.worker ≡ Worker.serving
      → Move c (record c { word = State.callback; worker = Worker.in_callback })
  dispatch :
      c.host ≡ Host.waiting
      → c.heeds ≡ true
      → c.word ≡ State.callback
      → Move c (record c { host = Host.calling })
  call_back_done :
      c.host ≡ Host.calling
      → Move c (record c { word = State.request; host = Host.waiting; heeds = true })
  resume :
      c.worker ≡ Worker.in_callback
      → c.word ≡ State.request
      → Move c (record c { worker = Worker.serving })
  return :
      c.host ≡ Host.waiting
      → c.word ≡ State.response
      → c.depth ≡ 0
      → Move c (record c { word = State.idle; host = Host.outside })
  return_inside :
      (below : ℕ)
      → c.host ≡ Host.waiting
      → c.word ≡ State.response
      → c.depth ≡ below + 1
      → Move c (record c { word = State.idle; host = Host.calling; depth = below })
  return_dead :
      c.host ≡ Host.waiting
      → c.heeds ≡ true
      → c.word ≡ State.dead
      → c.depth ≡ 0
      → Move c (record c { word = State.idle; host = Host.outside })
  return_dead_inside :
      (below : ℕ)
      → c.host ≡ Host.waiting
      → c.heeds ≡ true
      → c.word ≡ State.dead
      → c.depth ≡ below + 1
      → Move c (record c { word = State.idle; host = Host.calling; depth = below })
  exit : c.host ≡ Host.outside → Move c (record c { word = State.exit; host = Host.finished })
  exit_inside :
      c.host ≡ Host.calling → Move c (record c { word = State.exit; host = Host.finished })
  leave :
      c.worker ≡ Worker.looping → c.word ≡ State.exit → Move c (record c { worker = Worker.gone })

-- The sandbox may die at any time; the watcher then marks the control channel, and no other.
pub data Step (is_control : Bool) (c : Conf) : Conf → Type 0 where
  move : {c' : Conf} → Move c c' → Step is_control c c'
  die : Step is_control c (record c { worker = Worker.killed })
  watch :
      is_control ≡ true
      → c.worker ≡ Worker.killed
      → Step is_control c (record c { word = State.dead })

abbrev pub at_rest : Conf
at_rest = record {
  word = State.idle;
  host = Host.outside;
  worker = Worker.looping;
  heeds = true;
  depth = 0;
  reentered = false;
  called = 0;
  answered = 0;
}

pub data Reach (is_control : Bool) : Conf → Type 0 where
  start : Reach is_control at_rest
  later : {c c' : Conf} → Reach is_control c → Step is_control c c' → Reach is_control c'

-- Who may touch the channel's data.
unfoldable pub host_owns : Host → Bool
host_owns Host.outside = true
host_owns Host.calling = true
host_owns Host.waiting = false
host_owns Host.finished = false

unfoldable pub worker_owns : Worker → Bool
worker_owns Worker.serving = true
worker_owns Worker.looping = false
worker_owns Worker.in_callback = false
worker_owns Worker.gone = false
worker_owns Worker.killed = false
