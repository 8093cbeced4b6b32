-- ===== src/Protocol/Progress.antt =====
-- A host thread that waits on a channel is not stuck while the sandbox lives, and is stuck when it
-- dies.
use sbox.Prelude.{true, ℕ, zero, suc, ◌+◌, ◌∙◌, ◌≡◌, ◌≢◌, ◌⊎◌, inl, inr, refl, Bool, false, arith}
use sbox.Channel.{State}
use sbox.Protocol.{Host, Worker, Conf, Move, Step, Reach}
use sbox.Protocol.Agree.{Placed, Reach-Placed}

-- Has the host an answer to take, or a callback that it heeds?
abbrev Hears : Conf → Type 0
Hears c = (c.word ≡ State.callback) → (c.heeds ≡ true)

answer_taken :
    (c : Conf) → c.host ≡ Host.waiting → c.word ≡ State.response → (c' : Conf) × Move c c'
answer_taken c waits seen = by_depth c.depth refl
  where
    by_depth : (d : ℕ) → c.depth ≡ d → (c' : Conf) × Move c c'
    by_depth zero e = (_, Move.return waits seen e)
    by_depth (suc d) e = (_, Move.return_inside d waits seen (e ∙ omega arith))

waiting_at :
    (c : Conf)
    → Placed c
    → c.worker ≢ Worker.killed
    → c.host ≡ Host.waiting
    → (c.word ≡ State.response)
      ⊎ (((c.word ≡ State.request) × (c.worker ≡ Worker.looping))
          ⊎ ((c.worker ≡ Worker.serving)
              ⊎ ((c.word ≡ State.callback)
                  ⊎ ((c.word ≡ State.request) × (c.worker ≡ Worker.in_callback)))))
waiting_at c placed alive waits = ground arith

-- While the sandbox lives, a host thread that waits in a request never waits for itself: one of the two
-- sides can take a step, unless the request waits by `pbox_wait_for_state` and the sandbox calls back.
pub waiting_moves :
    {is_control : Bool} {c : Conf}
    → Reach is_control c
    → c.worker ≢ Worker.killed
    → c.host ≡ Host.waiting
    → Hears c
    → (c' : Conf) × Move c c'
waiting_moves {is_control} {c} r alive waits hears =
    elim (waiting_at c (Reach-Placed r) alive waits) [
      | inl seen ↦ answer_taken c waits seen
      | inr (inl (w, k)) ↦ (_, Move.take k w)
      | inr (inr (inl k)) ↦ (_, Move.respond k)
      | inr (inr (inr (inl w))) ↦ (_, Move.dispatch waits (hears w) w)
      | inr (inr (inr (inr (w, k)))) ↦ (_, Move.resume k w)
    ]

-- When the sandbox dies while a worker channel's request is unanswered, the host waits for ever: no
-- step of either side or of the watcher changes the channel's state or wakes the host.
pub waiting_hangs :
    {c c' : Conf}
    → Step false c c'
    → c.worker ≡ Worker.killed
    → c.host ≡ Host.waiting
    → c.word ≡ State.request
    → (c'.worker ≡ Worker.killed) × (c'.host ≡ Host.waiting) × (c'.word ≡ State.request)
waiting_hangs (Step.move (Move.request heeds h)) dead waits asked = ground arith
waiting_hangs (Step.move (Move.request_inside heeds h)) dead waits asked = ground arith
waiting_hangs (Step.move (Move.take h w)) dead waits asked = ground arith
waiting_hangs (Step.move (Move.respond h)) dead waits asked = ground arith
waiting_hangs (Step.move (Move.call_back h)) dead waits asked = ground arith
waiting_hangs (Step.move (Move.dispatch h e w)) dead waits asked = ground arith
waiting_hangs (Step.move (Move.call_back_done h)) dead waits asked = ground arith
waiting_hangs (Step.move (Move.resume h w)) dead waits asked = ground arith
waiting_hangs (Step.move (Move.return h w d)) dead waits asked = ground arith
waiting_hangs (Step.move (Move.return_inside below h w d)) dead waits asked = ground arith
waiting_hangs (Step.move (Move.return_dead h e w d)) dead waits asked = ground arith
waiting_hangs (Step.move (Move.return_dead_inside below h e w d)) dead waits asked = ground arith
waiting_hangs (Step.move (Move.exit h)) dead waits asked = ground arith
waiting_hangs (Step.move (Move.exit_inside h)) dead waits asked = ground arith
waiting_hangs (Step.move (Move.leave h w)) dead waits asked = ground arith
waiting_hangs Step.die dead waits asked = (refl, waits, asked)
waiting_hangs (Step.watch e w) dead waits asked = ground arith

-- The request that the host function of a callback makes.
abbrev pub asked : Bool → Conf → Conf
asked heeds c = record c {
  word = State.request;
  host = Host.waiting;
  heeds = heeds;
  depth = c.depth + 1;
  reentered = true;
  called = c.called + 1;
}
