-- ===== src/Protocol/Agree.antt =====
-- The two sides of a channel never use its data at the same time.
use sbox.Prelude.{◌+◌, ◌≡◌, ◌≢◌, ◌⊎◌, inl, inr, refl, Bool, true, false, ◌&&◌, arith}
use sbox.Channel.{State}
use sbox.Protocol.{Host, Worker, Conf, Move, Step, Reach, host_owns, worker_owns}

-- Where both sides are, and the state between them.
abbrev pub At : Conf → State → Host → Worker → Type 0
At c s h w = (c.word ≡ s) × (c.host ≡ h) × (c.worker ≡ w)

-- The host's thread has ended; the sandbox's has left its loop, will leave it, or waits for ever for the
-- end of a callback.
abbrev pub Finished : Conf → Type 0
Finished c =
    At c State.exit Host.finished Worker.looping
    ⊎ (At c State.exit Host.finished Worker.gone ⊎ At c State.exit Host.finished Worker.in_callback)

-- Where the two sides are while the sandbox lives.
abbrev pub Places : Conf → Type 0
Places c =
    At c State.idle Host.outside Worker.looping
    ⊎ (At c State.request Host.waiting Worker.looping
        ⊎ (At c State.request Host.waiting Worker.serving
            ⊎ (At c State.callback Host.waiting Worker.in_callback
                ⊎ (At c State.callback Host.calling Worker.in_callback
                    ⊎ (At c State.request Host.waiting Worker.in_callback
                        ⊎ (At c State.response Host.waiting Worker.looping
                            ⊎ (At c State.idle Host.calling Worker.looping ⊎ Finished c)))))))

abbrev pub Placed : Conf → Type 0
Placed c = (c.worker ≡ Worker.killed) ⊎ Places c

Move-Placed : {c c' : Conf} → Move c c' → Placed c → Placed c'
Move-Placed (Move.request heeds h) p = ground arith
Move-Placed (Move.request_inside heeds h) p = ground arith
Move-Placed (Move.take h w) p = ground arith
Move-Placed (Move.respond h) p = ground arith
Move-Placed (Move.call_back h) p = ground arith
Move-Placed (Move.dispatch h e w) p = ground arith
Move-Placed (Move.call_back_done h) p = ground arith
Move-Placed (Move.resume h w) p = ground arith
Move-Placed (Move.return h w d) p = ground arith
Move-Placed (Move.return_inside below h w d) p = ground arith
Move-Placed (Move.return_dead h e w d) p = ground arith
Move-Placed (Move.return_dead_inside below h e w d) p = ground arith
Move-Placed (Move.exit h) p = ground arith
Move-Placed (Move.exit_inside h) p = ground arith
Move-Placed (Move.leave h w) p = ground arith

pub Reach-Placed : {is_control : Bool} {c : Conf} → Reach is_control c → Placed c
Reach-Placed Reach.start = inr (inl (refl, refl, refl))
Reach-Placed (Reach.later r (Step.move m)) = Move-Placed m (Reach-Placed r)
Reach-Placed (Reach.later r Step.die) = inl refl
Reach-Placed (Reach.later r (Step.watch e w)) = inl w

-- No request is open, and none was made by a callback's host function.
abbrev pub Between : Conf → Type 0
Between c =
    (c.called ≡ c.answered)
    × (At c State.idle Host.outside Worker.looping
        ⊎ (At c State.response Host.waiting Worker.looping
            ⊎ (At c State.exit Host.finished Worker.looping
                ⊎ At c State.exit Host.finished Worker.gone)))

-- One request is open.
abbrev pub Open : Conf → Type 0
Open c =
    (c.called ≡ c.answered + 1)
    × (At c State.request Host.waiting Worker.looping
        ⊎ (At c State.request Host.waiting Worker.serving
            ⊎ (At c State.callback Host.waiting Worker.in_callback
                ⊎ (At c State.callback Host.calling Worker.in_callback
                    ⊎ (At c State.request Host.waiting Worker.in_callback
                        ⊎ At c State.exit Host.finished Worker.in_callback)))))

abbrev pub Agree : Conf → Type 0
Agree c =
    (c.worker ≡ Worker.killed) ⊎ ((c.reentered ≡ true) ⊎ ((c.depth ≡ 0) × (Between c ⊎ Open c)))

Move-Agree : {c c' : Conf} → Move c c' → Agree c → Agree c'
Move-Agree (Move.request heeds h) a = ground arith
Move-Agree (Move.request_inside heeds h) a = inr (inl refl)
Move-Agree (Move.take h w) a = ground arith
Move-Agree (Move.respond h) a = ground arith
Move-Agree (Move.call_back h) a = ground arith
Move-Agree (Move.dispatch h e w) a = ground arith
Move-Agree (Move.call_back_done h) a = ground arith
Move-Agree (Move.resume h w) a = ground arith
Move-Agree (Move.return h w d) a = ground arith
Move-Agree (Move.return_inside below h w d) a = ground arith
Move-Agree (Move.return_dead h e w d) a = ground arith
Move-Agree (Move.return_dead_inside below h e w d) a = ground arith
Move-Agree (Move.exit h) a = ground arith
Move-Agree (Move.exit_inside h) a = ground arith
Move-Agree (Move.leave h w) a = ground arith

pub Reach-Agree : {is_control : Bool} {c : Conf} → Reach is_control c → Agree c
Reach-Agree Reach.start = inr (inr (refl, inl (refl, inl (refl, refl, refl))))
Reach-Agree (Reach.later r (Step.move m)) = Move-Agree m (Reach-Agree r)
Reach-Agree (Reach.later r Step.die) = inl refl
Reach-Agree (Reach.later r (Step.watch e w)) = inl w

-- Whatever order the steps of the host, the sandbox and the watcher come in, requests from within
-- callbacks included, the host's thread and the sandbox's thread never both own the channel's data.
pub exclusive :
    {is_control : Bool} {c : Conf}
    → Reach is_control c
    → host_owns c.host && worker_owns c.worker ≡ false
unfolding host_owns worker_owns
exclusive r = ground (arith, Reach-Placed r)

-- While the sandbox lives, and if no callback's host function has made a request on the channel, a
-- host thread that sees RESPONSE has the answer to the request that it began last: every request
-- that was begun is answered, and none twice.
pub answers_match :
    {is_control : Bool} {c : Conf}
    → Reach is_control c
    → c.worker ≢ Worker.killed
    → c.reentered ≡ false
    → c.word ≡ State.response
    → (c.called ≡ c.answered) × (c.host ≡ Host.waiting)
answers_match r alive plain seen = ground (arith, Reach-Agree r)
