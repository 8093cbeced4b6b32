-- ===== src/Lifecycle/Create.antt =====
-- What `pbox_create` (src/pbox/pbox.c) leaves behind on every path.
use sbox.Prelude.{◌≡◌, refl, [], ◌∷◌, Bool, true, false, ◌&&◌, not, if◌then◌else◌}
use sbox.Threads.{Threads}
use sbox.Lifecycle.{
  Owned, Answers, give_back, give_back_all, start_watcher, share_control, pbox_create, pbox_destroy,
}

-- All calls before the fork succeed, and the fork fails.
abbrev pub fork_fails : Answers → Bool
fork_fails a =
    a.malloc
    && a.fd_lock
    && a.callback_lock
    && a.channel_key
    && a.channel_lock
    && a.memfd
    && a.ftruncate
    && a.mmap
    && a.socketpair
    && not a.fork

-- All calls succeed.
abbrev pub all_succeed : Answers → Bool
all_succeed a =
    a.malloc && a.fd_lock && a.callback_lock && a.channel_key && a.channel_lock && a.memfd
    && a.ftruncate && a.mmap && a.socketpair && a.fork && a.watcher

abbrev Settled : Threads → Answers → Type 0
Settled b ans =
    let (owned, made) = pbox_create ans in
    (made ≡ all_succeed ans)
    × (if made
        then (pbox_destroy owned b).0 ≡ []
        else owned ≡ (if fork_fails ans then Owned.sock_child ∷ Owned.sock_host ∷ [] else []))

-- One case for each call that fails first.
on_answers :
    (b : Threads) (m f c k l d t p s r w : Bool)
    → Settled b (record {
      malloc = m;
      fd_lock = f;
      callback_lock = c;
      channel_key = k;
      channel_lock = l;
      memfd = d;
      ftruncate = t;
      mmap = p;
      socketpair = s;
      fork = r;
      watcher = w;
    })
unfolding pbox_create share_control start_watcher give_back_all give_back pbox_destroy
on_answers b false f c k l d t p s r w = (refl, refl)
on_answers b true false c k l d t p s r w = (refl, refl)
on_answers b true true false k l d t p s r w = (refl, refl)
on_answers b true true true false l d t p s r w = (refl, refl)
on_answers b true true true true false d t p s r w = (refl, refl)
on_answers b true true true true true false t p s r w = (refl, refl)
on_answers b true true true true true true false p s r w = (refl, refl)
on_answers b true true true true true true true false s r w = (refl, refl)
on_answers b true true true true true true true true false r w = (refl, refl)
on_answers b true true true true true true true true true false w = (refl, refl)
on_answers b true true true true true true true true true true false = (refl, refl)
on_answers b true true true true true true true true true true true = (refl, refl)

-- `pbox_create` returns a box exactly if all the calls succeed. Whichever fails, it returns NULL and
-- owns nothing afterwards, but for one failure: when the fork fails both ends of the socket pair stay
-- open. A box that was created is given back wholly by `pbox_destroy`.
pub pbox_create_lem :
    (ans : Answers) (b : Threads)
    → let (owned, made) = pbox_create ans in
      (made ≡ all_succeed ans)
      × (if made
          then (pbox_destroy owned b).0 ≡ []
          else owned ≡ (if fork_fails ans then Owned.sock_child ∷ Owned.sock_host ∷ [] else []))
pbox_create_lem ans b =
    on_answers b ans.malloc ans.fd_lock ans.callback_lock ans.channel_key ans.channel_lock ans.memfd
      ans.ftruncate ans.mmap ans.socketpair ans.fork ans.watcher
