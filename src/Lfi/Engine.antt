-- ===== src/Lfi/Engine.antt =====
-- The engines of `LFIManager` and the life of a `Sandbox<LFI>` (src/sbox_lfi.cc). What the LFI runtime
-- answers is a parameter; a pointer is its address, NULL is 0.
pub mod Ledger
use sbox.Prelude.{
  ℕ, List, [], ◌∷◌, Bool, true, false, not, ◌&&◌, Option, some, none, if◌then◌else◌, ◌==◌,
}
use sbox.Identity.{drop_addr}

-- What the runtime has made and not freed.
pub record Live : Type 0 where
  pub engines : List ℕ
  pub linux_engines : List ℕ
  pub procs : List ℕ
  pub threads : List ℕ

-- `engine_` and `linux_engine_`
pub record Manager : Type 0 where
  pub engine : ℕ
  pub linux_engine : ℕ
  pub live : Live

-- The answers of `lfi_new` and `lfi_linux_new`.
pub record EngineAnswers : Type 0 where
  pub new_engine : ℕ
  pub new_linux_engine : ℕ

-- What an answer other than NULL adds.
unfoldable pub add : ℕ → List ℕ → List ℕ
add p l = if p == 0 then l else p ∷ l

-- `LFIManager::create`
unfoldable pub create_engine : EngineAnswers → Manager → Manager × Bool
create_engine ans m =
    let engine = ans.new_engine in
    let linux = ans.new_linux_engine in
    if engine == 0
    then (record m { engine = 0 }, false)
    else if linux == 0
    then (
      record m {
        engine = 0;
        linux_engine = 0;
        live = record (m.live) { engines = drop_addr engine (engine ∷ m.live.engines) };
      },
      false,
    )
    else (
      record m {
        engine = engine;
        linux_engine = linux;
        live = record (m.live) {
          engines = engine ∷ m.live.engines;
          linux_engines = linux ∷ m.live.linux_engines;
        };
      },
      true,
    )

unfoldable pub init : EngineAnswers → Manager → Manager × Bool
init ans m = if not (m.engine == 0) then (m, false) else create_engine ans m

unfoldable pub ensure : EngineAnswers → Manager → Manager × Bool
ensure ans m = if m.engine == 0 then create_engine ans m else (m, true)

-- `LFIManager::get`
unfoldable pub get : EngineAnswers → Manager → Manager × ℕ
get ans m = let (m1, ok) = ensure ans m in if not ok then (m1, 0) else (m1, m1.linux_engine)

unfoldable pub free_linux_engine : Manager → Manager
free_linux_engine m = if m.linux_engine == 0 then m else record m {
  linux_engine = 0;
  live = record (m.live) { linux_engines = drop_addr m.linux_engine m.live.linux_engines };
}

unfoldable pub free_engine : Manager → Manager
free_engine m = if m.engine == 0 then m else record m {
  engine = 0;
  live = record (m.live) { engines = drop_addr m.engine m.live.engines };
}

-- `LFIManager::destroy`
unfoldable pub destroy : Manager → Manager
destroy m = free_engine (free_linux_engine m)

-- `Sandbox<LFI>`, without its cache.
pub record Sandbox : Type 0 where
  pub proc : ℕ
  pub main_thread : ℕ

-- The answers on the way of `create`: the process, whether the file loads, `_lfi_ret`, the thread,
-- and whether it runs to its end.
pub record CreateAnswers : Type 0 where
  pub proc : ℕ
  pub loads : Bool
  pub lfi_ret : ℕ
  pub thread : ℕ
  pub runs : Bool

-- `~Sandbox`
unfoldable pub destroy_sandbox : Sandbox → Live → Live
destroy_sandbox sb live =
    let live1 =
      if sb.main_thread == 0
      then live
      else record live { threads = drop_addr sb.main_thread live.threads } in
    if sb.proc == 0 then live1 else record live1 { procs = drop_addr sb.proc live1.procs }

-- `Sandbox<LFI>::create` behind the manager. Every early return destroys what `sb` has so far.
unfoldable pub create_sandbox : CreateAnswers → ℕ → Live → Live × Option Sandbox
create_sandbox ans linux_engine live =
    let started : Sandbox = record { proc = ans.proc; main_thread = 0 } in
    let live1 = record live { procs = add ans.proc live.procs } in
    let running : Sandbox = record { proc = ans.proc; main_thread = ans.thread } in
    let live2 = record live1 { threads = add ans.thread live1.threads } in
    if linux_engine == 0
    then (live, none)
    else if ans.proc == 0
    then (destroy_sandbox started live1, none)
    else if not ans.loads
    then (destroy_sandbox started live1, none)
    else if ans.lfi_ret == 0
    then (destroy_sandbox started live1, none)
    else if ans.thread == 0
    then (destroy_sandbox running live2, none)
    else if not ans.runs
    then (destroy_sandbox running live2, none)
    else (live2, some running)

unfoldable pub create : EngineAnswers → CreateAnswers → Manager → Manager × Option Sandbox
create engine_ans ans m =
    let (m1, linux_engine) = get engine_ans m in
    let (live, sb) = create_sandbox ans linux_engine m1.live in (record m1 { live = live }, sb)
