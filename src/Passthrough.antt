-- ===== src/Passthrough.antt =====
-- The passthrough backend, include/sbox/passthrough.hh: its arena, its symbols and its calls.
pub mod Arena
use sbox.Prelude.{
  ℕ, ◌+◌, ◌-◌, ◌*◌, ◌/◌, List, [], ◌∷◌, Bool, true, false, ◌||◌, Option, some, none, if◌then◌else◌,
  ◌==◌, ltb, add_size, not, ◌>>=◌, ◌>>◌, check,
}
use sbox.Front.Types.{CppType}
use sbox.Front.Convert.{unwrap_sbox_arg}
use sbox.Front.Call.{CppArg, Signature, Cast, Cache, find, convert_args, check_args}

-- `PassthroughArena`; `base_` is what malloc returned, NULL being 0.
pub record PassthroughArena : Type 0 where
  pub base : ℕ
  pub offset : ℕ

-- DEFAULT_SIZE
abbrev pub arena_size : ℕ
arena_size = 65536

-- `(offset_ + align - 1) & ~(align - 1)` for an alignment that is a power of two.
unfoldable pub align_up : ℕ → ℕ → ℕ
align_up offset align = add_size offset (align - 1) / align * align

unfoldable pub arena_alloc : PassthroughArena → (size align : ℕ) → PassthroughArena × ℕ
arena_alloc a size align =
    let offset = align_up a.offset align in
    if (a.base == 0) || ltb arena_size (add_size offset size)
    then (record a { offset = offset }, 0)
    else (record a { offset = add_size offset size }, add_size a.base offset)

unfoldable pub arena_reset : PassthroughArena → PassthroughArena
arena_reset a = record a { offset = 0 }

-- `Sandbox<Passthrough>::lookup`, past the search; `dlsym` is the dynamic linker on the library.
unfoldable pub passthrough_resolve : (ℕ → ℕ) → Cache → ℕ → Option ℕ → Cache × ℕ
passthrough_resolve dlsym cache name (some sym) = (cache, sym)
passthrough_resolve dlsym cache name none =
    (if dlsym name == 0 then cache else (name, dlsym name) ∷ cache, dlsym name)

unfoldable pub passthrough_lookup : (ℕ → ℕ) → Cache → ℕ → Cache × ℕ
passthrough_lookup dlsym cache name = passthrough_resolve dlsym cache name (find name cache)

-- The library's code: what the function at an address does with the values of its arguments.
abbrev pub Library : Type 0
Library = ℕ → List (List ℕ) → List ℕ

-- `call` by name, in dynamic mode; `none` is a call that does not compile, or to `abort`.
unfoldable pub passthrough_call :
    Cast → Library → (ℕ → ℕ) → Cache → Signature → ℕ → List CppArg → Option (Cache × List ℕ)
passthrough_call other_cast code dlsym cache sig name args = do
  let (cache', fn) = passthrough_lookup dlsym cache name
  check (not (fn == 0))
  values ← convert_args other_cast sig.params args
  some (cache', code fn values)

-- `call(TypedName, args...)`
unfoldable pub passthrough_call_typed :
    Cast → Library → (ℕ → ℕ) → Cache → Signature → ℕ → List CppArg → Option (Cache × List ℕ)
passthrough_call_typed other_cast code dlsym cache sig name args = do
  check (check_args sig.params args)
  passthrough_call other_cast code dlsym cache sig name args
