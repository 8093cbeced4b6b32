-- ===== src/Front/Call.antt =====
-- Calls of the process backend, include/sbox/process.hh: the arrays for `pbox_call`, `call_impl`,
-- the symbol cache, and `call` by name.
use sbox.Prelude.{
  ℕ, zero, suc, ◌+◌, Bool, true, false, not, ◌&&◌, Option, none, some, List, [], ◌∷◌, if◌then◌else◌,
  ◌==◌, leb, take, set, length, replicate, ◌>>=◌, ◌>>◌, check,
}
use sbox.Dyfn.Types.{PBoxType}
use sbox.Channel.{Channel, max_args}
use sbox.Call.{HostArg, pbox_call}
use sbox.Symbol.{pbox_dlsym}
use sbox.Front.Types.{CppType, void, pbox_type_v}
use sbox.Front.Check.{check_sbox_ptr_arg}
use sbox.Front.Convert.{convert_call_arg}

-- A call's argument: its type and its value.
abbrev pub CppArg : Type 0
CppArg = CppType × List ℕ

-- A return type and the parameters.
pub record Signature : Type 0 where
  pub ret : CppType
  pub params : List CppType

-- The conversions that are not between integers or wrappers.
abbrev pub Cast : Type 0
Cast = CppType → CppType → List ℕ → Option (List ℕ)

-- `none` is a program that does not compile.
unfoldable pub fill_arg_types : List CppType → ℕ → List PBoxType → Option (List PBoxType)
fill_arg_types [] i types = some types
fill_arg_types (T ∷ rest) i types = do
  t ← pbox_type_v T
  fill_arg_types rest (i + 1) (set types i t)

-- A pointer is the memory that it points to.
unfoldable pub fill_arg_ptrs : List (List ℕ) → ℕ → List (List ℕ) → List (List ℕ)
fill_arg_ptrs [] i ptrs = ptrs
fill_arg_ptrs (v ∷ rest) i ptrs = fill_arg_ptrs rest (i + 1) (set ptrs i v)

-- What `pbox_call` reads of the two arrays.
abbrev pub zip_args : List PBoxType → List (List ℕ) → List HostArg
zip_args [] ptrs = []
zip_args (t ∷ types) [] = []
zip_args (t ∷ types) (v ∷ ptrs) = (t, v) ∷ zip_args types ptrs

-- `std::is_void_v`
unfoldable pub is_void : CppType → Bool
is_void void = true
is_void T = false

-- `nargs > 0 ? nargs : 1`
abbrev pub array_size : ℕ → ℕ
array_size zero = 1
array_size (suc n) = suc n

-- The channel, and the value that is returned: none for void, and where `pbox_call` leaves the
-- result as it is.
abbrev pub Returned : Type 0
Returned = Option Channel × Option (List ℕ)

unfoldable pub call_impl :
    (Channel → Option Channel) → Option Channel → ℕ → Signature → List (List ℕ) → Option Returned
call_impl serve channel fn sig values = do
  let nargs = length sig.params
  check (leb nargs max_args)
  types ← fill_arg_types sig.params 0 (replicate (array_size nargs) PBoxType.void)
  ret ← pbox_type_v sig.ret
  let ptrs = fill_arg_ptrs values 0 (replicate (array_size nargs) [])
  pbox_call serve channel fn ret (zip_args (take nargs types) (take nargs ptrs))
      (not (is_void sig.ret))

-- `convert_arg`, which has the same body as `convert_call_arg`.
abbrev pub convert_arg : Cast → CppType → CppArg → Option (List ℕ)
convert_arg other_cast To (From, v) = convert_call_arg other_cast To From v

-- `convert_arg<Params>(args)...`; none where the two packs differ in length.
unfoldable pub convert_args : Cast → List CppType → List CppArg → Option (List (List ℕ))
convert_args other_cast [] [] = some []
convert_args other_cast (P ∷ params) (a ∷ args) = do
  v ← convert_arg other_cast P a
  values ← convert_args other_cast params args
  some (v ∷ values)
convert_args other_cast params args = none

unfoldable pub call_ptr_sig :
    Cast
    → (Channel → Option Channel)
    → Option Channel
    → ℕ
    → Signature
    → List CppArg
    → Option Returned
call_ptr_sig other_cast serve channel fn sig args = do
  values ← convert_args other_cast sig.params args
  call_impl serve channel fn sig values

-- The symbol cache: the names' addresses with the symbols', for `name` is compared as a pointer.
abbrev pub Cache : Type 0
Cache = List (ℕ × ℕ)

unfoldable pub find : ℕ → Cache → Option ℕ
find name [] = none
find name ((key, sym) ∷ rest) = if key == name then some sym else find name rest

-- Past the search, whose answer is the last argument. `text` is the memory that names point to.
unfoldable pub resolve :
    (Channel → Option Channel)
    → (ℕ → List ℕ)
    → Cache
    → Option Channel
    → ℕ
    → Option ℕ
    → Option (Cache × Option Channel × ℕ)
resolve serve text cache channel name (some sym) = some (cache, channel, sym)
resolve serve text cache channel name none = do
  (channel', sym) ← pbox_dlsym serve channel (text name)
  some (if sym == 0 then cache else (name, sym) ∷ cache, channel', sym)

unfoldable pub lookup :
    (Channel → Option Channel)
    → (ℕ → List ℕ)
    → Cache
    → Option Channel
    → ℕ
    → Option (Cache × Option Channel × ℕ)
lookup serve text cache channel name = resolve serve text cache channel name (find name cache)

-- The result has the type `wrap_sbox_return` of the signature's. `none` is also the call to `abort`.
unfoldable pub call :
    Cast
    → (Channel → Option Channel)
    → (ℕ → List ℕ)
    → Cache
    → Option Channel
    → Signature
    → ℕ
    → List CppArg
    → Option (Cache × Returned)
call other_cast serve text cache channel sig name args = do
  (cache', channel', fn) ← lookup serve text cache channel name
  check (not (fn == 0))
  returned ← call_ptr_sig other_cast serve channel' fn sig args
  some (cache', returned)

-- `(check_sbox_ptr_arg_v<Params, Args> && ...)`, and that the packs have one length.
unfoldable pub check_args : List CppType → List CppArg → Bool
check_args [] [] = true
check_args (P ∷ params) ((A, v) ∷ args) = check_sbox_ptr_arg P A && check_args params args
check_args params args = false

-- `call(TypedName, args...)`
unfoldable pub call_typed :
    Cast
    → (Channel → Option Channel)
    → (ℕ → List ℕ)
    → Cache
    → Option Channel
    → Signature
    → ℕ
    → List CppArg
    → Option (Cache × Returned)
call_typed other_cast serve text cache channel sig name args = do
  check (check_args sig.params args)
  call other_cast serve text cache channel sig name args

-- `FnHandle::operator()`; the handle keeps the symbol.
unfoldable pub fn_handle_call :
    Cast
    → (Channel → Option Channel)
    → Option Channel
    → ℕ
    → Signature
    → List CppArg
    → Option Returned
fn_handle_call other_cast serve channel fn sig args = do
  values ← convert_args other_cast sig.params args
  call_impl serve channel fn sig values
