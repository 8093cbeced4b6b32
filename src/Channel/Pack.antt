-- ===== src/Channel/Pack.antt =====
-- Arguments packed one behind the other into the channel's `arg_storage`, with their offsets.
use sbox.Prelude.{
  ℕ, ◌+◌, ◌*◌, ◌<◌, ◌≤◌, ◌≡◌, refl, ◌∙◌, List, [], ◌∷◌, some, length, take, get_elem?, read_at,
  arith, length-set, get_elem?-set_self, get_elem?-set_ne, length-memcpy_to, read_at-memcpy_to,
  read_at-memcpy_to_below,
}
use sbox.Channel.{Channel, put_arg, max_args, arg_storage_size, result_storage_size}

-- An argument as the packing loops see it: the bytes to copy, and the memory that they come from.
abbrev pub Sized : Type 0
Sized = ℕ × List ℕ

-- The arguments from index `i` and offset `o` on lie in the channel as the offsets say.
abbrev pub Packed : ℕ → ℕ → List Sized → Channel → Type 0
Packed i o [] ch = Unit
Packed i o ((size, v) ∷ rest) ch =
    (get_elem? ch.args i ≡ some o)
    × (read_at ch.arg_storage o size ≡ take size v)
    × Packed (i + 1) (o + size) rest ch

-- Every source holds the bytes to copy, and no argument is wider than a word.
abbrev pub Fits : List Sized → Type 0
Fits [] = Unit
Fits ((size, v) ∷ rest) = (size ≤ length v) × (size ≤ 8) × Fits rest

pub record IsShaped (ch : Channel) : Type 0 where
  pub args_len : length ch.args ≡ max_args
  pub storage_len : length ch.arg_storage ≡ arg_storage_size
  pub types_len : length ch.arg_types ≡ max_args
  pub result_len : length ch.result_storage ≡ result_storage_size

-- What `i` arguments that end at `o` have room for.
abbrev pub Room : ℕ → ℕ → List Sized → Type 0
Room i o rest = (i + length rest ≤ max_args) × (o ≤ 8 * i)

pub put_arg-IsShaped :
    (ch : Channel) (i o size : ℕ) (v : List ℕ)
    → IsShaped ch
    → o + size ≤ arg_storage_size
    → size ≤ length v
    → IsShaped (put_arg ch i o v size)
unfolding put_arg
put_arg-IsShaped ch i o size v h room le = record {
  args_len = length-set ch.args i o ∙ h.args_len;
  storage_len = length-memcpy_to ch.arg_storage v o size (omega arith) le ∙ h.storage_len;
  types_len = h.types_len;
  result_len = h.result_len;
}

-- The packed argument is at its offset.
pub put_arg_here :
    (ch : Channel) (i o size : ℕ) (v : List ℕ)
    → IsShaped ch
    → i < max_args
    → o + size ≤ arg_storage_size
    → size ≤ length v
    → let ch' = put_arg ch i o v size in
      (get_elem? ch'.args i ≡ some o) × (read_at ch'.arg_storage o size ≡ take size v)
unfolding put_arg
put_arg_here ch i o size v h lt room le = (
  get_elem?-set_self ch.args i o (omega arith),
  read_at-memcpy_to ch.arg_storage v o size (omega arith) le,
)

-- Earlier arguments stay.
pub put_arg_earlier :
    (ch : Channel) (i o size j p n : ℕ) (v : List ℕ)
    → IsShaped ch
    → j < i
    → p + n ≤ o
    → o ≤ arg_storage_size
    → let ch' = put_arg ch i o v size in
      (get_elem? ch'.args j ≡ get_elem? ch.args j)
      × (read_at ch'.arg_storage p n ≡ read_at ch.arg_storage p n)
unfolding put_arg
put_arg_earlier ch i o size j p n v h lt below le = (
  get_elem?-set_ne ch.args i j o (λ e. omega arith),
  read_at-memcpy_to_below ch.arg_storage v o size p n below (omega arith),
)

-- The packing loop over arguments that are known already.
unfoldable pub put_args : Channel → ℕ → ℕ → List Sized → Channel
put_args ch i o [] = ch
put_args ch i o ((size, v) ∷ rest) = put_args (put_arg ch i o v size) (i + 1) (o + size) rest

-- Only the offsets and the storage change.
pub put_args_frame :
    (ch : Channel) (i o : ℕ) (l : List Sized)
    → put_args ch i o l
      ≡ record ch { args = (put_args ch i o l).args; arg_storage = (put_args ch i o l).arg_storage }
unfolding put_args put_arg
put_args_frame ch i o [] = refl
put_args_frame ch i o ((size, v) ∷ rest) =
    put_args_frame (put_arg ch i o v size) (i + 1) (o + size) rest

pub put_args-IsShaped :
    (ch : Channel) (i o : ℕ) (l : List Sized)
    → IsShaped ch
    → Fits l
    → Room i o l
    → IsShaped (put_args ch i o l)
unfolding put_args
put_args-IsShaped ch i o [] h fits room = h
put_args-IsShaped ch i o ((size, v) ∷ rest) h (le, small, fits) room =
    put_args-IsShaped (put_arg ch i o v size) (i + 1) (o + size) rest
      (put_arg-IsShaped ch i o size v h (omega arith) le) fits (omega arith)

-- What is packed already stays while more is packed behind it.
put_args_earlier :
    (ch : Channel) (i o j p n : ℕ) (l : List Sized)
    → IsShaped ch
    → Fits l
    → Room i o l
    → j < i
    → p + n ≤ o
    → (get_elem? (put_args ch i o l).args j ≡ get_elem? ch.args j)
      × (read_at (put_args ch i o l).arg_storage p n ≡ read_at ch.arg_storage p n)
unfolding put_args
put_args_earlier ch i o j p n [] h fits room lt below = (refl, refl)
put_args_earlier ch i o j p n ((size, v) ∷ rest) h (le, small, fits) room lt below =
    let first = put_arg_earlier ch i o size j p n v h lt below (omega arith) in
    let later =
      put_args_earlier (put_arg ch i o v size) (i + 1) (o + size) j p n rest
        (put_arg-IsShaped ch i o size v h (omega arith) le) fits (omega arith) (omega arith)
        (omega arith) in
    (later.0 ∙ first.0, later.1 ∙ first.1)

-- After the loop every argument lies at its offset.
pub put_args-Packed :
    (ch : Channel) (i o : ℕ) (l : List Sized)
    → IsShaped ch
    → Fits l
    → Room i o l
    → Packed i o l (put_args ch i o l)
unfolding put_args
put_args-Packed ch i o [] h fits room = tt
put_args-Packed ch i o ((size, v) ∷ rest) h (le, small, fits) room =
    let shaped = put_arg-IsShaped ch i o size v h (omega arith) le in
    let here = put_arg_here ch i o size v h (omega arith) (omega arith) le in
    let stays =
      put_args_earlier (put_arg ch i o v size) (i + 1) (o + size) i o size rest shaped fits
        (omega arith) (omega arith) (omega arith) in
    (
      stays.0 ∙ here.0,
      stays.1 ∙ here.1,
      put_args-Packed (put_arg ch i o v size) (i + 1) (o + size) rest shaped fits (omega arith),
    )
