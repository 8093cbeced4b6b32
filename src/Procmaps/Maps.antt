-- ===== src/Procmaps/Maps.antt =====
-- `parse_proc_maps` of src/pbox/pbox_procmaps.c, with what it uses of `fgets` and `sscanf`. A text is
-- the list of its characters.
use sbox.Prelude.{
  ℕ, zero, suc, ◌+◌, ◌-◌, ◌*◌, ◌%◌, List, [], ◌∷◌, ◌++◌, Bool, true, false, ◌&&◌, ◌||◌, ltb, leb,
  ◌==◌, Option, none, some, if◌then◌else◌, length, size_mod, ◌>>=◌,
}
use sbox.Procmaps.{Region}

-- A hexadecimal digit's value, 16 for any other character.
unfoldable pub hex_value : ℕ → ℕ
hex_value c =
    if leb 48 c && leb c 57
    then c - 48
    else if leb 97 c && leb c 102
    then c - 87
    else if leb 65 c && leb c 70
    then c - 55
    else 16

unfoldable pub is_space : ℕ → Bool
is_space c = (c == 32) || (leb 9 c && leb c 13)

unfoldable pub skip_space : List ℕ → List ℕ
skip_space [] = []
skip_space (c ∷ s) = let further = skip_space s in if is_space c then further else c ∷ s

-- Is there a minus sign, and what is behind the sign?
unfoldable pub scan_sign : List ℕ → Bool × List ℕ
scan_sign [] = (false, [])
scan_sign (c ∷ s) = if c == 45 then (true, s) else if c == 43 then (false, s) else (false, c ∷ s)

-- Behind a prefix 0x.
unfoldable pub skip_prefix : List ℕ → List ℕ
skip_prefix [] = []
skip_prefix (c ∷ []) = c ∷ []
skip_prefix (c ∷ x ∷ s) = if (c == 48) && ((x == 120) || (x == 88)) then s else c ∷ x ∷ s

unfoldable pub scan_digits : ℕ → List ℕ → ℕ × List ℕ
scan_digits acc [] = (acc, [])
scan_digits acc (c ∷ s) =
    let further = scan_digits (acc * 16 + hex_value c) s in
    if ltb (hex_value c) 16 then further else (acc, c ∷ s)

-- An unsigned number that is too large becomes the largest.
unfoldable pub signed : Bool → ℕ → ℕ
signed negative n =
    if ltb n size_mod then (if negative then (size_mod - n) % size_mod else n) else size_mod - 1

-- `negative` and the text behind the sign and the prefix.
unfoldable pub scan_number : Bool → List ℕ → Option (ℕ × List ℕ)
scan_number negative [] = none
scan_number negative (c ∷ s) =
    let (n, rest) = scan_digits 0 (c ∷ s) in
    if ltb (hex_value c) 16 then some (signed negative n, rest) else none

-- SCNxPTR: the number and the text behind it.
unfoldable pub scan_pointer : List ℕ → Option (ℕ × List ℕ)
scan_pointer s =
    let (negative, t) = scan_sign (skip_space s) in scan_number negative (skip_prefix t)

-- The `-` of the format.
unfoldable pub scan_dash : List ℕ → Option (List ℕ)
scan_dash [] = none
scan_dash (c ∷ s) = if c == 45 then some s else none

-- The `sscanf`, `none` unless it returns 2.
unfoldable pub scan_region : List ℕ → Option Region
scan_region line = do
  first ← scan_pointer line
  behind ← scan_dash (first.1)
  second ← scan_pointer behind
  some (first.0, second.0)

-- `fgets` for at most `n` characters: the line, and what is left of the file.
unfoldable pub fgets : ℕ → List ℕ → List ℕ × List ℕ
fgets zero s = ([], s)
fgets (suc n) [] = ([], [])
fgets (suc n) (c ∷ s) =
    let (line, rest) = fgets n s in if c == 10 then (c ∷ [], s) else (c ∷ line, rest)

-- One line's region is stored, with the capacity doubled where the array is full; `grants` is what
-- `realloc` answers for a capacity. `none` is the return of NULL.
unfoldable pub store_region :
    (ℕ → Bool) → ℕ → List Region → Option Region → Option (ℕ × List Region)
store_region grants cap regions none = some (cap, regions)
store_region grants cap regions (some r) =
    if leb cap (length regions)
    then (if grants (cap * 2) then some (cap * 2, regions ++ (r ∷ [])) else none)
    else some (cap, regions ++ (r ∷ []))

-- The loop, on fuel.
unfoldable pub parse_lines : (ℕ → Bool) → ℕ → List ℕ → ℕ → List Region → Option (List Region)
parse_lines grants zero s cap regions = some regions
parse_lines grants (suc fuel) [] cap regions = some regions
parse_lines grants (suc fuel) (c ∷ s) cap regions = do
  let read = fgets 511 (c ∷ s)
  stored ← store_region grants cap regions (scan_region (read.0))
  parse_lines grants fuel (read.1) (stored.0) (stored.1)

-- `opened` is the file's text, if it can be opened, and `malloced` whether the first array is had.
unfoldable pub parse_proc_maps :
    (opened : Option (List ℕ)) → (malloced : Bool) → (ℕ → Bool) → Option (List Region)
parse_proc_maps none malloced grants = none
parse_proc_maps (some text) malloced grants =
    if malloced then parse_lines grants (length text) text 64 [] else none
