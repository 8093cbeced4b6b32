-- ===== src/Procmaps/Parse.antt =====
-- `parse_proc_maps` (src/pbox/pbox_procmaps.c) reads back what the kernel writes.
use sbox.Prelude.{
  false, true, ◌*◌, ◌+◌, if◌then◌else◌, ◌&&◌, Bool-cases, inl, inr, ℕ, zero, suc, ◌<◌, ◌≤◌, ◌≡◌,
  ◌≢◌, refl, ap, sym, ◌∙◌, List, [], ◌∷◌, ◌++◌, Bool, leb, ◌==◌, none, some, length, size_mod,
  ◌>>=◌, All, map, arith,
}
use sbox.Procmaps.{Region}
use sbox.Procmaps.Maps.{scan_dash, scan_region, fgets, store_region, parse_lines, parse_proc_maps}
use sbox.Procmaps.Numbers.{IsDigit, hex_digit, value_from, scan_pointer-eq, dash-Ends, space-Ends}
use sbox.Procmaps.Growth.{
  requests, all_granted, requests-none, requests-more, length-snoc, store_free, store_grown,
  store_refused, is_suc,
}

fgets-line :
    (n : ℕ) (line rest : List ℕ)
    → All (λ c. c ≢ 10) line
    → length line < n
    → fgets n (line ++ 10 ∷ rest) ≡ (line ++ 10 ∷ [], rest)
unfolding fgets
fgets-line zero line rest all h = absurd (omega arith)
fgets-line (suc n) [] rest all h = refl
fgets-line (suc n) (c ∷ line) rest (here, all) h =
    let other : (c == 10) ≡ false = ground arith in
    rw (other, fgets-line n line rest all (omega arith)) refl

-- A line of the file: the digits of the region's start and of its end, at least one each, and what
-- follows the space behind them.
pub record MapsLine : Type 0 where
  pub d : ℕ
  pub ds : List ℕ
  pub e : ℕ
  pub es : List ℕ
  pub tail : List ℕ

abbrev pub region_of : MapsLine → Region
region_of l = (value_from 0 (l.d ∷ l.ds), value_from 0 (l.e ∷ l.es))

abbrev pub text_of : MapsLine → List ℕ
text_of l = map hex_digit (l.d ∷ l.ds) ++ 45 ∷ (map hex_digit (l.e ∷ l.es) ++ 32 ∷ l.tail)

-- The file, each line with its newline.
abbrev pub file : List MapsLine → List ℕ
file [] = []
file (l ∷ ls) = text_of l ++ 10 ∷ file ls

-- Addresses below 2^64, one newline, and no more than a read takes.
pub record IsLine (l : MapsLine) : Type 0 where
  pub starts : All IsDigit (l.d ∷ l.ds)
  pub ends : All IsDigit (l.e ∷ l.es)
  pub start_small : value_from 0 (l.d ∷ l.ds) < size_mod
  pub end_small : value_from 0 (l.e ∷ l.es) < size_mod
  pub one_line : All (λ c. c ≢ 10) l.tail
  pub short : length (text_of l) < 511

text-no_newline :
    (ds s : List ℕ)
    → All IsDigit ds
    → All (λ c. c ≢ 10) s
    → All (λ c. c ≢ 10) (map hex_digit ds ++ s)
text-no_newline [] s all h = h
text-no_newline (d ∷ ds) s (here, all) h = (λ q. ground arith, text-no_newline ds s all h)

append_assoc : (xs ys zs : List ℕ) → (xs ++ ys) ++ zs ≡ xs ++ (ys ++ zs)
append_assoc [] ys zs = refl
append_assoc (x ∷ xs) ys zs = ap (λ (l : List ℕ). x ∷ l) (append_assoc xs ys zs)

-- The line as it is read, up to its newline.
with_newline :
    (l : MapsLine)
    → text_of l ++ 10 ∷ []
      ≡ map hex_digit (l.d ∷ l.ds) ++ 45 ∷ (map hex_digit (l.e ∷ l.es) ++ 32 ∷ (l.tail ++ 10 ∷ []))
with_newline l =
    append_assoc (map hex_digit (l.d ∷ l.ds)) (45 ∷ (map hex_digit (l.e ∷ l.es) ++ 32 ∷ l.tail))
      (10 ∷ [])
    ∙ ap (λ (k : List ℕ). map hex_digit (l.d ∷ l.ds) ++ 45 ∷ k)
        (append_assoc (map hex_digit (l.e ∷ l.es)) (32 ∷ l.tail) (10 ∷ []))

scan_region-eq : (l : MapsLine) → IsLine l → scan_region (text_of l ++ 10 ∷ []) ≡ some (region_of l)
unfolding scan_region scan_dash
scan_region-eq l h =
    let behind = map hex_digit (l.e ∷ l.es) ++ 32 ∷ (l.tail ++ 10 ∷ []) in
    rw
      (
        with_newline l,
        scan_pointer-eq l.d l.ds 45 behind h.starts h.start_small dash-Ends,
        scan_pointer-eq l.e l.es 32 (l.tail ++ 10 ∷ []) h.ends h.end_small space-Ends,
      )
      refl

regions_assoc :
    (xs : List Region) (y : Region) (zs : List Region) → (xs ++ (y ∷ [])) ++ zs ≡ xs ++ y ∷ zs
regions_assoc [] y zs = refl
regions_assoc (x ∷ xs) y zs = ap (λ (l : List Region). x ∷ l) (regions_assoc xs y zs)

regions_nil : (xs : List Region) → xs ++ [] ≡ xs
regions_nil [] = refl
regions_nil (x ∷ xs) = ap (λ (l : List Region). x ∷ l) (regions_nil xs)

rest_shorter : (xs rest : List ℕ) → length rest < length (xs ++ 10 ∷ rest)
rest_shorter [] rest = omega arith
rest_shorter (x ∷ xs) rest = let ih = rest_shorter xs rest in omega arith

-- One round of the loop, on a line that is well formed.
parse_lines-line :
    (grants : ℕ → Bool) (fuel : ℕ) (l : MapsLine) (rest : List ℕ) (cap : ℕ) (regions : List Region)
    → IsLine l
    → parse_lines grants (suc fuel) (text_of l ++ 10 ∷ rest) cap regions ≡ (
        store_region grants cap regions (some (region_of l))
        >>= (λ (p : ℕ × List Region). parse_lines grants fuel rest (p.0) (p.1)))
unfolding parse_lines
parse_lines-line grants fuel l rest cap regions h =
    let digits =
      text-no_newline (l.e ∷ l.es) (32 ∷ l.tail) h.ends ((λ q. omega arith), h.one_line) in
    let clean =
      text-no_newline (l.d ∷ l.ds) (45 ∷ (map hex_digit (l.e ∷ l.es) ++ 32 ∷ l.tail)) h.starts
        ((λ q. omega arith), digits) in
    rw (fgets-line 511 (text_of l) rest clean h.short, scan_region-eq l h) refl

-- What the loop returns from a point on, when `n` regions are in the file.
abbrev EndsIn : (ℕ → Bool) → (fuel grow cap n : ℕ) → List MapsLine → List Region → Type 0
EndsIn grants fuel grow cap n ls regions = parse_lines grants fuel (file ls) cap regions ≡ (
    if all_granted grants (requests grow cap n) then some (regions ++ map region_of ls) else none)

parse_lines-eq :
    (grants : ℕ → Bool) (fuel grow : ℕ) (ls : List MapsLine) (cap n : ℕ) (regions : List Region)
    → All IsLine ls
    → length (file ls) ≤ fuel
    → length regions + length ls ≡ n
    → length regions ≤ cap
    → 1 ≤ cap
    → n ≤ cap + grow
    → EndsIn grants fuel grow cap n ls regions
unfolding parse_lines
parse_lines-eq grants zero grow [] cap n regions all enough total within some_room grows =
    rw (requests-none grow cap n (omega arith), regions_nil regions) refl
parse_lines-eq grants (suc fuel) grow [] cap n regions all enough total within some_room grows =
    rw (requests-none grow cap n (omega arith), regions_nil regions) refl
parse_lines-eq grants zero grow (l ∷ ls) cap n regions all enough total within some_room grows =
    absurd (let shorter = rest_shorter (text_of l) (file ls) in omega arith)
parse_lines-eq grants (suc fuel) grow (l ∷ ls) cap n regions (here, all) enough total within
      some_room grows =
    let shorter = rest_shorter (text_of l) (file ls) in
    let longer = length-snoc regions (region_of l) in
    let round = parse_lines-line grants fuel l (file ls) cap regions here in
    let ordered = regions_assoc regions (region_of l) (map region_of ls) in
    elim (Bool-cases (leb cap (length regions))) [
      | inr free ↦
          round
          ∙ rw (store_free grants cap regions (region_of l) free, sym ordered)
              (parse_lines-eq grants fuel grow ls cap n (regions ++ (region_of l ∷ [])) all
                (omega arith) (omega arith) (ground arith) some_room grows)
      | inl full ↦
          let (grow', one_more) = is_suc grow (ground arith) in
          let asks : requests grow cap n ≡ cap * 2 ∷ requests grow' (cap * 2) n =
            ap (λ (g : ℕ). requests g cap n) one_more ∙ requests-more grow' cap n (ground arith) in
          elim (Bool-cases (grants (cap * 2))) [
            | inr refused ↦
                round
                ∙ rw (store_refused grants cap regions (region_of l) full refused, asks, refused)
                    refl
            | inl granted ↦
                round
                ∙ rw
                    (
                      store_grown grants cap regions (region_of l) full granted,
                      asks,
                      granted,
                      sym ordered,
                    )
                    (parse_lines-eq grants fuel grow' ls (cap * 2) n (regions ++ (region_of l ∷ []))
                      all (omega arith) (omega arith) (ground arith) (omega arith) (omega arith))
          ]
    ]

-- Of a file in the kernel's format, with lines of at most 510 characters before their newlines and
-- addresses below 2^64, `parse_proc_maps` returns exactly the regions, in their order, if `malloc` and
-- each `realloc` grant the memory, and NULL otherwise. `realloc` is asked for twice the capacity, which
-- is 64 at first, for as long as the capacity is less than the number of regions.
pub parse_proc_maps_lem :
    (malloced : Bool) (grants : ℕ → Bool) (ls : List MapsLine)
    → All IsLine ls
    → parse_proc_maps (some (file ls)) malloced grants ≡ (
        if malloced && all_granted grants (requests (length ls) 64 (length ls))
        then some (map region_of ls)
        else none)
unfolding parse_proc_maps
parse_proc_maps_lem false grants ls all = refl
parse_proc_maps_lem true grants ls all =
    parse_lines-eq grants (length (file ls)) (length ls) ls 64 (length ls) [] all (omega arith)
      (omega arith) (omega arith) (omega arith) (omega arith)
