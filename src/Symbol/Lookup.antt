-- ===== src/Symbol/Lookup.antt =====
-- A symbol's name crosses the channel (src/pbox/pbox.c and src/pbox/pbox_sandbox.c).
use sbox.Prelude.{
  ◌+◌, length-set, ℕ, zero, suc, ◌≤◌, ◌≡◌, ◌≢◌, refl, ◌∙◌, ap, List, [], ◌∷◌, ◌++◌, Bool, length,
  take, drop, set, replicate, arith, some, All, length-replicate, length-append, length-drop,
  length-take_of_le,
}
use sbox.Channel.{Channel, State, max_symbol_name}
use sbox.Channel.Pack.{IsShaped}
use sbox.Dyfn.Closure.{Closures}
use sbox.Sandbox.Dispatch.{
  Environment, c_string, serve_dlsym, serve, dispatch_round, served_channel,
}
use sbox.Symbol.{strncpy, dlsym_request, dlsym_control, pbox_dlsym}

-- No byte is NUL.
abbrev pub IsText : List ℕ → Type 0
IsText s = All (λ (c : ℕ). c ≢ 0) s

c_string-append_nul : (s rest : List ℕ) → IsText s → c_string (s ++ (0 ∷ rest)) ≡ s
unfolding c_string
c_string-append_nul [] rest h = refl
c_string-append_nul (c ∷ s) rest (nonzero, h) = ground (arith, c_string-append_nul s rest h)

set_last : (xs : List ℕ) (n x v : ℕ) → length xs ≡ n → set (xs ++ (x ∷ [])) n v ≡ xs ++ (v ∷ [])
set_last [] zero x v e = refl
set_last [] (suc n) x v e = absurd (omega arith)
set_last (y ∷ xs) zero x v e = absurd (omega arith)
set_last (y ∷ xs) (suc n) x v e = ap (λ (l : List ℕ). y ∷ l) (set_last xs n x v (omega arith))

-- The first `n` bytes of a text padded with NULs, and a NUL: the text itself, cut off at `n`.
c_string-padded :
    (s : List ℕ) (n m : ℕ)
    → IsText s
    → n ≤ m
    → c_string (take n (s ++ replicate m 0) ++ (0 ∷ [])) ≡ take n s
unfolding c_string
c_string-padded s zero m h le = refl
c_string-padded [] (suc n) zero h le = absurd (omega arith)
c_string-padded [] (suc n) (suc m) h le = refl
c_string-padded (c ∷ s) (suc n) m (nonzero, h) le =
    ground (arith, c_string-padded s n m h (omega arith))

one_byte : (l : List ℕ) → length l ≡ 1 → (x : ℕ) × (l ≡ x ∷ [])
one_byte [] e = absurd (omega arith)
one_byte (x ∷ []) e = (x, refl)
one_byte (x ∷ (y ∷ l)) e = absurd (omega arith)

length-padded : (s : List ℕ) (n : ℕ) → length (take n (s ++ replicate n 0)) ≡ n
length-padded s n =
    length-take_of_le n (s ++ replicate n 0)
      (omega (arith, length-append {0} s (replicate n 0), length-replicate {0} {A = ℕ} n 0))

-- The name's buffer in a request.
symbol_name-eq :
    (ch : Channel) (s : List ℕ)
    → length ch.symbol_name ≡ max_symbol_name
    → (dlsym_request ch s).symbol_name ≡ take 255 (s ++ replicate 255 0) ++ (0 ∷ [])
unfolding dlsym_request strncpy
symbol_name-eq ch s len =
    let (x, last) =
      one_byte (drop 255 ch.symbol_name) (omega (arith, length-drop {0} 255 ch.symbol_name)) in
    ap (λ (l : List ℕ). set (take 255 (s ++ replicate 255 0) ++ l) 255 0) last
    ∙ set_last (take 255 (s ++ replicate 255 0)) 255 x 0 (length-padded s 255)

-- What the sandbox looks up.
serve_dlsym-eq :
    (dlsym : List ℕ → ℕ) (ch : Channel) (s : List ℕ)
    → IsText s
    → length ch.symbol_name ≡ max_symbol_name
    → (serve_dlsym dlsym (dlsym_request ch s)).symbol_addr ≡ dlsym (take 255 s)
unfolding serve_dlsym
serve_dlsym-eq dlsym ch s text len =
    ap (λ (l : List ℕ). dlsym (c_string (set l 255 0))) (symbol_name-eq ch s len)
    ∙ ap (λ (l : List ℕ). dlsym (c_string l))
        (set_last (take 255 (s ++ replicate 255 0)) 255 0 0 (length-padded s 255))
    ∙ ap dlsym (c_string-padded s 255 255 text (omega arith))

-- The channel that a lookup leaves behind.
abbrev pub looked_up : Environment → Channel → List ℕ → Channel
looked_up env ch symbol = record (serve_dlsym env.dlsym (dlsym_request ch symbol)) {
  state = State.idle;
}

pub pbox_dlsym-eq :
    (env : Environment) (is_control : Bool) (closures : Closures) (ch : Channel) (symbol : List ℕ)
    → IsText symbol
    → length ch.symbol_name ≡ max_symbol_name
    → pbox_dlsym (served_channel env is_control closures) (some ch) symbol
      ≡ some (some (looked_up env ch symbol), env.dlsym (take 255 symbol))
unfolding pbox_dlsym dlsym_control served_channel dispatch_round serve dlsym_request
pbox_dlsym-eq env is_control closures ch symbol text len =
    ap (λ (addr : ℕ). some (some (looked_up env ch symbol), addr))
      (serve_dlsym-eq env.dlsym ch symbol text len)

-- It is in shape for the next request.
pub looked_up-IsShaped :
    (env : Environment) (ch : Channel) (symbol : List ℕ)
    → IsShaped ch
    → IsShaped (looked_up env ch symbol)
unfolding serve_dlsym dlsym_request
looked_up-IsShaped env ch symbol h = record {
  args_len = h.args_len;
  storage_len = h.storage_len;
  types_len = h.types_len;
  result_len = h.result_len;
}

pub length-looked_up :
    (env : Environment) (ch : Channel) (symbol : List ℕ)
    → length ch.symbol_name ≡ max_symbol_name
    → length (looked_up env ch symbol).symbol_name ≡ max_symbol_name
unfolding serve_dlsym
length-looked_up env ch symbol len =
    length-set (dlsym_request ch symbol).symbol_name 255 0
    ∙ ap length (symbol_name-eq ch symbol len)
    ∙ length-append (take 255 (symbol ++ replicate 255 0)) (0 ∷ [])
    ∙ ap (λ (n : ℕ). n + 1) (length-padded symbol 255)

-- A lookup of a name without NULs, from a thread that has a channel, returns the address that the
-- sandbox's dynamic linker gives the name, of which it sees the first 255 bytes, and leaves the
-- channel idle.
pub pbox_dlsym_lem :
    (env : Environment) (is_control : Bool) (closures : Closures) (ch : Channel) (symbol : List ℕ)
    → IsText symbol
    → length ch.symbol_name ≡ max_symbol_name
    → (ch' : Channel) × (pbox_dlsym (served_channel env is_control closures) (some ch) symbol
        ≡ some (some ch', env.dlsym (take 255 symbol)))
      × (ch'.state ≡ State.idle)
pbox_dlsym_lem env is_control closures ch symbol text len =
    (looked_up env ch symbol, pbox_dlsym-eq env is_control closures ch symbol text len, refl)
