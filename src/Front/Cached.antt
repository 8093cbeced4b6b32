-- ===== src/Front/Cached.antt =====
-- The symbol cache of `Sandbox<Process>` (include/sbox/process.hh): `lookup` answers as the sandbox's
-- dynamic linker does.
use sbox.Prelude.{
  true, false, sym, ◌∙◌, ==_iff, ℕ, ◌≡◌, ◌⊎◌, inl, inr, refl, ap, List, [], ◌∷◌, Bool, Option, some,
  none, take, length, arith, Option-cases, ◌==◌, if◌then◌else◌,
}
use sbox.Dyfn.Closure.{Closures}
use sbox.Channel.{Channel, max_symbol_name}
use sbox.Channel.Pack.{IsShaped}
use sbox.Sandbox.Dispatch.{Environment, served_channel}
use sbox.Symbol.Lookup.{IsText, looked_up, pbox_dlsym-eq, looked_up-IsShaped, length-looked_up}
use sbox.Front.Call.{Cache, find, resolve, lookup}

-- What the sandbox's dynamic linker says of a name, of which it sees 255 bytes.
abbrev pub symbol_of : Environment → (ℕ → List ℕ) → ℕ → ℕ
symbol_of env text name = env.dlsym (take 255 (text name))

-- Every entry is the symbol of its name.
abbrev pub Agrees : Environment → (ℕ → List ℕ) → Cache → Type 0
Agrees env text [] = Unit
Agrees env text ((name, addr) ∷ rest) = (addr ≡ symbol_of env text name) × Agrees env text rest

-- A channel in shape for a lookup and a call.
pub record IsUsable (ch : Channel) : Type 0 where
  pub shaped : IsShaped ch
  pub name_len : length ch.symbol_name ≡ max_symbol_name

head_or_rest :
    (b : Bool) (s found : ℕ) (rest : Option ℕ)
    → (if b then some s else rest) ≡ some found
    → ((b ≡ true) × (s ≡ found)) ⊎ (rest ≡ some found)
head_or_rest true s found rest e = inl (refl, cc)
head_or_rest false s found rest e = inr e

find-Agrees :
    (env : Environment) (text : ℕ → List ℕ) (name found : ℕ) (cache : Cache)
    → Agrees env text cache
    → find name cache ≡ some found
    → found ≡ symbol_of env text name
unfolding find
find-Agrees env text name found [] agrees e = cc
find-Agrees env text name found ((key, s) ∷ rest) (same, agrees) e =
    elim (head_or_rest (key == name) s found (find name rest) e) [
      | inl (here, value) ↦ sym value ∙ same ∙ ap (symbol_of env text) ((==_iff key name).0 here)
      | inr later ↦ find-Agrees env text name found rest agrees later
    ]

-- Where a lookup ends.
abbrev pub LooksUp : Environment → (ℕ → List ℕ) → ℕ → Option (Cache × Option Channel × ℕ) → Type 0
LooksUp env text name result =
    (cache' : Cache) × (ch' : Channel) × (result ≡ some (cache', some ch', symbol_of env text name))
    × Agrees env text cache'
    × IsUsable ch'

added :
    (env : Environment) (text : ℕ → List ℕ) (name : ℕ) (cache : Cache)
    → Agrees env text cache
    → let sym = symbol_of env text name in
      Agrees env text (if sym == 0 then cache else (name, sym) ∷ cache)
added env text name cache agrees = ground arith

requested :
    (env : Environment) (is_control : Bool) (closures : Closures) (text : ℕ → List ℕ)
    (cache : Cache) (ch : Channel) (name : ℕ)
    → IsText (text name)
    → IsUsable ch
    → Agrees env text cache
    → LooksUp env text name
        (resolve (served_channel env is_control closures) text cache (some ch) name none)
unfolding resolve
requested env is_control closures text cache ch name is_text usable agrees = (
  if symbol_of env text name == 0 then cache else (name, symbol_of env text name) ∷ cache,
  looked_up env ch (text name),
  rw (pbox_dlsym-eq env is_control closures ch (text name) is_text usable.name_len) refl,
  added env text name cache agrees,
  record {
    shaped = looked_up-IsShaped env ch (text name) usable.shaped;
    name_len = length-looked_up env ch (text name) usable.name_len;
  },
)

-- From a thread that has a channel in shape, and with a cache whose entries are the symbols of their
-- names, a lookup of a name without NULs returns what the sandbox's dynamic linker gives for its
-- first 255 bytes, found in the cache or not. The cache's entries are right again, and the channel
-- is in shape.
pub lookup_lem :
    (env : Environment) (is_control : Bool) (closures : Closures) (text : ℕ → List ℕ)
    (cache : Cache) (ch : Channel) (name : ℕ)
    → IsText (text name)
    → IsUsable ch
    → Agrees env text cache
    → LooksUp env text name
        (lookup (served_channel env is_control closures) text cache (some ch) name)
unfolding lookup resolve
lookup_lem env is_control closures text cache ch name is_text usable agrees =
    elim (Option-cases (find name cache)) [
      | inl missing ↦
          rw missing (requested env is_control closures text cache ch name is_text usable agrees)
      | inr (addr, found) ↦ rw found (
        cache,
        ch,
        ap (λ (a : ℕ). some (cache, some ch, a))
            (find-Agrees env text name addr cache agrees found),
        agrees,
        usable,
      )
    ]
