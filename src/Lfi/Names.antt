-- ===== src/Lfi/Names.antt =====
-- The symbol cache of `Sandbox<LFI>` (src/sbox_lfi.cc). A name is told by a number, NULL is 0.
use sbox.Prelude.{
  ℕ, ◌≡◌, ◌≢◌, ◌⊎◌, inl, inr, refl, sym, ap, ◌∙◌, [], ◌∷◌, Bool, true, false, Option, none, some,
  if◌then◌else◌, ◌==◌, ==_iff, arith, Bool-cases, Option-cases,
}
use sbox.Front.Call.{Cache, find}

-- Past the search; `proc_sym` is `lfi_proc_sym`, and `none` the call to `abort`.
unfoldable pub lfi_resolve : (ℕ → ℕ) → Cache → ℕ → Option ℕ → Option (Cache × ℕ)
lfi_resolve proc_sym cache name (some found) = some (cache, found)
lfi_resolve proc_sym cache name none =
    if proc_sym name == 0 then none else some ((name, proc_sym name) ∷ cache, proc_sym name)

unfoldable pub lfi_lookup : (ℕ → ℕ) → Cache → ℕ → Option (Cache × ℕ)
lfi_lookup proc_sym cache name = lfi_resolve proc_sym cache name (find name cache)

-- The entries are the library's symbols.
abbrev pub AreSymbols : (ℕ → ℕ) → Cache → Type 0
AreSymbols proc_sym [] = Unit
AreSymbols proc_sym ((name, found) ∷ rest) =
    (found ≡ proc_sym name) × (proc_sym name ≢ 0) × AreSymbols proc_sym rest

entry_or_rest :
    (b : Bool) (s found : ℕ) (rest : Option ℕ)
    → (if b then some s else rest) ≡ some found
    → ((b ≡ true) × (s ≡ found)) ⊎ (rest ≡ some found)
entry_or_rest true s found rest e = inl (refl, cc)
entry_or_rest false s found rest e = inr e

find-AreSymbols :
    (proc_sym : ℕ → ℕ) (cache : Cache) (name found : ℕ)
    → AreSymbols proc_sym cache
    → find name cache ≡ some found
    → (found ≡ proc_sym name) × (proc_sym name ≢ 0)
unfolding find
find-AreSymbols proc_sym [] name found symbols e = cc
find-AreSymbols proc_sym ((key, s) ∷ rest) name found (same, known, symbols) e =
    elim (entry_or_rest (key == name) s found (find name rest) e) [
      | inl (here, value) ↦
          let one : key ≡ name = (==_iff key name).0 here in
          let at : proc_sym key ≡ proc_sym name = ap proc_sym one in
          (sym value ∙ same ∙ at, λ z. known (at ∙ z))
      | inr later ↦ find-AreSymbols proc_sym rest name found symbols later
    ]

-- Where the cache's entries are the library's symbols, a lookup aborts if the library has no such
-- symbol, and otherwise returns it, found in the cache or not; the entries are still the library's.
pub lfi_lookup_lem :
    (proc_sym : ℕ → ℕ) (cache : Cache) (name : ℕ)
    → AreSymbols proc_sym cache
    → ((proc_sym name ≡ 0) × (lfi_lookup proc_sym cache name ≡ none))
      ⊎ ((proc_sym name ≢ 0)
          × (cache' : Cache) × (lfi_lookup proc_sym cache name ≡ some (cache', proc_sym name))
          × AreSymbols proc_sym cache')
unfolding lfi_lookup lfi_resolve
lfi_lookup_lem proc_sym cache name symbols = elim (Option-cases (find name cache)) [
  | inr (found, e) ↦
      let (same, known) = find-AreSymbols proc_sym cache name found symbols e in
      inr (known, cache, rw e (ap (λ (a : ℕ). some (cache, a)) same), symbols)
  | inl missing ↦ elim (Bool-cases (proc_sym name == 0)) [
    | inl unknown ↦ inl ((==_iff (proc_sym name) 0).0 unknown, rw (missing, unknown) refl)
    | inr known ↦
        let some_symbol : proc_sym name ≢ 0 = λ z. ground arith in
        inr (
          some_symbol,
          (name, proc_sym name) ∷ cache,
          rw (missing, known) refl,
          (refl, some_symbol, symbols),
        )
  ]
]
