-- ===== src/Front/Context/Bindings.antt =====
-- What binding the variables of a call leaves behind in a process context
-- (include/sbox/process.hh).
use sbox.Prelude.{
  ℕ, ◌+◌, ◌^◌, ◌<◌, ◌≤◌, ◌≡◌, ◌⊎◌, inl, refl, sym, ◌∙◌, ap, ap₂, List, [], ◌∷◌, ◌++◌, some, length,
  arith, All, >>=-eq-some, ◌>>=◌,
}
use mathlib.Core.Path.{subst}
use sbox.Idmem.Blocks.{IsMapped}
use sbox.Copy.{Memory, write, read}
use sbox.Copy.Memory.{length-read}
use sbox.Front.Context.{
  Mode, Param, CopyBack, Context, out, in_value, inout, assign, pass, pass_all, inputs,
}
use sbox.Front.Context.Bound.{
  Outside, write_other, read-ext, read-write, Ascending, back, moved, Passed, pass-Passed,
}

-- A variable with its block: the mode, the variable's address, the block's, and the size.
abbrev pub Binding : Type 0
Binding = Mode × ℕ × ℕ × ℕ

abbrev pub hosts : List Binding → List Param
hosts [] = []
hosts ((mode, host, p, n) ∷ bs) = (mode, host, n) ∷ hosts bs

abbrev pub blocks : List Binding → List Param
blocks [] = []
blocks ((mode, host, p, n) ∷ bs) = (mode, p, n) ∷ blocks bs

abbrev pub backs_of : List Binding → List CopyBack
backs_of [] = []
backs_of ((mode, host, p, n) ∷ bs) = back mode host p n ++ backs_of bs

-- Variables that do not overlap [base, base + size).
abbrev pub Clear : ℕ → ℕ → List Param → Type 0
Clear base size vars = All (λ (v : Param). (v.1 + v.2 ≤ base) ⊎ (base + size ≤ v.1)) vars

abbrev pub AreSmall : List Param → Type 0
AreSmall vars = All (λ (v : Param). v.2 < 2 ^ 63) vars

-- There is a value of the right size for every variable that is written.
abbrev pub Sized : List Param → List (List ℕ) → Type 0
Sized [] values = Unit
Sized ((in_value, a, n) ∷ vars) values = Sized vars values
Sized ((out, a, n) ∷ vars) [] = ⊥
Sized ((out, a, n) ∷ vars) (v ∷ values) = (length v ≡ n) × Sized vars values
Sized ((inout, a, n) ∷ vars) [] = ⊥
Sized ((inout, a, n) ∷ vars) (v ∷ values) = (length v ≡ n) × Sized vars values

Ascending-mono :
    (lo lo' hi : ℕ) (args : List Param) → lo' ≤ lo → Ascending lo hi args → Ascending lo' hi args
Ascending-mono lo lo' hi [] le h = omega arith
Ascending-mono lo lo' hi (a ∷ args) le (from, h) = (omega arith, h)

-- Values that lie clear of a region do not change with it.
inputs-ext :
    (base size : ℕ) (m m' : Memory) (vars : List Param)
    → Clear base size vars
    → ((j : ℕ) → Outside base size j → m j ≡ m' j)
    → inputs vars m ≡ inputs vars m'
unfolding inputs
inputs-ext base size m m' [] clear h = refl
inputs-ext base size m m' ((out, a, n) ∷ vars) clear h = inputs-ext base size m m' vars clear.1 h
inputs-ext base size m m' ((in_value, a, n) ∷ vars) (here, clear) h =
    ap₂ (λ (v : List ℕ) (l : List (List ℕ)). v ∷ l)
      (read-ext m m' a n (λ j lo hi. h j (ground arith))) (inputs-ext base size m m' vars clear h)
inputs-ext base size m m' ((inout, a, n) ∷ vars) (here, clear) h =
    ap₂ (λ (v : List ℕ) (l : List (List ℕ)). v ∷ l)
      (read-ext m m' a n (λ j lo hi. h j (ground arith))) (inputs-ext base size m m' vars clear h)

-- What binding the variables of a call leaves behind.
pub record Bound (ctx : Context) (bs : List Binding) (ctx' : Context) : Type 0 where
  pub ascend :
      Ascending (ctx.arena.base + ctx.arena.offset) (ctx.arena.base + ctx.arena.size) (blocks bs)
  pub outside :
      (j : ℕ)
      → (j < ctx.arena.base + ctx.arena.offset) ⊎ (ctx.arena.base + ctx.arena.size ≤ j)
      → ctx'.mem j ≡ ctx.mem j
  pub values : inputs (blocks bs) ctx'.mem ≡ inputs (hosts bs) ctx.mem
  pub backs : ctx'.copybacks ≡ ctx.copybacks ++ backs_of bs
  pub flag : ctx'.finalized ≡ ctx.finalized

-- One more variable.
moved-other :
    (mode : Mode) (mem : Memory) (p host n j : ℕ)
    → Outside p n j
    → moved mode mem p host n j ≡ mem j
unfolding assign
moved-other out mem p host n j h = refl
moved-other in_value mem p host n j h =
    write_other mem p j (read mem host n) (ground (arith, length-read mem host n))
moved-other inout mem p host n j h =
    write_other mem p j (read mem host n) (ground (arith, length-read mem host n))

append_assoc : (xs ys zs : List CopyBack) → (xs ++ ys) ++ zs ≡ xs ++ (ys ++ zs)
append_assoc [] ys zs = refl
append_assoc (x ∷ xs) ys zs = ap (λ (l : List CopyBack). x ∷ l) (append_assoc xs ys zs)

-- The block holds the variable's value, and keeps it.
moved_value : (mem : Memory) (p host n : ℕ) → read (assign mem p host n) p n ≡ read mem host n
unfolding assign
moved_value mem p host n =
    ap (read (write mem p (read mem host n)) p) (sym (length-read mem host n))
    ∙ read-write mem p (read mem host n)

head_values :
    (mode : Mode) (ctx : Memory) (mem1 mem2 : Memory) (p host n : ℕ) (args vars : List Param)
    → mem1 ≡ moved mode ctx p host n
    → read mem2 p n ≡ read mem1 p n
    → inputs args mem2 ≡ inputs vars ctx
    → inputs ((mode, p, n) ∷ args) mem2 ≡ inputs ((mode, host, n) ∷ vars) ctx
unfolding inputs
head_values out mem mem1 mem2 p host n args vars e kept rest = rest
head_values in_value mem mem1 mem2 p host n args vars e kept rest =
    ap₂ (λ (v : List ℕ) (l : List (List ℕ)). v ∷ l)
      (kept ∙ ap (λ (m : Memory). read m p n) e ∙ moved_value mem p host n) rest
head_values inout mem mem1 mem2 p host n args vars e kept rest =
    ap₂ (λ (v : List ℕ) (l : List (List ℕ)). v ∷ l)
      (kept ∙ ap (λ (m : Memory). read m p n) e ∙ moved_value mem p host n) rest

-- One variable more, in front.
Bound-step :
    (ctx ctx1 ctx2 : Context) (mode : Mode) (host p n : ℕ) (bs : List Binding)
    → Passed ctx mode host n ctx1 p
    → Clear ctx.arena.base ctx.arena.size (hosts bs)
    → Bound ctx1 bs ctx2
    → Bound ctx ((mode, host, p, n) ∷ bs) ctx2
Bound-step ctx ctx1 ctx2 mode host p n bs one clear more =
    let g = one.grants in
    let m1 = g.mapped in
    let within1 = m1.within in
    let from = g.from in
    let to = g.to in
    let ends : ctx1.arena.base + ctx1.arena.size ≡ ctx.arena.base + ctx.arena.size =
      omega (arith, g.base_same, g.size_same) in
    let still : (j : ℕ) → Outside p n j → ctx1.mem j ≡ ctx.mem j =
      λ j h. ap (λ (m : Memory). m j) one.mem_is ∙ moved-other mode ctx.mem p host n j h in
    let kept : read ctx2.mem p n ≡ read ctx1.mem p n =
      read-ext ctx2.mem ctx1.mem p n (λ j lo hi. more.outside j (inl (omega (arith, g.to)))) in
    record {
      ascend = (
        from,
        subst (λ (hi : ℕ). Ascending (p + n) hi (blocks bs)) ends
            (Ascending-mono (ctx1.arena.base + ctx1.arena.offset) (p + n) _ (blocks bs) to
              more.ascend),
      );
      outside = λ j h.
          more.outside j (ground (arith, from, to, ends))
          ∙ still j (ground (arith, from, to, ends, within1));
      values =
          head_values mode ctx.mem ctx1.mem ctx2.mem p host n (blocks bs) (hosts bs) one.mem_is kept
            (more.values
              ∙ inputs-ext ctx.arena.base ctx.arena.size ctx1.mem ctx.mem (hosts bs) clear
                  (λ j h. still j (ground (arith, from, to, ends, within1))));
      backs =
          more.backs
          ∙ ap (λ (l : List CopyBack). l ++ backs_of bs) one.backs
          ∙ append_assoc ctx.copybacks (back mode host p n) (backs_of bs);
      flag = more.flag ∙ one.flag;
    }

Bound-nil : (ctx : Context) → IsMapped ctx.arena → Bound ctx [] ctx
unfolding inputs
Bound-nil ctx m =
    let within = m.within in
    record {
      ascend = omega arith;
      outside = λ j h. refl;
      values = refl;
      backs = nil_right ctx.copybacks;
      flag = refl;
    }
  where
    nil_right : (xs : List CopyBack) → xs ≡ xs ++ []
    nil_right [] = refl
    nil_right (x ∷ xs) = ap (λ (l : List CopyBack). x ∷ l) (nil_right xs)

-- All of a call's variables.
pub pass_all-Bound :
    (mmap_identity : ℕ → ℕ) (ctx ctx' : Context) (vars args : List Param)
    → IsMapped ctx.arena
    → AreSmall vars
    → Clear ctx.arena.base ctx.arena.size vars
    → pass_all mmap_identity ctx vars ≡ some (ctx', args)
    → (bs : List Binding) × (vars ≡ hosts bs) × (args ≡ blocks bs) × Bound ctx bs ctx'
unfolding pass_all
pass_all-Bound mmap_identity ctx ctx' [] args m small clear e =
    let pair : (ctx, []) ≡ (ctx', args) = cc in
    (
      [],
      refl,
      sym (ap (λ (r : Context × List Param). r.1) pair),
      subst (λ (c : Context). Bound ctx [] c) (ap (λ (r : Context × List Param). r.0) pair)
          (Bound-nil ctx m),
    )
pass_all-Bound mmap_identity ctx ctx' ((mode, host, n) ∷ vars) args m (small, smalls) (here, clear)
      e =
    let ((ctx1, p), first, rest) =
      >>=-eq-some (pass mmap_identity ctx (mode, host, n))
        (λ (r : Context × ℕ). pass_all mmap_identity r.0 vars >>= λ (q : Context × List Param).
          some (q.0, (mode, r.1, n) ∷ q.1))
        e in
    let ((ctx2, args'), second, last) =
      >>=-eq-some (pass_all mmap_identity ctx1 vars)
        (λ (q : Context × List Param). some (q.0, (mode, p, n) ∷ q.1)) rest in
    let one = pass-Passed mmap_identity ctx ctx1 mode host n p m small first in
    let clear1 =
      subst (λ (a : ℕ × ℕ). Clear a.0 a.1 vars)
        (ap₂ (λ (a b : ℕ). (a, b)) (sym one.grants.base_same) (sym one.grants.size_same)) clear in
    let (bs, are_hosts, are_blocks, more) =
      pass_all-Bound mmap_identity ctx1 ctx2 vars args' one.grants.mapped smalls clear1 second in
    let pair : (ctx2, (mode, p, n) ∷ args') ≡ (ctx', args) = cc in
    (
      (mode, host, p, n) ∷ bs,
      ap (λ (l : List Param). (mode, host, n) ∷ l) are_hosts,
      sym (ap (λ (r : Context × List Param). r.1) pair)
          ∙ ap (λ (l : List Param). (mode, p, n) ∷ l) are_blocks,
      subst (λ (c : Context). Bound ctx ((mode, host, p, n) ∷ bs) c)
          (ap (λ (r : Context × List Param). r.0) pair)
          (Bound-step ctx ctx1 ctx2 mode host p n bs one
            (subst (λ (l : List Param). Clear ctx.arena.base ctx.arena.size l) are_hosts clear)
            more),
    )
